-- ===== src/Broker/Lifecycle/Cancellation.antt =====
-- Which requests an owner's cancellation reaches, and which cancel functions it calls.
use rdev.Base.{
  ℕ, ◌+◌, String, ◌≡◌, refl, inl, inr, Option, none, some, List, [], ◌∷◌, arith, ◌==◌, same,
  same_iff, if◌then◌else◌, Dict, lookup, lookup-erase, contains, Option-cases,
}
use rdev.Broker.Lifecycle.{RequestRegistry, remove, cancel_owner}

-- How often a cancel function was called.
abbrev pub calls : ℕ → List ℕ → ℕ
calls c [] = 0
calls c (d ∷ ds) = (if d == c then 1 else 0) + calls c ds

-- Whether `c` is the cancel function of `o`.
abbrev pub holds : ℕ → Option ℕ → ℕ
holds c none = 0
holds c (some d) = if d == c then 1 else 0

remove-lookup :
    (r : RequestRegistry) (id j : String)
    → lookup j (remove r id).requests ≡ (if same id j then none else lookup j r.requests)
unfolding remove
remove-lookup r id j = elim (Option-cases (lookup id r.requests)) [
  | inl e ↦ rw e (ground (arith, same_iff id j))
  | inr (c, e) ↦ rw e (lookup-erase id j r.requests)
]

remove-calls :
    (r : RequestRegistry) (id : String) (c : ℕ)
    → calls c (remove r id).canceled ≡ holds c (lookup id r.requests) + calls c r.canceled
unfolding remove
remove-calls r id c = elim (Option-cases (lookup id r.requests)) [
  | inl e ↦ rw e (omega arith)
  | inr (d, e) ↦ rw e (omega arith)
]

-- The calls of `c` that the cancellation of `ids` makes: one for each id that has it, counted once.
abbrev pub held : ℕ → Dict ℕ → List String → ℕ
held c m [] = 0
held c m (id ∷ ids) =
    let rest = held c m ids in if contains id ids then rest else holds c (lookup id m) + rest

held-erased :
    (c : ℕ) (m m' : Dict ℕ) (id : String) (ids : List String)
    → ((j : String) → lookup j m' ≡ (if same id j then none else lookup j m))
    → held c m' ids + (if contains id ids then holds c (lookup id m) else 0) ≡ held c m ids
held-erased c m m' id [] h = refl
held-erased c m m' id (i ∷ ids) h =
    ground (arith, h i, same_iff i id, same_iff id i, held-erased c m m' id ids h)

-- `cancel_owner` takes just the requests with the ids it is given, and calls each of their cancel
-- functions once however often the id is given; other requests stay, and no other cancel function
-- is called.
pub cancel_owner_lem :
    (r : RequestRegistry) (ids : List String)
    → let r' = cancel_owner r ids in
      ((j : String) → lookup j r'.requests ≡ (if contains j ids then none else lookup j r.requests))
      × ((c : ℕ) → calls c r'.canceled ≡ held c r.requests ids + calls c r.canceled)
unfolding cancel_owner
cancel_owner_lem r [] = (λ j. refl, λ c. omega arith)
cancel_owner_lem r (id ∷ ids) =
    let (gone, called) = cancel_owner_lem (remove r id) ids in
    (
      λ j. ground (arith, gone j, remove-lookup r id j),
      λ c. ground (
        arith,
        called c,
        remove-calls r id c,
        held-erased c r.requests (remove r id).requests id ids (λ j. remove-lookup r id j),
      ),
    )
