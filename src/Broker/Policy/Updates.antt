-- ===== src/Broker/Policy/Updates.antt =====
-- What an update of the policy changes of the decisions.
use Prim.Native.String.{len}
use rdev.Base.{
  ◌||◌, ◌⊎◌, ap, ltb, String, ◌≡◌, refl, inl, inr, Bool, true, false, ◌&&◌, Option, none, some, [],
  ◌∷◌, arith, same, same_iff, if◌then◌else◌, Dict, lookup, insert, erase, or_else, is_nil,
  lookup-insert, lookup-erase, Bool-cases,
}
use rdev.Broker.Policy.{
  Policy, PolicyError, Grants, grant_of, next_grants, decide, decision, update, update_open, commit,
  is_uncertain,
}

is_nil-lookup : (k : String) (m : Dict Bool) → is_nil m ≡ true → lookup k m ≡ none
unfolding lookup
is_nil-lookup k [] h = refl
is_nil-lookup k ((j, b) ∷ m) h = ground arith

grant_of-next_grants :
    (m : Grants) (owner operation o k : String) (grant : Bool)
    → grant_of (next_grants m owner operation grant) o k
      ≡ (if same owner o && same operation k then grant else grant_of m o k)
unfolding next_grants
grant_of-next_grants m owner operation o k true =
    let old = or_else [] (lookup owner m) in
    ground (
      arith,
      same_iff owner o,
      lookup-insert owner o (insert operation true old) m,
      lookup-insert operation k true old,
    )
grant_of-next_grants m owner operation o k false =
    let old = or_else [] (lookup owner m) in
    ground (
      arith,
      same_iff owner o,
      lookup-erase owner o m,
      lookup-insert owner o (erase operation old) m,
      lookup-erase operation k old,
      is_nil-lookup k (erase operation old),
    )

module _ (policy_digest : Grants → String) (write : String → Grants → Option PolicyError) where
  commit_ok :
      (p : Policy) (next : Grants) (r : Option PolicyError)
      → (commit policy_digest write p next r).0 ≡ none
      → (commit policy_digest write p next r).1
        ≡ record p { grants = next; digest = policy_digest next }
  commit_ok p next none h = refl
  commit_ok p next (some e) h = ground arith

  update_open_ok :
      (p : Policy) (next : Grants) (f : Option PolicyError)
      → (update_open policy_digest write p next f).0 ≡ none
      → (f ≡ none)
        × ((update_open policy_digest write p next f).1
            ≡ record p { grants = next; digest = policy_digest next })
  update_open_ok p next none h =
      (refl, commit_ok p next (if same p.path "" then none else write p.path next) h)
  update_open_ok p next (some e) h = ground arith

  -- A policy that an update has refused: as before, or closed by an uncertain commit.
  commit_refused :
      (p : Policy) (next : Grants) (r : Option PolicyError) (e : PolicyError)
      → (commit policy_digest write p next r).0 ≡ some e
      → ((commit policy_digest write p next r).1 ≡ p)
        ⊎ ((commit policy_digest write p next r).1 ≡ record p { failed = some e })
  commit_refused p next none e h = ground arith
  commit_refused p next (some d) e h = elim (Bool-cases (is_uncertain d)) [
    | inl u ↦ rw u (inr (ap (λ (x : Option PolicyError). record p { failed = x }) h))
    | inr u ↦ rw u (inl refl)
  ]

  update_open_refused :
      (p : Policy) (next : Grants) (f : Option PolicyError) (e : PolicyError)
      → (update_open policy_digest write p next f).0 ≡ some e
      → ((update_open policy_digest write p next f).1 ≡ p)
        ⊎ ((update_open policy_digest write p next f).1 ≡ record p { failed = some e })
  update_open_refused p next none e h =
      commit_refused p next (if same p.path "" then none else write p.path next) e h
  update_open_refused p next (some d) e h = inl refl

  module _ (p : Policy) (owner operation : String) (grant : Bool) where
    abbrev malformed : Bool
    malformed =
        same owner "" || ltb 512 (len owner) || same operation "" || ltb 2048 (len operation)

    abbrev renewed : Grants
    renewed = next_grants p.grants owner operation grant

    update_ok :
        (update policy_digest write p owner operation grant).0 ≡ none
        → (p.failed ≡ none)
          × ((update policy_digest write p owner operation grant).1
              ≡ record p { grants = renewed; digest = policy_digest renewed })
    unfolding update
    update_ok = elim (Bool-cases malformed) [
      | inl bad ↦ rw bad (λ h. ground arith)
      | inr good ↦ rw good (update_open_ok p renewed p.failed)
    ]

    update_refused :
        (e : PolicyError)
        → (update policy_digest write p owner operation grant).0 ≡ some e
        → ((update policy_digest write p owner operation grant).1 ≡ p)
          ⊎ ((update policy_digest write p owner operation grant).1 ≡ record p { failed = some e })
    unfolding update
    update_refused e = elim (Bool-cases malformed) [
      | inl bad ↦ rw bad (λ h. inl refl)
      | inr good ↦ rw good (update_open_refused p renewed p.failed e)
    ]

    -- When an update of the policy succeeds, the decision on that owner's operation becomes what
    -- was granted or revoked, and every other decision of every owner allows what it allowed
    -- before.
    pub decide-update :
        (update policy_digest write p owner operation grant).0 ≡ none
        → (o k : String)
        → (decide (update policy_digest write p owner operation grant).1 o k).allow
          ≡ (if same owner o && same operation k then grant else (decide p o k).allow)
    unfolding decide decision
    decide-update h o k =
        let (writable, e) = update_ok h in
        rw (e, writable) (grant_of-next_grants p.grants owner operation o k grant)

    -- When an update of the policy fails, for a malformed grant, a closed store or a write that
    -- failed or may have failed, whatever the policy allows after it was allowed before it.
    pub decide-update_refused :
        (e : PolicyError)
        → (update policy_digest write p owner operation grant).0 ≡ some e
        → (o k : String)
        → (decide (update policy_digest write p owner operation grant).1 o k).allow ≡ true
        → (decide p o k).allow ≡ true
    unfolding decide decision
    decide-update_refused e h o k = elim (update_refused e h) [
      | inl same_ ↦ rw same_ (λ a. a)
      | inr closed ↦ rw closed (λ a. ground arith)
    ]
