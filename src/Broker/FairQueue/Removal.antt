-- ===== src/Broker/FairQueue/Removal.antt =====
-- `RemoveIf` of the fair queue, for a predicate without effects.
use rdev.Base.{
  ℕ, zero, suc, ◌+◌, ◌≤◌, ◌<◌, String, ◌≡◌, refl, subst, inl, inr, Bool, false, List, [], ◌∷◌,
  arith, length, length-remove_at, get_or, remove_at, drop, lookup, insert, lookup-insert,
  lookup-erase, erase-insert, same, same_iff, Bool-cases, is_nil, if◌then◌else◌, contains, Distinct,
  drop-get_or, drop-remove_at, drop_end, drop-Distinct, ltb,
}
use native.Mathlib.Numerals.{add-one}
use rdev.Broker.FairQueue.{FairQueue, remove_owner, sift, remove_rounds, remove_if, items_of}
use rdev.Broker.FairQueue.Invariant.{Inv, sifted-Inv}

module _ {A : Type 0} where
  -- The queue when the owner at `i` has been sifted.
  unfoldable pub sifted : FairQueue A → ℕ → List A → FairQueue A
  sifted q i kept =
      let q' = record q { queues = insert (get_or q.order i "") kept q.queues } in
      if is_nil kept then remove_owner q' i else q'

  pub items-sifted :
      (q : FairQueue A) (i : ℕ) (kept : List A) (j : String)
      → items_of (sifted q i kept) j ≡ (if same (get_or q.order i "") j then kept else items_of q j)
  unfolding sifted remove_owner
  items-sifted q i [] j =
      rw (erase-insert (get_or q.order i "") [] q.queues)
        (ground (arith, lookup-erase (get_or q.order i "") j q.queues))
  items-sifted q i (x ∷ xs) j =
      ground (arith, lookup-insert (get_or q.order i "") j (x ∷ xs) q.queues)

  pub order-sifted :
      (q : FairQueue A) (i : ℕ) (kept : List A)
      → (sifted q i kept).order ≡ (if is_nil kept then remove_at q.order i else q.order)
  unfolding sifted remove_owner
  order-sifted q i [] = refl
  order-sifted q i (x ∷ xs) = refl

  next_index : ℕ → List A → ℕ
  next_index i kept = if is_nil kept then i else i + 1

  later-sifted :
      (q : FairQueue A) (i : ℕ) (kept : List A)
      → drop (next_index i kept) (sifted q i kept).order ≡ drop (suc i) q.order
  unfolding sifted remove_owner next_index
  later-sifted q i [] = drop-remove_at q.order i
  later-sifted q i (x ∷ xs) = rw add-one

  length-sifted :
      (q : FairQueue A) (i n : ℕ) (kept : List A)
      → i < length q.order
      → length q.order ≤ i + suc n
      → length (sifted q i kept).order ≤ next_index i kept + n
  unfolding sifted remove_owner next_index
  length-sifted q i n [] h k = omega (arith, length-remove_at q.order i h)
  length-sifted q i n (x ∷ xs) h k = omega arith

module _ {A : Type 0} (p : A → Bool) where
  -- The items that `p` leaves, and how many it takes.
  abbrev pub keep : List A → List A
  keep [] = []
  keep (x ∷ xs) = let rest = keep xs in if p x then rest else x ∷ rest

  abbrev pub hits : List A → ℕ
  hits [] = 0
  hits (x ∷ xs) = (if p x then 1 else 0) + hits xs

  -- The hits among the items of the owners `os`.
  abbrev pub hits_of : FairQueue A → List String → ℕ
  hits_of q [] = 0
  hits_of q (o ∷ os) = hits (items_of q o) + hits_of q os

module _ {A : Type 0} (p : A → Bool) where
  Removes : FairQueue A → List String → ℕ → FairQueue A → Type 0
  Removes q os count q' =
      (count ≡ hits_of p q os)
      × ((o : String)
          → items_of q' o ≡ (if contains o os then keep p (items_of q o) else items_of q o))

  hits_of-sifted :
      (q : FairQueue A) (i : ℕ) (kept : List A) (os : List String)
      → contains (get_or q.order i "") os ≡ false
      → hits_of p (sifted q i kept) os ≡ hits_of p q os
  hits_of-sifted q i kept [] h = refl
  hits_of-sifted q i kept (o ∷ os) h = ground (
    arith,
    items-sifted q i kept o,
    same_iff (get_or q.order i "") o,
    same_iff o (get_or q.order i ""),
    hits_of-sifted q i kept os,
  )

  -- One round, put before the rounds on the owners behind.
  Removes-cons :
      (q q' : FairQueue A) (i count : ℕ) (os : List String)
      → let o = get_or q.order i "" in
        let kept = keep p (items_of q o) in
        contains o os ≡ false
        → Removes (sifted q i kept) os count q'
        → Removes q (o ∷ os) (hits p (items_of q o) + count) q'
  unfolding Removes
  Removes-cons q q' i count os h r =
      let owner = get_or q.order i "" in
      let kept = keep p (items_of q owner) in
      (
        ground (arith, r.0, hits_of-sifted q i kept os h),
        λ j. ground (arith, r.1 j, items-sifted q i kept j, same_iff owner j),
      )

module _ {A S : Type 0} (p : A → Bool) where
  abbrev pub pure : S → A → Bool × S
  pure s x = (p x, s)

  pub sift-pure : (s : S) (xs : List A) → sift pure s xs ≡ (keep p xs, hits p xs, s)
  unfolding sift
  sift-pure s [] = refl
  sift-pure s (x ∷ xs) = ground (arith, sift-pure s xs)

  remove_rounds-Removes :
      (n i : ℕ) (q : FairQueue A) (s : S)
      → length q.order ≤ i + n
      → Inv q
      → let r = remove_rounds n pure i q s in Removes p q (drop i q.order) r.0 r.1
  unfolding remove_rounds lookup next_index sifted
  remove_rounds-Removes zero i q s h v =
      rw (drop_end q.order i (omega arith)) (unfold Removes in (refl, λ o. refl))
  remove_rounds-Removes (suc n) i q s h v = elim (Bool-cases (ltb i (length q.order))) [
    | inl e ↦
        let lt : i < length q.order = ground arith in
        let owner = get_or q.order i "" in
        let kept = keep p (items_of q owner) in
        let later =
          remove_rounds-Removes n (next_index i kept) (sifted q i kept) s
            (length-sifted q i n kept lt h) (unfold sifted in sifted-Inv q i kept lt v) in
        let fresh : contains owner (drop (suc i) q.order) ≡ false =
          (subst Distinct (drop-get_or q.order i lt) (drop-Distinct q.order i v.distinct)).0 in
        rw (e, sift-pure s (items_of q owner), drop-get_or q.order i lt)
          (Removes-cons p q _ i _ (drop (suc i) q.order) fresh
            (rw (later-sifted q i kept) at later))
    | inr e ↦ rw (e, drop_end q.order i (ground arith)) (unfold Removes in (refl, λ o. refl))
  ]

  -- `remove_if` of a well-formed queue, with a predicate without effects, leaves every owner just
  -- the items that the predicate does not take, in order, and returns how many it took.
  pub remove_if_lem :
      (q : FairQueue A) (s : S)
      → Inv q
      → let (count, q', _) = remove_if pure q s in
        (count ≡ hits_of p q q.order) × ((o : String) → items_of q' o ≡ keep p (items_of q o))
  unfolding remove_if Removes
  remove_if_lem q s v =
      let r = remove_rounds-Removes (length q.order) 0 q s (omega arith) v in
      (r.0, λ o. ground (arith, r.1 o, v.queued o))
