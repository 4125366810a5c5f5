-- ===== src/Broker/FairQueue/Contents.antt =====
-- What the methods of the fair queue do to the items of each owner.
use rdev.Base.{
  ℕ, zero, suc, ◌+◌, ◌≤◌, ◌<◌, String, ◌≡◌, refl, ◌≢◌, inl, inr, Bool, true, false, Option, none,
  some, List, [], ◌∷◌, ◌++◌, arith, length, get_or, lookup, same_refl, ap, All, ◌%◌, lookup-insert,
  lookup-erase, erase-insert, same, same_iff, Bool-cases, ltb, ◌-◌, ◌∙◌, contains, same-cases,
  Option-cases, if◌then◌else◌,
}
use mathlib.Core.Option
use native.Mathlib.Nat.{add-zero, mod-eq_of_lt, mod-add-mod, add-mod_right}
use rdev.Broker.FairQueue.Invariant.{Inv, step_lt}
use rdev.Base.Int.{ℤ}
use rdev.Broker.FairQueue.{
  FairQueue, enqueue, take_item, advance, scan, next_rounds, next_eligible, items_of,
}

module _ {A : Type 0} where
  -- A new item goes behind its owner's other items, and no other owner's items change.
  pub items-enqueue :
      (q : FairQueue A) (owner j : String) (x : A) (w : ℤ)
      → items_of (enqueue q owner x w) j
        ≡ (if same owner j then items_of q owner ++ x ∷ [] else items_of q j)
  unfolding enqueue
  items-enqueue q owner j x w =
      ground (arith, lookup-insert owner j (items_of q owner ++ x ∷ []) q.queues)

  pub items-take_item :
      (q : FairQueue A) (rest : List A) (j : String)
      → items_of (take_item q rest) j
        ≡ (if same (get_or q.order q.cursor "") j then rest else items_of q j)
  unfolding take_item
  items-take_item q [] j =
      rw (erase-insert (get_or q.order q.cursor "") [] q.queues)
        (ground (arith, lookup-erase (get_or q.order q.cursor "") j q.queues))
  items-take_item q (x ∷ xs) j =
      ground (arith, lookup-insert (get_or q.order q.cursor "") j (x ∷ xs) q.queues)

  -- The owner `i` places behind the cursor, round the end of the order.
  abbrev pub owner_at : FairQueue A → ℕ → String
  owner_at q i = get_or q.order ((q.cursor + i) % length q.order) ""

round_step : (c i n : ℕ) → 0 < n → ((c + 1) % n + i) % n ≡ (c + suc i) % n
round_step c i n h = mod-add-mod (c + 1) n i ∙ ap (λ (k : ℕ). k % n) (omega arith)

-- Every place in the order is some number of places behind the cursor.
reach_index : (c j n : ℕ) → c < n → j < n → (i : ℕ) × (i < n) × ((c + i) % n ≡ j)
reach_index c j n h k = elim (Bool-cases (ltb j c)) [
  | inl e ↦
      let before : j < c = ground arith in
      (
        j + n - c,
        omega arith,
        ap (λ (k : ℕ). k % n) (omega arith) ∙ add-mod_right j n ∙ mod-eq_of_lt k,
      )
  | inr e ↦
      let after : c ≤ j = ground arith in
      (j - c, omega arith, ap (λ (k : ℕ). k % n) (omega arith) ∙ mod-eq_of_lt k)
]

index_of :
    (o : String) (xs : List String)
    → contains o xs ≡ true
    → (j : ℕ) × (j < length xs) × (get_or xs j "" ≡ o)
index_of o [] h = cc
index_of o (x ∷ xs) h = elim (same-cases x o) [
  | inl e ↦ (0, omega arith, e)
  | inr e ↦ let (j, lt, p) = index_of o xs (ground arith) in (suc j, omega arith, p)
]

module _ {A S : Type 0} where
  -- The predicate was asked about `x` in some state, and said no; or yes, and left the state `t`.
  abbrev pub Rejects : (S → A → Bool × S) → A → Type 0
  Rejects f x = (u : S) × ((f u x).0 ≡ false)

  abbrev pub Accepts : (S → A → Bool × S) → A → S → Type 0
  Accepts f x t = (u : S) × ((f u x).0 ≡ true) × ((f u x).1 ≡ t)

  -- `x` is the first item of `xs` that was accepted, and `rest` is left, in order.
  abbrev pub Takes : (S → A → Bool × S) → A → S → List A → List A → Type 0
  Takes f x t xs rest =
      (before : List A) × (after : List A) × (xs ≡ before ++ x ∷ after)
      × (rest ≡ before ++ after)
      × All (Rejects f) before
      × Accepts f x t

  -- `x` leaves the items of one owner, and no other owner's items change.
  abbrev pub Serves : (S → A → Bool × S) → A → S → FairQueue A → FairQueue A → Type 0
  Serves f x t q q' =
      (o : String) × Takes f x t (items_of q o) (items_of q' o)
      × ((j : String) → j ≢ o → items_of q' j ≡ items_of q j)

  Scanned : (S → A → Bool × S) → List A → Option (A × List A) → S → Type 0
  Scanned f xs none t = All (Rejects f) xs
  Scanned f xs (some (x, rest)) t = Takes f x t xs rest

  Scanned-cons :
      (f : S → A → Bool × S) (s t : S) (x : A) (xs : List A) (r : Option (A × List A))
      → (f s x).0 ≡ false
      → Scanned f xs r t
      → Scanned f (x ∷ xs) (Option.map (λ p. (p.0, x ∷ p.1)) r) t
  unfolding Scanned
  Scanned-cons f s t x xs none e h = ((s, e), h)
  Scanned-cons f s t x xs (some (y, rest)) e (before, after, p, q, no_before, ok) =
      (x ∷ before, after, ap (◌∷◌ x) p, ap (◌∷◌ x) q, ((s, e), no_before), ok)

  scan-Scanned :
      (f : S → A → Bool × S) (s : S) (xs : List A) → Scanned f xs (scan f s xs).0 (scan f s xs).1
  unfolding scan Scanned
  scan-Scanned f s [] = tt
  scan-Scanned f s (x ∷ xs) = elim (Bool-cases (f s x).0) [
    | inl e ↦ rw e ([], xs, refl, refl, tt, (s, e, refl))
    | inr e ↦ rw e (Scanned-cons f s _ x xs _ e (scan-Scanned f (f s x).1 xs))
  ]

  take_item-Serves :
      (f : S → A → Bool × S) (q : FairQueue A) (x : A) (t : S) (rest : List A)
      → Takes f x t (items_of q (get_or q.order q.cursor "")) rest
      → Serves f x t q (take_item q rest)
  take_item-Serves f q x t rest (before, after, p, r, no_before, ok) =
      let owner = get_or q.order q.cursor "" in
      (
        owner,
        (before, after, p, rw (items-take_item q rest owner, same_refl owner) r, no_before, ok),
        λ j n. ground (arith, items-take_item q rest j, same_iff owner j),
      )

  Searched : (S → A → Bool × S) → ℕ → FairQueue A → Option A → S → FairQueue A → Type 0
  Searched f n q none t q' =
      ((i : ℕ) → i < n → All (Rejects f) (items_of q (owner_at q i)))
      × ((o : String) → items_of q' o ≡ items_of q o)
  Searched f n q (some x) t q' = Serves f x t q q'

  Searched-cons :
      (n : ℕ) (f : S → A → Bool × S) (q q' : FairQueue A) (r : Option A) (t : S)
      → q.cursor < length q.order
      → All (Rejects f) (items_of q (get_or q.order q.cursor ""))
      → Searched f n (advance q) r t q'
      → Searched f (suc n) q r t q'
  unfolding Searched advance
  Searched-cons n f q q' none t h here later = (go, later.1)
    where
      go : (i : ℕ) → i < suc n → All (Rejects f) (items_of q (owner_at q i))
      go zero lt = rw (add-zero, mod-eq_of_lt h) here
      go (suc i) lt =
          rw (← round_step q.cursor i (length q.order) (omega arith)) (later.0 i (omega arith))
  Searched-cons n f q q' (some x) t h here later = later

  next_rounds-Searched :
      (n : ℕ) (f : S → A → Bool × S) (q : FairQueue A) (s : S)
      → q.cursor < length q.order
      → let (r, q', t) = next_rounds n f q s in Searched f n q r t q'
  unfolding next_rounds
  next_rounds-Searched zero f q s h = unfold Searched in (λ i lt. elim lt [ ], λ o. refl)
  next_rounds-Searched (suc n) f q s h =
      let found = scan-Scanned f s (items_of q (get_or q.order q.cursor "")) in
      elim (Option-cases (scan f s (items_of q (get_or q.order q.cursor ""))).0) [
        | inl e ↦
            rw (e, next_rounds)
              (Searched-cons n f q _ _ _ h (unfold Scanned in rw e at found) (
                next_rounds-Searched n f (advance q) _
                  (unfold advance in step_lt q.cursor (length q.order) h)))
        | inr (pick, e) ↦
            rw (e, next_rounds)
              (unfold Searched in
                take_item-Serves f q pick.0 _ pick.1 (unfold Scanned in rw e at found))
      ]

  -- What `NextEligible` promises for its result.
  abbrev pub Answers : (S → A → Bool × S) → FairQueue A → Option A → FairQueue A → S → Type 0
  Answers f q none q' t =
      (o : String) → All (Rejects f) (items_of q o) × (items_of q' o ≡ items_of q o)
  Answers f q (some x) q' t = Serves f x t q q'

  rejected-All :
      (f : S → A → Bool × S) (q : FairQueue A)
      → Inv q
      → ((i : ℕ) → i < length q.order → All (Rejects f) (items_of q (owner_at q i)))
      → (o : String) → All (Rejects f) (items_of q o)
  rejected-All f q v h o = elim (Bool-cases (contains o q.order)) [
    | inl e ↦
        let (j, lt, p) = index_of o q.order e in
        let (i, lt', p') = reach_index q.cursor j (length q.order) (omega (arith, v.within)) lt in
        rw (p', p) at (h i lt')
    | inr e ↦ let gone : lookup o q.queues ≡ none = ground (arith, v.queued o) in rw gone tt
  ]

  Searched-Answers :
      (f : S → A → Bool × S) (q q' : FairQueue A) (r : Option A) (t : S)
      → Inv q
      → Searched f (length q.order) q r t q'
      → Answers f q r q' t
  unfolding Searched
  Searched-Answers f q q' none t v h = λ o. (rejected-All f q v h.0 o, h.1 o)
  Searched-Answers f q q' (some x) t v h = h

  next_rounds-Answers :
      (n : ℕ) (f : S → A → Bool × S) (q : FairQueue A) (s : S)
      → length q.order ≡ n
      → Inv q
      → let (r, q', t) = next_rounds n f q s in Answers f q r q' t
  unfolding next_rounds
  next_rounds-Answers zero f q s e v =
      λ o. (rejected-All f q v (λ i lt. absurd (omega arith)) o, refl)
  next_rounds-Answers (suc n) f q s e v =
      Searched-Answers f q _ _ _ v
        (rw e (next_rounds-Searched (suc n) f q s (omega (arith, v.within))))

  -- A search of a well-formed queue either takes one item out of one owner's items, the first of
  -- them that the predicate accepted, and leaves all else in place; or the predicate has rejected
  -- every item of every owner, and no items change. The predicate may have effects.
  pub next_eligible-Answers :
      (f : S → A → Bool × S) (q : FairQueue A) (s : S)
      → Inv q
      → let (r, q', t) = next_eligible f q s in Answers f q r q' t
  unfolding next_eligible
  next_eligible-Answers f q s v = next_rounds-Answers (length q.order) f q s refl v
