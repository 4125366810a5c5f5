-- ===== src/Broker/FairQueue/Totals.antt =====
-- All items of a fair queue together, counted by a test, and the rules by which a caller keeps
-- counters of its own in step with them.
use rdev.Base.{
  ℕ, zero, suc, ◌+◌, ◌<◌, String, ◌≡◌, refl, ap, ◌∙◌, subst, inl, inr, Bool, true, false, none,
  List, [], ◌∷◌, ◌++◌, arith, length, get_or, remove_at, lookup, same, same_iff, same_refl,
  Bool-cases, same-cases, is_nil, if◌then◌else◌, contains, Distinct, contains-get_or,
  contains-remove_at,
}
use mathlib.Core.Path.{ap₂}
use rdev.Base.Int.{ℤ}
use rdev.Broker.FairQueue.{
  FairQueue, enqueue, set_weight, set_weights, set_weights_of, take_item, items_of,
}
use rdev.Broker.FairQueue.Invariant.{Inv}
use rdev.Broker.FairQueue.Removal.{hits, hits_of}
use rdev.Broker.FairQueue.Contents.{items-take_item, items-enqueue}

module _ {A : Type 0} where
  -- The items of the owners `os`, and of all owners in order.
  abbrev pub items_in : FairQueue A → List String → List A
  items_in q [] = []
  items_in q (o ∷ os) = items_of q o ++ items_in q os

  abbrev pub contents : FairQueue A → List A
  contents q = items_in q q.order

  -- Two lists hold as many items of every kind.
  abbrev pub SameTally : List A → List A → Type 0
  SameTally xs ys = (p : A → Bool) → hits p xs ≡ hits p ys

  pub hits-append : (p : A → Bool) (xs ys : List A) → hits p (xs ++ ys) ≡ hits p xs + hits p ys
  hits-append p [] ys = omega arith
  hits-append p (x ∷ xs) ys = omega (arith, hits-append p xs ys)

  pub hits-items_in :
      (p : A → Bool) (q : FairQueue A) (os : List String) → hits p (items_in q os) ≡ hits_of p q os
  hits-items_in p q [] = refl
  hits-items_in p q (o ∷ os) =
      omega (arith, hits-append p (items_of q o) (items_in q os), hits-items_in p q os)

  pub hits_of-remove_at :
      (p : A → Bool) (q : FairQueue A) (os : List String) (i : ℕ)
      → i < length os
      → hits_of p q (remove_at os i) + hits p (items_of q (get_or os i "")) ≡ hits_of p q os
  hits_of-remove_at p q [] i h = elim h [ ]
  hits_of-remove_at p q (o ∷ os) zero h = omega arith
  hits_of-remove_at p q (o ∷ os) (suc i) h = omega (arith, hits_of-remove_at p q os i (omega arith))

module _ {A : Type 0} (p : A → Bool) (q q' : FairQueue A) (owner : String) (rest : List A)
    (changed : (j : String) → items_of q' j ≡ (if same owner j then rest else items_of q j)) where
  hits_of_other : (os : List String) → contains owner os ≡ false → hits_of p q' os ≡ hits_of p q os
  hits_of_other [] h = refl
  hits_of_other (o ∷ os) h =
      ground (arith, changed o, same_iff owner o, same_iff o owner, hits_of_other os)

  hits_of_changed :
      (os : List String)
      → Distinct os
      → contains owner os ≡ true
      → hits_of p q' os + hits p (items_of q owner) ≡ hits_of p q os + hits p rest
  hits_of_changed [] d h = cc
  hits_of_changed (o ∷ os) d h = elim (same-cases o owner) [
    | inl e ↦
        let e' : same owner o ≡ true = ground (arith, same_iff owner o) in
        let there : hits p (items_of q' o) ≡ hits p rest = ap (hits p) (changed o ∙ rw e') in
        let here : hits p (items_of q o) ≡ hits p (items_of q owner) = rw e in
        omega (arith, there, here, hits_of_other os (subst (λ k. contains k os ≡ false) e d.0))
    | inr n ↦
        let e' : same owner o ≡ false = ground (arith, same_iff owner o, same_iff o owner) in
        let there : hits p (items_of q' o) ≡ hits p (items_of q o) =
          ap (hits p) (changed o ∙ rw e') in
        omega (arith, there, hits_of_changed os d.1 (ground arith))
  ]

hits_nil : {A : Type 0} (p : A → Bool) (xs : List A) → is_nil xs ≡ true → hits p xs ≡ 0
hits_nil p [] e = refl
hits_nil p (x ∷ xs) e = cc

pub tally_middle : {A : Type 0} (x : A) (xs ys : List A) → SameTally (x ∷ xs ++ ys) (xs ++ x ∷ ys)
tally_middle x xs ys p = omega (arith, hits-append p xs ys, hits-append p xs (x ∷ ys))

-- An owner's items become `rest`, and an owner without items leaves the order.
module _ {A : Type 0} (q q' : FairQueue A) (i : ℕ) (rest : List A)
    (changed : (j : String)
      → items_of q' j ≡ (if same (get_or q.order i "") j then rest else items_of q j))
    (ordered : q'.order ≡ (if is_nil rest then remove_at q.order i else q.order)) where
  pub contents_changed :
      (p : A → Bool)
      → Distinct q.order
      → i < length q.order
      → hits p (contents q') + hits p (items_of q (get_or q.order i ""))
        ≡ hits p (contents q) + hits p rest
  contents_changed p d h =
      let owner = get_or q.order i "" in
      elim (Bool-cases (is_nil rest)) [
        | inl e ↦
            let order' : q'.order ≡ remove_at q.order i = ordered ∙ rw e in
            let none_left : hits p rest ≡ 0 = hits_nil p rest e in
            let gone : contains owner (remove_at q.order i) ≡ false =
              ground (arith, contains-remove_at owner q.order i d h, same_refl owner) in
            let after : hits p (contents q') ≡ hits_of p q (remove_at q.order i) =
              hits-items_in p q' q'.order
              ∙ ap (hits_of p q') order'
              ∙ hits_of_other p q q' owner rest changed (remove_at q.order i) gone in
            omega (
              arith,
              after,
              none_left,
              hits-items_in p q q.order,
              hits_of-remove_at p q q.order i h,
            )
        | inr e ↦
            let order' : q'.order ≡ q.order = ordered ∙ rw e in
            let after : hits p (contents q') ≡ hits_of p q' q.order =
              hits-items_in p q' q'.order ∙ ap (hits_of p q') order' in
            omega (
              arith,
              after,
              hits-items_in p q q.order,
              hits_of_changed p q q' owner rest changed q.order d (contains-get_or q.order i h),
            )
      ]

module _ {A : Type 0} where
  order-take_item :
      (q : FairQueue A) (rest : List A)
      → (take_item q rest).order ≡ (if is_nil rest then remove_at q.order q.cursor else q.order)
  unfolding take_item
  order-take_item q [] = refl
  order-take_item q (x ∷ xs) = ground arith

  pub contents-take_item :
      (q : FairQueue A) (rest : List A) (p : A → Bool)
      → Inv q
      → q.cursor < length q.order
      → hits p (contents (take_item q rest)) + hits p (items_of q (get_or q.order q.cursor ""))
        ≡ hits p (contents q) + hits p rest
  contents-take_item q rest p v h =
      contents_changed q (take_item q rest) q.cursor rest (items-take_item q rest)
        (order-take_item q rest) p v.distinct h

  order-enqueue :
      (q : FairQueue A) (owner : String) (x : A) (w : ℤ)
      → Inv q
      → (enqueue q owner x w).order
        ≡ (if contains owner q.order then q.order else q.order ++ owner ∷ [])
  unfolding enqueue
  order-enqueue q owner x w v = ground (arith, v.queued owner)

  hits_of-append :
      (p : A → Bool) (q : FairQueue A) (os : List String) (o : String)
      → hits_of p q (os ++ o ∷ []) ≡ hits_of p q os + hits p (items_of q o)
  hits_of-append p q [] o = omega arith
  hits_of-append p q (x ∷ os) o = omega (arith, hits_of-append p q os o)

  -- `enqueue` on a well-formed queue adds the item and loses none: of every kind, the contents
  -- have as many items as before with the new one.
  pub contents-enqueue :
      (q : FairQueue A) (owner : String) (x : A) (w : ℤ) (p : A → Bool)
      → Inv q
      → hits p (contents (enqueue q owner x w)) ≡ hits p (x ∷ contents q)
  contents-enqueue q owner x w p v =
      let q' = enqueue q owner x w in
      let rest = items_of q owner ++ x ∷ [] in
      let changed = λ (j : String). items-enqueue q owner j x w in
      let more = hits-append p (items_of q owner) (x ∷ []) in
      elim (Bool-cases (contains owner q.order)) [
        | inl e ↦
            let after : hits p (contents q') ≡ hits_of p q' q.order =
              hits-items_in p q' q'.order
              ∙ ap (hits_of p q') (order-enqueue q owner x w v ∙ rw e) in
            omega (
              arith,
              after,
              more,
              hits-items_in p q q.order,
              hits_of_changed p q q' owner rest changed q.order v.distinct e,
            )
        | inr e ↦
            let after : hits p (contents q') ≡ hits_of p q' (q.order ++ owner ∷ []) =
              hits-items_in p q' q'.order
              ∙ ap (hits_of p q') (order-enqueue q owner x w v ∙ rw e) in
            let gone : lookup owner q.queues ≡ none = ground (arith, v.queued owner) in
            let nothing : hits p (items_of q owner) ≡ 0 = rw gone in
            let now : hits p (items_of q' owner) ≡ hits p rest =
              ap (hits p) (changed owner ∙ rw (same_refl owner)) in
            omega (
              arith,
              after,
              more,
              nothing,
              now,
              hits-items_in p q q.order,
              hits_of-append p q' q.order owner,
              hits_of_other p q q' owner rest changed q.order e,
            )
      ]

  pub items_in-congr :
      (q q' : FairQueue A) (os : List String)
      → ((o : String) → items_of q' o ≡ items_of q o)
      → items_in q' os ≡ items_in q os
  items_in-congr q q' [] h = refl
  items_in-congr q q' (o ∷ os) h = ap₂ ◌++◌ (h o) (items_in-congr q q' os h)

  contents-set_weight :
      (q : FairQueue A) (o : String) (w : ℤ) → contents (set_weight q o w) ≡ contents q
  unfolding set_weight
  contents-set_weight q o w =
      items_in-congr q (set_weight q o w) _ (λ j. ground arith) ∙ ap (items_in q) (ground arith)

  contents-set_weights_of :
      (os : List String) (q : FairQueue A) (weights : String → ℤ)
      → contents (set_weights_of os q weights) ≡ contents q
  unfolding set_weights_of
  contents-set_weights_of [] q weights = refl
  contents-set_weights_of (o ∷ os) q weights =
      contents-set_weights_of os _ weights ∙ contents-set_weight q o (weights o)

  pub contents-set_weights :
      (q : FairQueue A) (weights : String → ℤ) → contents (set_weights q weights) ≡ contents q
  unfolding set_weights
  contents-set_weights q weights = contents-set_weights_of q.order q weights
