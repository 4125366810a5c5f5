-- ===== src/Broker/FairQueue/Sweeps.antt =====
-- `RemoveIf` with a predicate that has effects: the state of the caller against the contents.
use rdev.Base.{
  ℕ, zero, suc, ◌+◌, ◌<◌, ◌≡◌, sym, inl, inr, Bool, List, [], ◌∷◌, ◌++◌, arith, length, get_or,
  remove_at, Bool-cases, if◌then◌else◌, ltb,
}
use rdev.Broker.FairQueue.{FairQueue, sift, remove_rounds, remove_if, items_of}
use rdev.Broker.FairQueue.Invariant.{Inv, sifted-Inv}
use rdev.Broker.FairQueue.Removal.{hits, sifted, items-sifted, order-sifted}
use rdev.Broker.FairQueue.Totals.{
  SameTally, contents, items_in, hits-append, hits-items_in, tally_middle, hits_of-remove_at,
  contents_changed,
}

module _ {A S : Type 0} (f : S → A → Bool × S) (R : S → List A → Type 0)
    (respects : (s : S) (xs ys : List A) → SameTally xs ys → R s xs → R s ys)
    (step : ((s : S) (x : A) (xs : List A)
      → R s (x ∷ xs)
      → R (f s x).1 (if (f s x).0 then xs else x ∷ xs))) where
  sift-keeps :
      (s : S) (xs others : List A)
      → R s (xs ++ others)
      → let (kept, _, s') = sift f s xs in R s' (kept ++ others)
  unfolding sift
  sift-keeps s [] others r = r
  sift-keeps s (x ∷ xs) others r = elim (Bool-cases (f s x).0) [
    | inl e ↦ rw e (sift-keeps (f s x).1 xs others (rw e at (step s x (xs ++ others) r)))
    | inr e ↦
        let put_back =
          respects _ _ _ (tally_middle x xs others) (rw e at (step s x (xs ++ others) r)) in
        rw e (
          respects _ _ _ (λ p. sym (tally_middle x (sift f (f s x).1 xs).0 others p))
            (sift-keeps (f s x).1 xs (x ∷ others) put_back))
  ]

  -- A caller that takes one item off its counters whenever its predicate says yes, and none when it
  -- says no, has counters in step with the queue behind `RemoveIf`.
  remove_rounds-keeps :
      (n i : ℕ) (q : FairQueue A) (s : S) (others : List A)
      → Inv q
      → R s (contents q ++ others)
      → let (_, q', s') = remove_rounds n f i q s in R s' (contents q' ++ others)
  unfolding remove_rounds sifted
  remove_rounds-keeps zero i q s others v r = r
  remove_rounds-keeps (suc n) i q s others v r =
      let owner = get_or q.order i "" in
      let (kept, _, s') = sift f s (items_of q owner) in
      let rest = items_in q (remove_at q.order i) in
      elim (Bool-cases (ltb i (length q.order))) [
        | inl e ↦
            let lt : i < length q.order = ground arith in
            let whole : (p : A → Bool)
                → hits p (contents q) ≡ hits p (items_of q owner) + hits p rest =
              λ p. omega (
                arith,
                hits-items_in p q q.order,
                hits-items_in p q (remove_at q.order i),
                hits_of-remove_at p q q.order i lt,
              ) in
            let split : SameTally (contents q ++ others) (items_of q owner ++ (rest ++ others)) =
              λ p. omega (
                arith,
                whole p,
                hits-append p (contents q) others,
                hits-append p (items_of q owner) (rest ++ others),
                hits-append p rest others,
              ) in
            let join : SameTally (kept ++ (rest ++ others)) (contents (sifted q i kept) ++ others) =
              λ p. omega (
                arith,
                whole p,
                hits-append p kept (rest ++ others),
                hits-append p rest others,
                hits-append p (contents (sifted q i kept)) others,
                contents_changed q (sifted q i kept) i kept (items-sifted q i kept)
                    (order-sifted q i kept) p v.distinct lt,
              ) in
            rw e (
              remove_rounds-keeps n _ (sifted q i kept) s' others
                (unfold sifted in sifted-Inv q i kept lt v)
                (respects s' _ _ join
                  (sift-keeps s (items_of q owner) (rest ++ others) (respects s _ _ split r))))
        | inr e ↦ rw e r
      ]

  pub remove_if-keeps :
      (q : FairQueue A) (s : S) (others : List A)
      → Inv q
      → R s (contents q ++ others)
      → let (_, q', s') = remove_if f q s in R s' (contents q' ++ others)
  unfolding remove_if
  remove_if-keeps q s others v r = remove_rounds-keeps (length q.order) 0 q s others v r
