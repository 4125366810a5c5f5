-- ===== src/Broker/FairQueue/Uniform.antt =====
-- `RemoveIf` with a predicate whose effects do not change its answers.
use rdev.Base.{
  ℕ, zero, suc, ◌≡◌, refl, inl, inr, Bool, List, [], ◌∷◌, arith, Bool-cases, ltb, length, get_or,
}
use rdev.Broker.FairQueue.{FairQueue, items_of, remove_if, remove_rounds, sift}
use rdev.Broker.FairQueue.Invariant.{Inv}
use rdev.Broker.FairQueue.Removal.{hits, keep, pure, sift-pure}
use rdev.Broker.FairQueue.Totals.{contents}
use rdev.Broker.FairQueue.Extraction.{remove_if-none}

module _ {A S : Type 0} (f : S → A → Bool × S) (p : A → Bool)
    (answers : ((s : S) (x : A) → (f s x).0 ≡ p x)) where
  sift-uniform :
      (s : S) (xs : List A) → ((sift f s xs).0 ≡ keep p xs) × ((sift f s xs).1 ≡ hits p xs)
  unfolding sift
  sift-uniform s [] = (refl, refl)
  sift-uniform s (x ∷ xs) = ground (arith, answers s x, sift-uniform (f s x).1 xs)

  remove_rounds-uniform :
      (n i : ℕ) (q : FairQueue A) (s : S)
      → (remove_rounds n f i q s).1 ≡ (remove_rounds n (pure {S = Unit {0}} p) i q tt).1
  unfolding remove_rounds
  remove_rounds-uniform zero i q s = refl
  remove_rounds-uniform (suc n) i q s = elim (Bool-cases (ltb i (length q.order))) [
    | inl e ↦
        let items = items_of q (get_or q.order i "") in
        rw (e, (sift-uniform s items).0, sift-pure p tt items)
          (remove_rounds-uniform n _ _ (sift f s items).2)
    | inr e ↦ rw e refl
  ]

  -- None of the items that the answers take is left.
  pub uniform-none : (q : FairQueue A) (s : S) → Inv q → hits p (contents (remove_if f q s).1) ≡ 0
  unfolding remove_if
  uniform-none q s v =
      rw (remove_rounds-uniform (length q.order) 0 q s) (remove_if-none {S = Unit {0}} p q tt v)
