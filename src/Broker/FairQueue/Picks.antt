-- ===== src/Broker/FairQueue/Picks.antt =====
-- What a search of the fair queue does to the state of its caller and to all items together.
use mathlib.Core.Option
use rdev.Base.{
  ℕ, zero, suc, ◌≤◌, ◌<◌, ◌≡◌, refl, sym, ap, ◌∙◌, inl, inr, Bool, true, Option, none, some, List,
  [], ◌∷◌, arith, length, get_or, Bool-cases, Option-cases,
}
use rdev.Broker.FairQueue.{FairQueue, advance, scan, next_rounds, next_eligible, items_of}
use rdev.Broker.FairQueue.Invariant.{Inv, advance-Inv}
use rdev.Broker.FairQueue.Removal.{hits}
use rdev.Broker.FairQueue.Totals.{contents, SameTally, contents-take_item, items_in-congr}

-- `K` is kept by each call of the predicate `f`, whatever its answer.
module _ {A S : Type 0} (f : S → A → Bool × S) (K : S → Type 0)
    (keep : (s : S) (x : A) → K s → K (f s x).1) where
  -- `x` was accepted in a state where `K` held, and `t` is the state which that call left.
  abbrev pub Picks : A → S → Type 0
  Picks x t = (u : S) × K u × ((f u x).0 ≡ true) × ((f u x).1 ≡ t)

  Scans : List A → Option (A × List A) → S → Type 0
  Scans xs none t = K t
  Scans xs (some (x, rest)) t = SameTally xs (x ∷ rest) × Picks x t

  Scans-cons :
      (x : A) (xs : List A) (r : Option (A × List A)) (t : S)
      → Scans xs r t
      → Scans (x ∷ xs) (Option.map (λ p. (p.0, x ∷ p.1)) r) t
  unfolding Scans
  Scans-cons x xs none t h = h
  Scans-cons x xs (some (y, rest)) t h = (λ p. omega (arith, h.0 p), h.1)

  scan-Scans : (s : S) (xs : List A) → K s → Scans xs (scan f s xs).0 (scan f s xs).1
  unfolding scan Scans
  scan-Scans s [] k = k
  scan-Scans s (x ∷ xs) k = elim (Bool-cases (f s x).0) [
    | inl e ↦ rw e (λ p. refl, (s, k, e, refl))
    | inr e ↦ rw e (Scans-cons x xs _ _ (scan-Scans (f s x).1 xs (keep s x k)))
  ]

  -- The result of a search: one item less, accepted where `K` held; or the same items, and `K`.
  abbrev pub Result : FairQueue A → Option A → FairQueue A → S → Type 0
  Result q none q' t = SameTally (contents q') (contents q) × K t
  Result q (some x) q' t = SameTally (contents q) (x ∷ contents q') × Picks x t

  advance-Result :
      (q q' : FairQueue A) (r : Option A) (t : S) → Result (advance q) r q' t → Result q r q' t
  unfolding advance
  advance-Result q q' none t h =
      (λ p. h.0 p ∙ ap (hits p) (items_in-congr q (advance q) q.order (λ o. refl)), h.1)
  advance-Result q q' (some x) t h =
      (λ p. sym (ap (hits p) (items_in-congr q (advance q) q.order (λ o. refl))) ∙ h.0 p, h.1)

  next_rounds-Result :
      (n : ℕ) (q : FairQueue A) (s : S)
      → n ≤ length q.order
      → Inv q
      → K s
      → let (r, q', t) = next_rounds n f q s in Result q r q' t
  unfolding next_rounds
  next_rounds-Result zero q s h v k = (λ p. refl, k)
  next_rounds-Result (suc n) q s h v k =
      let items = items_of q (get_or q.order q.cursor "") in
      let found = scan-Scans s items k in
      let inside : q.cursor < length q.order = omega (arith, v.within) in
      elim (Option-cases (scan f s items).0) [
        | inl e ↦
            rw (e, next_rounds)
              (advance-Result q _ _ _ (
                next_rounds-Result n (advance q) (scan f s items).1 (omega arith)
                  (advance-Inv q (omega arith) v) (unfold Scans in rw e at found)))
        | inr (pick, e) ↦
            let got : SameTally items (pick.0 ∷ pick.1) × Picks pick.0 (scan f s items).1 =
              unfold Scans in rw e at found in
            rw (e, next_rounds)
              (λ p. omega (arith, got.0 p, contents-take_item q pick.1 p v inside), got.1)
      ]

  pub next_eligible-Result :
      (q : FairQueue A) (s : S)
      → Inv q
      → K s
      → let (r, q', t) = next_eligible f q s in Result q r q' t
  unfolding next_eligible
  next_eligible-Result q s v k = next_rounds-Result (length q.order) q s (omega arith) v k
