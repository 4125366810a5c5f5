-- ===== src/Broker/FairQueue/Extraction.antt =====
-- What `RemoveIf` with a predicate without effects takes out of the contents of a queue.
use rdev.Base.{String, ◌≡◌, refl, sym, ◌∙◌, Bool, not, ◌&&◌, List, [], ◌∷◌, arith}
use rdev.Broker.FairQueue.{FairQueue, items_of, remove_if}
use rdev.Broker.FairQueue.Invariant.{Inv}
use rdev.Broker.FairQueue.Removal.{hits, keep, remove_if_lem, pure}
use rdev.Broker.FairQueue.Totals.{contents, items_in, hits-append, hits-items_in}
use rdev.Broker.FairQueue.Sweeps.{remove_if-keeps}

module _ {A : Type 0} (t : A → Bool) where
  -- The items of kind `p` that the predicate `t` leaves.
  abbrev pub spared : (A → Bool) → A → Bool
  spared p x = not (t x) && p x

  hits-keep : (xs : List A) → hits t (keep t xs) ≡ 0
  hits-keep [] = refl
  hits-keep (x ∷ xs) = ground (arith, hits-keep xs)

  pub hits-spared_absent :
      (p : A → Bool) (xs : List A) → hits t xs ≡ 0 → hits (spared p) xs ≡ hits p xs
  hits-spared_absent p [] h = refl
  hits-spared_absent p (x ∷ xs) h = ground (arith, hits-spared_absent p xs)

module _ {A S : Type 0} (t : A → Bool) (q : FairQueue A) (s : S) (v : Inv q) where
  abbrev left : FairQueue A
  left = (remove_if (pure t) q s).1

  -- `RemoveIf` returns how many items it took.
  pub remove_if-count : (remove_if (pure t) q s).0 ≡ hits t (contents q)
  remove_if-count = (remove_if_lem t q s v).0 ∙ sym (hits-items_in t q q.order)

  none_of : (o : String) → hits t (items_of left o) ≡ 0
  none_of o = rw ((remove_if_lem t q s v).1 o) (hits-keep t (items_of q o))

  none_in : (os : List String) → hits t (items_in left os) ≡ 0
  none_in [] = refl
  none_in (o ∷ os) =
      omega (arith, hits-append t (items_of left o) (items_in left os), none_of o, none_in os)

  -- It leaves none of the items that it is to take,
  pub remove_if-none : hits t (contents left) ≡ 0
  remove_if-none = none_in left.order

  -- and all of the others.
  pub remove_if-others : (p : A → Bool) → hits p (contents left) ≡ hits (spared t p) (contents q)
  remove_if-others p = omega (
    arith,
    hits-spared_absent t p (contents left) remove_if-none,
    hits-append (spared t p) (contents left) [],
    hits-append (spared t p) (contents q) [],
    remove_if-keeps (pure t) (λ u xs. hits (spared t p) xs ≡ hits (spared t p) (contents q))
        (λ u xs ys same e. sym (same (spared t p)) ∙ e) (λ u x xs e. ground arith) q s [] v
        (hits-append (spared t p) (contents q) [] ∙ omega arith),
  )
