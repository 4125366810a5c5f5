-- ===== src/Broker/FairQueue/Service.antt =====
-- `Next` against queues that are independent of each other, one of each owner.
use rdev.Base.{
  String, ◌≡◌, ◌≢◌, refl, ap, ◌∙◌, sym, Bool, true, Option, none, some, List, [], ◌∷◌, arith,
}
use rdev.Base.Lists.{All}
use rdev.Broker.FairQueue.{FairQueue, next, items_of}
use rdev.Broker.FairQueue.Invariant.{Inv}
use rdev.Broker.FairQueue.Contents.{next_eligible-Answers, Answers, Rejects, Takes}

module _ {A : Type 0} where
  abbrev always : Unit {0} → A → Bool × Unit {0}
  always s _ = (true, s)

  no-Rejects : (xs : List A) → All (Rejects always) xs → xs ≡ []
  no-Rejects [] h = refl
  no-Rejects (x ∷ xs) h = ground (arith, h.0.1)

  -- The item is the first one of its owner and leaves; without an item, no owner has any.
  abbrev pub Served : FairQueue A → Option A → FairQueue A → Type 0
  Served q none q' = (o : String) → (items_of q o ≡ []) × (items_of q' o ≡ [])
  Served q (some x) q' =
      (o : String) × (items_of q o ≡ x ∷ items_of q' o)
      × ((j : String) → j ≢ o → items_of q' j ≡ items_of q j)

  taken : (x : A) (t : Unit {0}) (xs rest : List A) → Takes always x t xs rest → xs ≡ x ∷ rest
  taken x t xs rest ([], after, e, e', rejects, accepts) = e ∙ ap (λ ys. x ∷ ys) (sym e')
  taken x t xs rest (y ∷ before, after, e, e', rejects, accepts) = ground (arith, rejects.0.1)

  served :
      (q q' : FairQueue A) (r : Option A) (t : Unit {0}) → Answers always q r q' t → Served q r q'
  served q q' none t h =
      λ o. (no-Rejects (items_of q o) (h o).0, (h o).1 ∙ no-Rejects (items_of q o) (h o).0)
  served q q' (some x) t (o, takes, other) =
      (o, taken x t (items_of q o) (items_of q' o) takes, other)

  -- `next` on a well-formed queue refines one queue by owner, first in, first out: it returns the
  -- first item of one owner, takes just this one off and leaves the other owners' items; and it
  -- returns nothing only when no owner has an item.
  pub next-Served : (q : FairQueue A) → Inv q → Served q (next q).0 (next q).1
  unfolding next
  next-Served q v = served q _ _ _ (next_eligible-Answers always q tt v)
