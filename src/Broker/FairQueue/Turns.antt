-- ===== src/Broker/FairQueue/Turns.antt =====
-- Weighted turns: how long `Next` stays with one owner.
use mathlib.Core.Path.{ap₂}
use rdev.Base.{
  ℕ, zero, suc, ◌+◌, ◌-◌, ◌%◌, ◌≤◌, ◌<◌, String, ◌≡◌, refl, sym, ap, ◌∙◌, subst, Bool, true, Option,
  some, List, [], ◌∷◌, ◌++◌, map, arith, length, get_or, lookup-insert_self, same_refl,
  if◌then◌else◌, leb, ◌==◌, contains-get_or,
}
use rdev.Broker.FairQueue.{
  FairQueue, take_item, scan, next_rounds, next, items_of, weight_of, credits_of,
}
use rdev.Broker.FairQueue.Invariant.{Inv, take_item-Inv}
use rdev.Broker.FairQueue.Contents.{items-take_item}

module _ {A : Type 0} where
  -- The owner whose turn it is, and how many items it may still have served in this turn: what is
  -- left of its credits, or its weight when they are spent.
  abbrev pub owner_now : FairQueue A → String
  owner_now q = get_or q.order q.cursor ""

  abbrev pub turn_left : FairQueue A → ℕ
  turn_left q =
      if leb (credits_of q (owner_now q)) 0
      then weight_of q (owner_now q)
      else credits_of q (owner_now q)

  -- The results of `n` calls of `Next`, and the queue behind them.
  pub serve : ℕ → FairQueue A → List (Option A) × FairQueue A
  serve zero q = ([], q)
  serve (suc n) q = let (r, q') = next q in let (rs, q'') = serve n q' in (r ∷ rs, q'')

  abbrev always : Unit {0} → A → Bool × Unit {0}
  always s _ = (true, s)

  rounds_head :
      (q : FairQueue A) (x : A) (xs : List A) (n : ℕ)
      → items_of q (owner_now q) ≡ x ∷ xs
      → next_rounds (suc n) always q tt ≡ (some x, take_item q xs, tt)
  unfolding next_rounds scan
  rounds_head q x xs n h = rw (h, next_rounds) refl

  next_head :
      (q : FairQueue A) (x : A) (xs : List A) (n : ℕ)
      → length q.order ≡ suc n
      → items_of q (owner_now q) ≡ x ∷ xs
      → next q ≡ (some x, take_item q xs)
  unfolding next
  next_head q x xs n e h =
      ap (λ k. let r = next_rounds k always q tt in (r.0, r.1)) e
      ∙ ap (λ (r : Option A × FairQueue A × Unit {0}). (r.0, r.1)) (rounds_head q x xs n h)

  turn_left_pos : (q : FairQueue A) → q.cursor < length q.order → Inv q → 1 ≤ turn_left q
  turn_left_pos q h v = ground (arith, v.weighed (owner_now q), contains-get_or q.order q.cursor h)

  take_item_stays :
      (q : FairQueue A) (x : A) (xs : List A)
      → let q' = take_item q (x ∷ xs) in
        (q'.order ≡ q.order)
        × (q'.cursor ≡ (if turn_left q - 1 == 0 then (q.cursor + 1) % length q.order else q.cursor))
        × (credits_of q' (owner_now q) ≡ turn_left q - 1)
  unfolding take_item
  take_item_stays q x xs = (
    ground arith,
    ground arith,
    ground (arith, lookup-insert_self (owner_now q) (turn_left q - 1) q.credits),
  )

  abbrev pub somes : List A → List (Option A)
  somes = map some

  abbrev Turned : FairQueue A → List A → A → List A → List (Option A) × FairQueue A → Type 0
  Turned q xs y ys (rs, q') =
      (rs ≡ somes xs)
      × (q'.order ≡ q.order)
      × (q'.cursor ≡ (q.cursor + 1) % length q.order)
      × (items_of q' (owner_now q) ≡ y ∷ ys)

  serve_items :
      (q : FairQueue A) (xs : List A) (y : A) (ys : List A) (n : ℕ)
      → Inv q
      → length q.order ≡ suc n
      → q.cursor < length q.order
      → items_of q (owner_now q) ≡ xs ++ y ∷ ys
      → length xs ≡ turn_left q
      → Turned q xs y ys (serve (length xs) q)
  unfolding serve
  serve_items q [] y ys n v k h e l = absurd (omega (arith, turn_left_pos q h v))
  serve_items q (x ∷ []) y ys n v k h e l =
      let (same_order, moved, spent) = take_item_stays q y ys in
      rw (next_head q x (y ∷ ys) n k e) (
        refl,
        same_order,
        ground arith,
        ground (arith, items-take_item q (y ∷ ys) (owner_now q), same_refl (owner_now q)),
      )
  serve_items q (x ∷ z ∷ zs) y ys n v k h e l =
      let (same_order, moved, spent) = take_item_stays q z (zs ++ y ∷ ys) in
      let q' = take_item q (z ∷ zs ++ y ∷ ys) in
      let same_cursor : q'.cursor ≡ q.cursor = ground arith in
      let same_owner : owner_now q' ≡ owner_now q = rw (same_order, same_cursor) in
      let items : items_of q' (owner_now q) ≡ z ∷ zs ++ y ∷ ys =
        ground
          (arith, items-take_item q (z ∷ zs ++ y ∷ ys) (owner_now q), same_refl (owner_now q)) in
      let later =
        serve_items q' (z ∷ zs) y ys n (take_item-Inv q _ h v) (ap length same_order ∙ k)
          (rw (same_order, same_cursor) h) (rw same_owner items) (rw same_owner (ground arith)) in
      subst
        (λ (r : Option A × FairQueue A).
          Turned q (x ∷ z ∷ zs) y ys
            (r.0 ∷ (serve (length (z ∷ zs)) r.1).0, (serve (length (z ∷ zs)) r.1).1))
        (sym (next_head q x (z ∷ zs ++ y ∷ ys) n k e))
        (
          ap (◌∷◌ (some x)) later.0,
          later.1 ∙ same_order,
          later.2 ∙ ap₂ (λ (a b : ℕ). (a + 1) % b) same_cursor (ap length same_order),
          rw same_owner at later.3,
        )

  -- In a well-formed queue whose cursor is at an owner with more items than its turn has left,
  -- that many calls of `next` return just the owner's first items, in order; then the order is
  -- the same, the cursor is at the next owner in it, and the owner's other items are left. A turn
  -- has the credits left, or the weight when there are none.
  pub serve_turn :
      (q : FairQueue A) (xs : List A) (y : A) (ys : List A)
      → Inv q
      → q.cursor < length q.order
      → items_of q (owner_now q) ≡ xs ++ y ∷ ys
      → length xs ≡ turn_left q
      → let (rs, q') = serve (turn_left q) q in
        (rs ≡ somes xs)
        × (q'.order ≡ q.order)
        × (q'.cursor ≡ (q.cursor + 1) % length q.order)
        × (items_of q' (owner_now q) ≡ y ∷ ys)
  serve_turn q xs y ys v h e l =
      rw (← l) (serve_items q xs y ys (length q.order - 1) v (omega arith) h e l)
