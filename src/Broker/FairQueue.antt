-- ===== src/Broker/FairQueue.antt =====
-- internal/broker/fairqueue.go. A method returns the new queue and its result; the mutex makes each
-- one atomic. A Go map is a dictionary whose missing keys read as the zero value.
pub mod Invariant
pub mod Contents
pub mod Removal
pub mod Turns
pub mod Totals
pub mod Sweeps
pub mod Picks
pub mod Extraction
pub mod Uniform
pub mod Histories
pub mod Service
pub mod Tests
use rdev.Base.{
  ℕ, zero, suc, ◌+◌, ◌-◌, ◌%◌, String, Bool, true, false, Option, none, some, List, [], ◌∷◌, ◌++◌,
  ltb, leb, ◌==◌, if◌then◌else◌, length, get_or, remove_at, Dict, lookup, insert, erase, or_else,
  is_some, is_nil,
}
use mathlib.Core.Option
use rdev.Base.Int.{ℤ, pos, pos_part, ltb_ℤ}

pub record FairQueue (A : Type 0) : Type 0 where
  pub queues : Dict (List A)
  pub order : List String
  pub weight : Dict ℕ
  pub cursor : ℕ
  pub credits : Dict ℕ

-- `if weight < 1 { weight = 1 }`: an `int` comes in, and what is stored is positive.
unfoldable pub at_least_one : ℤ → ℕ
at_least_one w = if ltb_ℤ w (pos 1) then 1 else pos_part w

module _ {A : Type 0} where
  unfoldable pub new_fair_queue : FairQueue A
  new_fair_queue = record { queues = []; order = []; weight = []; cursor = 0; credits = [] }

  -- q.queues[owner], q.weight[owner] and q.credits[owner].
  abbrev pub items_of : FairQueue A → String → List A
  items_of q owner = or_else [] (lookup owner q.queues)

  abbrev pub weight_of : FairQueue A → String → ℕ
  weight_of q owner = or_else 0 (lookup owner q.weight)

  abbrev pub credits_of : FairQueue A → String → ℕ
  credits_of q owner = or_else 0 (lookup owner q.credits)

  unfoldable pub set_weight : FairQueue A → String → ℤ → FairQueue A
  unfolding at_least_one
  set_weight q owner weight =
      let w = at_least_one weight in
      if weight_of q owner == w
      then q
      else record q { weight = insert owner w q.weight; credits = insert owner 0 q.credits }

  unfoldable pub enqueue : FairQueue A → String → A → ℤ → FairQueue A
  unfolding set_weight
  enqueue q owner value weight =
      let order' = if is_some (lookup owner q.queues) then q.order else q.order ++ owner ∷ [] in
      let q' = set_weight (record q { order = order' }) owner weight in
      record q' { queues = insert owner (items_of q' owner ++ value ∷ []) q'.queues }

  -- The loop of `SetWeights`, over the owners in order.
  unfoldable pub set_weights_of : List String → FairQueue A → (String → ℤ) → FairQueue A
  set_weights_of [] q weights = q
  set_weights_of (owner ∷ os) q weights =
      set_weights_of os (set_weight q owner (weights owner)) weights

  unfoldable pub set_weights : FairQueue A → (String → ℤ) → FairQueue A
  unfolding set_weights_of
  set_weights q weights = set_weights_of q.order q weights

  -- The source calls it at an index below the length of `order` only.
  unfoldable pub remove_owner : FairQueue A → ℕ → FairQueue A
  remove_owner q index =
      let owner = get_or q.order index "" in
      let order' = remove_at q.order index in
      let c = if ltb index q.cursor then q.cursor - 1 else q.cursor in
      record {
        queues = erase owner q.queues;
        order = order';
        weight = erase owner q.weight;
        cursor = if leb (length order') c then 0 else c;
        credits = erase owner q.credits;
      }

  -- The update at the end of `NextEligible`, for the owner at the cursor, whose items become `rest`.
  -- A credit is at least 1 when it is spent, since a stored weight is: `-` is exact.
  unfoldable pub take_item : FairQueue A → List A → FairQueue A
  unfolding remove_owner
  take_item q rest =
      let owner = get_or q.order q.cursor "" in
      let c = if leb (credits_of q owner) 0 then weight_of q owner else credits_of q owner in
      let q' = record q {
        queues = insert owner rest q.queues;
        credits = insert owner (c - 1) q.credits;
      } in
      if is_nil rest
      then remove_owner q' q'.cursor
      else if c - 1 == 0
      then record q' { cursor = (q'.cursor + 1) % length q'.order }
      else q'

  -- `q.cursor = (q.cursor + 1) % len(q.order)`.
  unfoldable pub advance : FairQueue A → FairQueue A
  advance q = record q { cursor = (q.cursor + 1) % length q.order }

module _ {A S : Type 0} where
  -- The predicate may have effects on a state `S` of its caller, and is asked item by item.
  -- The result is the first eligible item with the items that are left without it.
  unfoldable pub scan : (S → A → Bool × S) → S → List A → Option (A × List A) × S
  scan eligible s [] = (none, s)
  scan eligible s (x ∷ xs) =
      let (found, s') = eligible s x in
      let rest = scan eligible s' xs in
      if found then (some (x, xs), s') else (Option.map (λ p. (p.0, x ∷ p.1)) rest.0, rest.1)

  -- The loop `for n := 0; n < len(q.order); n++`, on the rounds that are left.
  unfoldable pub next_rounds : ℕ → (S → A → Bool × S) → FairQueue A → S → Option A × FairQueue A × S
  unfolding scan take_item advance
  next_rounds zero eligible q s = (none, q, s)
  next_rounds (suc n) eligible q s =
      let (found, s') = scan eligible s (items_of q (get_or q.order q.cursor "")) in
      let rest = next_rounds n eligible (advance q) s' in
      elim found [ none ↦ rest | some (item, items) ↦ (some item, take_item q items, s') ]

  unfoldable pub next_eligible : (S → A → Bool × S) → FairQueue A → S → Option A × FairQueue A × S
  unfolding next_rounds
  next_eligible eligible q s = next_rounds (length q.order) eligible q s

  -- The inner loop of `RemoveIf`: the items that are kept, and the count of the others.
  unfoldable pub sift : (S → A → Bool × S) → S → List A → List A × ℕ × S
  sift remove s [] = ([], 0, s)
  sift remove s (x ∷ xs) =
      let (gone, s') = remove s x in
      let (kept, count, s'') = sift remove s' xs in
      if gone then (kept, count + 1, s'') else (x ∷ kept, count, s'')

  -- The outer loop of `RemoveIf`: every round removes the owner at `i` or moves past it.
  unfoldable pub remove_rounds : ℕ → (S → A → Bool × S) → ℕ → FairQueue A → S → ℕ × FairQueue A × S
  unfolding sift remove_owner
  remove_rounds zero remove i q s = (0, q, s)
  remove_rounds (suc n) remove i q s =
      let owner = get_or q.order i "" in
      let (kept, count, s') = sift remove s (items_of q owner) in
      let q' = record q { queues = insert owner kept q.queues } in
      let (count', q'', s'') =
        remove_rounds n remove (if is_nil kept then i else i + 1)
          (if is_nil kept then remove_owner q' i else q') s' in
      if ltb i (length q.order) then (count + count', q'', s'') else (0, q, s)

  unfoldable pub remove_if : (S → A → Bool × S) → FairQueue A → S → ℕ × FairQueue A × S
  unfolding remove_rounds
  remove_if remove q s = remove_rounds (length q.order) remove 0 q s

-- `Next`, with the predicate that every item meets.
unfoldable pub next : {A : Type 0} → FairQueue A → Option A × FairQueue A
unfolding next_eligible
next q = let (item, q', _) = next_eligible {S = Unit {0}} (λ s _. (true, s)) q tt in (item, q')
