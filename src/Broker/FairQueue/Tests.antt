-- ===== src/Broker/FairQueue/Tests.antt =====
-- Runs of the fair queue, and the instances of its theorems.
use rdev.Base.{
  ℕ, ◌+◌, ◌%◌, String, ◌≡◌, refl, Bool, Option, some, none, List, [], ◌∷◌, arith, length, lookup,
  insert, erase, ◌==◌,
}
use rdev.Base.Int.{pos}
use rdev.Broker.FairQueue.{
  FairQueue, new_fair_queue, enqueue, next, next_eligible, remove_if, items_of,
}
use rdev.Broker.FairQueue.Invariant.{Inv}
use rdev.Broker.FairQueue.Contents.{next_eligible-Answers, Answers}
use rdev.Broker.FairQueue.Removal.{remove_if_lem, pure, hits_of, keep}
use rdev.Broker.FairQueue.Turns.{serve, serve_turn, turn_left, somes, owner_now}
use rdev.Broker.FairQueue.Totals.{contents, contents-enqueue}
use rdev.Broker.FairQueue.Removal.{hits}
use rdev.Broker.FairQueue.Histories.{Built, Built-Inv}
use rdev.Broker.FairQueue.Service.{Served, next-Served}

abbrev busy : FairQueue ℕ
busy =
    enqueue
      (enqueue
        (enqueue (enqueue (enqueue new_fair_queue "a" 1 (pos 2)) "a" 2 (pos 2)) "a" 3 (pos 2)) "b"
        10 (pos 0))
      "b" 11 (pos 1)

drain : ℕ → FairQueue ℕ → List (Option ℕ)
drain ℕ.zero q = []
drain (ℕ.suc n) q = (next q).0 ∷ drain n (next q).1

-- Two items of the owner with weight 2, then one of the other, in turn.
drain_busy : drain 6 busy ≡ some 1 ∷ some 2 ∷ some 10 ∷ some 3 ∷ some 11 ∷ none ∷ []
unfolding drain next new_fair_queue enqueue lookup insert erase
drain_busy = refl

busy-Built : Built busy
busy-Built = Built.enqueued "b" 11 (pos 1) (
    Built.enqueued "b" 10 (pos 0) (
      Built.enqueued "a" 3 (pos 2)
        (Built.enqueued "a" 2 (pos 2) (Built.enqueued "a" 1 (pos 2) Built.fresh))))

abbrev is_even : ℕ → Bool
is_even n = n % 2 == 0

Built-Inv_example : Inv (next_eligible (pure is_even) (remove_if (pure is_even) busy tt).1 tt).1
Built-Inv_example =
    Built-Inv (Built.searched (pure is_even) tt (Built.swept (pure is_even) tt busy-Built))

next_eligible-Answers_example :
    let (r, q, t) = next_eligible (pure is_even) busy tt in Answers (pure is_even) busy r q t
next_eligible-Answers_example = next_eligible-Answers (pure is_even) busy tt (Built-Inv busy-Built)

remove_if_lem_example :
    let (count, q, _) = remove_if (pure is_even) busy tt in
    (count ≡ hits_of is_even busy busy.order)
    × ((o : String) → items_of q o ≡ keep is_even (items_of busy o))
remove_if_lem_example = remove_if_lem is_even busy tt (Built-Inv busy-Built)

serve_turn_example :
    let (rs, q) = serve (turn_left busy) busy in
    (rs ≡ somes (1 ∷ 2 ∷ []))
    × (q.order ≡ busy.order)
    × (q.cursor ≡ (busy.cursor + 1) % length busy.order)
    × (items_of q (owner_now busy) ≡ 3 ∷ [])
unfolding new_fair_queue enqueue lookup insert
serve_turn_example =
    serve_turn busy (1 ∷ 2 ∷ []) 3 [] (Built-Inv busy-Built) (omega arith) refl refl

contents-enqueue_example :
    hits is_even (contents (enqueue busy "c" 4 (pos 1))) ≡ hits is_even (4 ∷ contents busy)
contents-enqueue_example = contents-enqueue busy "c" 4 (pos 1) is_even (Built-Inv busy-Built)

next-Served_example : Served busy (next busy).0 (next busy).1
next-Served_example = next-Served busy (Built-Inv busy-Built)
