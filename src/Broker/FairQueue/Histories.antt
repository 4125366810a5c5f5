-- ===== src/Broker/FairQueue/Histories.antt =====
-- The queues that the methods of `FairQueue` make, in any order of calls.
use rdev.Base.{String, Bool}
use rdev.Base.Int.{ℤ}
use rdev.Broker.FairQueue.{
  FairQueue, new_fair_queue, enqueue, set_weights, next_eligible, remove_if,
}
use rdev.Broker.FairQueue.Invariant.{
  Inv, new_fair_queue-Inv, enqueue-Inv, set_weights-Inv, next_eligible-Inv, remove_if-Inv,
}

module _ {A : Type 0} where
  -- A predicate may have effects on a state `S`.
  pub data Built : FairQueue A → Type 1 where
    fresh : Built new_fair_queue
    enqueued :
        {q : FairQueue A} (owner : String) (x : A) (w : ℤ) → Built q → Built (enqueue q owner x w)
    reweighed : {q : FairQueue A} (weights : String → ℤ) → Built q → Built (set_weights q weights)
    searched :
        {q : FairQueue A} {S : Type 0} (f : S → A → Bool × S) (s : S)
        → Built q
        → Built (next_eligible f q s).1
    swept :
        {q : FairQueue A} {S : Type 0} (f : S → A → Bool × S) (s : S)
        → Built q
        → Built (remove_if f q s).1

  -- Every queue that `new_fair_queue`, `enqueue`, `set_weights`, `next_eligible` and `remove_if`
  -- make, in any order and with predicates that have effects, is well formed.
  pub Built-Inv : {q : FairQueue A} → Built q → Inv q
  Built-Inv fresh = new_fair_queue-Inv
  Built-Inv (enqueued {q} owner x w b) = enqueue-Inv q owner x w (Built-Inv b)
  Built-Inv (reweighed {q} weights b) = set_weights-Inv q weights (Built-Inv b)
  Built-Inv (searched {q} f s b) = next_eligible-Inv f q s (Built-Inv b)
  Built-Inv (swept {q} f s b) = remove_if-Inv f q s (Built-Inv b)
