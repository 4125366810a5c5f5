-- ===== src/Broker/Watch/Tests.antt =====
-- The watch hub at numbers for events.
use rdev.Base.{ℕ, ◌≡◌, refl, String, Option, none, some, List, [], ◌∷◌, arith}
use rdev.Broker.Watch.{Wire, WatchHub, new_watch_hub, watchers_of, deliver, subscribe, publish}
use rdev.Broker.Watch.Invariant.{HubInv}
use rdev.Broker.Watch.Histories.{
  HubReached, opened, subscribes, publishes, HubReached-HubInv, subscribe-publish,
}

abbrev first_byte : List ℕ → Option ℕ
first_byte [] = none
first_byte (x ∷ xs) = some x

abbrev numbers : Wire ℕ
numbers = record { encode = λ n. some (n ∷ []); decode = first_byte; size = λ job. 4 }

abbrev task : String
task = "task"

abbrev watched : WatchHub ℕ
watched = publish numbers (subscribe numbers new_watch_hub task 1) task 7

watched-Reached : HubReached numbers watched
watched-Reached = publishes task 7 (subscribes task 1 opened)

HubReached-HubInv_example : HubInv watched
HubReached-HubInv_example = HubReached-HubInv numbers watched watched-Reached

subscribe-publish_example :
    watchers_of (subscribe numbers (publish numbers new_watch_hub task 7) task 1) task
    ≡ record { id = 1; events = 7 ∷ [] } ∷ deliver 7 (watchers_of new_watch_hub task)
unfolding new_watch_hub
subscribe-publish_example =
    subscribe-publish numbers new_watch_hub task 1 7 7 (7 ∷ []) (omega arith) (omega arith) refl
      (omega arith) refl
