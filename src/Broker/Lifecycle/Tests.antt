-- ===== src/Broker/Lifecycle/Tests.antt =====
-- An owner's disconnection.
use rdev.Base.{ℕ, ◌+◌, String, ◌≡◌, none, [], ◌∷◌, if◌then◌else◌, lookup, contains}
use rdev.Broker.Lifecycle.{RequestRegistry, new_request_registry, add, cancel_owner}
use rdev.Broker.Lifecycle.Cancellation.{calls, held, cancel_owner_lem}

abbrev three_requests : RequestRegistry
three_requests = (add (add (add new_request_registry "r1" 1).1 "r2" 2).1 "r3" 3).1

cancel_owner_lem_example :
    let r = cancel_owner three_requests ("r1" ∷ "r3" ∷ "r1" ∷ []) in
    ((j : String)
      → lookup j r.requests
        ≡ (if contains j ("r1" ∷ "r3" ∷ "r1" ∷ []) then none else lookup j three_requests.requests))
    × ((c : ℕ)
        → calls c r.canceled
          ≡ held c three_requests.requests ("r1" ∷ "r3" ∷ "r1" ∷ [])
            + calls c three_requests.canceled)
cancel_owner_lem_example = cancel_owner_lem three_requests ("r1" ∷ "r3" ∷ "r1" ∷ [])
