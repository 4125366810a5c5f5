-- ===== src/Broker/Lifecycle.antt =====
-- internal/broker/lifecycle.go: the requests that can be cancelled, by id. A cancel function is a
-- number of its own, and `canceled` logs the calls of them, the last one first.
pub mod Cancellation
pub mod Tests
use rdev.Base.{
  ℕ, String, Bool, true, false, Option, none, some, List, [], ◌∷◌, same, if◌then◌else◌, Dict,
  lookup, insert, erase, is_some,
}

pub record RequestRegistry : Type 0 where
  pub requests : Dict ℕ
  pub canceled : List ℕ

unfoldable pub new_request_registry : RequestRegistry
new_request_registry = record { requests = []; canceled = [] }

-- Whether the id was added. The context of an id that is taken is cancelled; an empty id makes none.
unfoldable pub add : RequestRegistry → String → ℕ → Bool × RequestRegistry
add r id cancel =
    if same id ""
    then (false, r)
    else if is_some (lookup id r.requests)
    then (false, record r { canceled = cancel ∷ r.canceled })
    else (true, record r { requests = insert id cancel r.requests })

abbrev call_found : RequestRegistry → String → Option ℕ → RequestRegistry
call_found r id none = r
call_found r id (some cancel) = record {
  requests = erase id r.requests;
  canceled = cancel ∷ r.canceled;
}

unfoldable pub remove : RequestRegistry → String → RequestRegistry
remove r id = call_found r id (lookup id r.requests)

unfoldable pub cancel_owner : RequestRegistry → List String → RequestRegistry
unfolding remove
cancel_owner r [] = r
cancel_owner r (id ∷ ids) = cancel_owner (remove r id) ids
