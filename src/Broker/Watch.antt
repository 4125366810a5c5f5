-- ===== src/Broker/Watch.antt =====
-- internal/broker/watch.go: the hub that hands the last event of each job to its watchers. What
-- encoding/json does is a parameter; each method is one step under the mutex.
pub mod Sets
pub mod Invariant
pub mod Publishing
pub mod Histories
pub mod Tests
use rdev.Base.{
  ℕ, ◌+◌, ◌-◌, String, Bool, true, false, ◌||◌, Option, none, some, List, [], ◌∷◌, ◌++◌, ltb, leb,
  ◌==◌, if◌then◌else◌, length, is_nil, get_or, drop, Dict, lookup, insert, erase, or_else, is_some,
}

-- What the hub uses of encoding/json, and the bytes of a job's name.
pub record Wire (E : Type 0) : Type 0 where
  pub encode : E → Option (List ℕ)
  pub decode : List ℕ → Option E
  pub size : String → ℕ

-- A channel with the events that wait in its buffer, the oldest first.
pub record Channel (E : Type 0) : Type 0 where
  pub id : ℕ
  pub events : List E

-- `shut` logs the channels that were closed.
pub record WatchHub (E : Type 0) : Type 0 where
  pub watchers : Dict (List (Channel E))
  pub latest : Dict (List ℕ)
  pub order : List String
  pub subscribers : ℕ
  pub shut : List ℕ

unfoldable pub new_watch_hub : {E : Type 0} → WatchHub E
new_watch_hub = record { watchers = []; latest = []; order = []; subscribers = 0; shut = [] }

abbrev pub max_watch_keys : ℕ
max_watch_keys = 1024

abbrev pub max_watch_subscribers : ℕ
max_watch_subscribers = 512

abbrev pub max_watch_event_bytes : ℕ
max_watch_event_bytes = 65536

-- A channel's own buffer.
abbrev pub buffer : ℕ
buffer = 8

module _ {E : Type 0} where
  abbrev pub watchers_of : WatchHub E → String → List (Channel E)
  watchers_of h job = or_else [] (lookup job h.watchers)

  unfoldable pub has_channel : ℕ → List (Channel E) → Bool
  has_channel id [] = false
  has_channel id (c ∷ cs) = c.id == id || has_channel id cs

  unfoldable pub drop_channel : ℕ → List (Channel E) → List (Channel E)
  drop_channel id [] = []
  drop_channel id (c ∷ cs) = let rest = drop_channel id cs in if c.id == id then cs else c ∷ rest

  -- The function that `Subscribe` returns: its channel is in its set when it is called first.
  unfoldable pub unsubscribe : WatchHub E → String → ℕ → WatchHub E
  unsubscribe h job id =
      let set = drop_channel id (watchers_of h job) in
      if has_channel id (watchers_of h job)
      then record h {
        watchers = if is_nil set then erase job h.watchers else insert job set h.watchers;
        shut = id ∷ h.shut;
        subscribers = h.subscribers - 1;
      }
      else h

  -- A watcher that takes the oldest event of its channel.
  unfoldable pub take_event : ℕ → List (Channel E) → List (Channel E)
  take_event id [] = []
  take_event id (c ∷ cs) =
      let rest = take_event id cs in
      if c.id == id then record c { events = drop 1 c.events } ∷ cs else c ∷ rest

  abbrev pub receive : WatchHub E → String → ℕ → WatchHub E
  receive h job id = elim (lookup job h.watchers) [
    | none ↦ h
    | some set ↦ record h { watchers = insert job (take_event id set) h.watchers }
  ]

  -- The last event of each job, for `max_watch_keys` jobs at most.
  unfoldable pub remember : WatchHub E → String → List ℕ → WatchHub E
  remember h job bytes =
      let order = h.order ++ job ∷ [] in
      if is_some (lookup job h.latest)
      then record h { latest = insert job bytes h.latest }
      else if ltb max_watch_keys (length order)
      then record h {
        latest = insert job bytes (erase (get_or order 0 "") h.latest);
        order = drop 1 order;
      }
      else record h { latest = insert job bytes h.latest; order = order }

  -- `select { case ch <- copy: default: }` for each channel.
  unfoldable pub deliver : E → List (Channel E) → List (Channel E)
  deliver event [] = []
  deliver event (c ∷ cs) =
      (if ltb (length c.events) buffer then record c { events = c.events ++ event ∷ [] } else c)
      ∷ deliver event cs

  unfoldable pub deliver_to :
      Dict (List (Channel E))
      → String
      → Option E
      → Option (List (Channel E))
      → Dict (List (Channel E))
  deliver_to watchers job none set = watchers
  deliver_to watchers job (some event) none = watchers
  deliver_to watchers job (some event) (some set) = insert job (deliver event set) watchers

  unfoldable pub watching : WatchHub E → String → ℕ
  watching h job = length (watchers_of h job)

module _ {E : Type 0} (wire : Wire E) where
  -- The event that a new channel starts with.
  abbrev pub decoded : Option (List ℕ) → List E
  decoded none = []
  decoded (some bytes) = elim (wire.decode bytes) [ none ↦ [] | some event ↦ event ∷ [] ]

  unfoldable pub subscribe : WatchHub E → String → ℕ → WatchHub E
  subscribe h job id =
      let channel : Channel E = record { id = id; events = decoded (lookup job h.latest) } in
      if ltb 1024 (wire.size job) || leb max_watch_subscribers h.subscribers
      then record h { shut = id ∷ h.shut }
      else record h {
        subscribers = h.subscribers + 1;
        watchers = insert job (channel ∷ watchers_of h job) h.watchers;
      }

  unfoldable pub publish_data : WatchHub E → String → List ℕ → WatchHub E
  publish_data h job bytes =
      let h' = remember h job bytes in
      record h' {
        watchers = deliver_to h'.watchers job (wire.decode bytes) (lookup job h'.watchers);
      }

  unfoldable pub publish : WatchHub E → String → E → WatchHub E
  publish h job event = if ltb 1024 (wire.size job) then h else elim (wire.encode event) [
    | none ↦ h
    | some bytes ↦ if ltb max_watch_event_bytes (length bytes) then h else publish_data h job bytes
  ]
