-- ===== src/Broker/Scheduler.antt =====
-- internal/broker/scheduler.go: its data and its counters. What happens under the mutex is one
-- function; the time and the contexts of the callers come in by `Env`. Pointers to items are ids.
pub mod Eligible
pub mod Dispatch
pub mod Entry
pub mod Tally
pub mod Frame
pub mod Invariant
pub mod Schedule
pub mod Fuel
pub mod Pacing
pub mod Charges
pub mod Waiting
pub mod Meanwhile
pub mod Operations
pub mod Endings
pub mod Weights
pub mod Refusals
pub mod Closing
pub mod Abandon
pub mod Histories
pub mod Limits
pub mod Tests
use rdev.Base.{
  ℕ, ◌+◌, ◌-◌, String, Bool, true, false, not, ◌&&◌, ◌||◌, Option, none, some, List, [], ◌∷◌, ltb,
  leb, ◌==◌, same, if◌then◌else◌, Dict, lookup, insert, erase, or_else, length,
}
use rdev.Base.Int.{ℤ, pos, negsuc}
use rdev.Broker.Lane.{Lane, control, exec, bulk, is_control, Lanes, at, put, lanes_of}
use rdev.Broker.FairQueue.{FairQueue, new_fair_queue}

-- The limits of a configuration: a negative one is below each lower bound of `validate`.
pub record QosConfig : Type 0 where
  pub bulk_bytes_per_second : ℕ
  pub max_active : ℕ
  pub per_host : ℕ
  pub per_owner : ℕ
  pub max_queued : ℕ
  pub per_owner_queued : ℕ

abbrev or_default : ℕ → ℕ → ℕ
or_default n d = if n == 0 then d else n

unfoldable pub effective : QosConfig → QosConfig
effective c = record {
  bulk_bytes_per_second = or_default c.bulk_bytes_per_second 8388608;
  max_active = or_default c.max_active 12;
  per_host = or_default c.per_host 11;
  per_owner = or_default c.per_owner 4;
  max_queued = or_default c.max_queued 256;
  per_owner_queued = or_default c.per_owner_queued 32;
}

pub data ConfigError : Type 0 where
  bad_bulk_rate bad_qos_limits : ConfigError

-- `none` is the nil error.
unfoldable pub validate : QosConfig → Option ConfigError
unfolding effective
validate config =
    let c = effective config in
    if ltb c.bulk_bytes_per_second 1048576 || ltb 1073741824 c.bulk_bytes_per_second
    then some bad_bulk_rate
    else if ltb c.max_active 3
        || ltb 1024 c.max_active
        || ltb c.per_host 3
        || ltb c.max_active c.per_host
        || ltb c.per_owner 2
        || leb c.per_host c.per_owner
        || ltb c.max_queued 8
        || ltb 4096 c.max_queued
        || ltb c.per_owner_queued 2
        || leb c.max_queued c.per_owner_queued
    then some bad_qos_limits
    else none

pub record WorkCount : Type 0 where
  pub active : ℕ
  pub queued : ℕ

pub record SchedulerCount : Type 0 where
  pub active : ℕ
  pub queued : ℕ
  pub non_control_active : ℕ
  pub non_control_queued : ℕ

pub record ScheduledItem : Type 0 where
  pub id : ℕ
  pub owner : String
  pub host : String
  pub lane : Lane
  pub enqueued : ℕ

pub data Outcome : Type 0 where
  context_error closed_error returned : Outcome

pub record OwnerStats : Type 0 where
  pub bulk_bytes : ℕ
  pub started : ℕ
  pub rejected : ℕ
  pub canceled : ℕ
  pub wait : ℕ
  pub max_wait : ℕ

-- What the scheduler uses of its host pool. A nil pool grants every request and does nothing else.
pub record HostSlots (P : Type 0) : Type 0 where
  pub demand : P → String → ℤ → P
  pub try_acquire : P → String → Lane → ℕ → Bool × P
  pub release : P → String → Lane → ℕ → P

-- One reading of the clock, and the ids of the items whose caller's context is done.
pub record Env : Type 0 where
  pub now : ℕ
  pub context_done : ℕ → Bool

-- `sent` and `cancels` log what the scheduler sends on the items' result channels and which items
-- it has cancelled.
pub record Scheduler (P : Type 0) : Type 0 where
  pub pool : P
  pub bulk_ready : ℕ
  pub bulk_timer : Bool
  pub limits : QosConfig
  pub max_hosts : ℕ
  pub weights : Dict ℤ
  pub queues : Lanes (FairQueue ScheduledItem)
  pub lanes : Lanes SchedulerCount
  pub owners : Dict SchedulerCount
  pub hosts : Dict SchedulerCount
  pub host_wait : List String
  pub owner_lanes : Dict (Lanes WorkCount)
  pub total : SchedulerCount
  pub running : List ScheduledItem
  pub stats : Dict OwnerStats
  pub closed : Bool
  pub done : Bool
  pub sent : List (ℕ × Outcome)
  pub cancels : List ℕ

abbrev pub no_work : WorkCount
no_work = record { active = 0; queued = 0 }

abbrev pub no_count : SchedulerCount
no_count = record { active = 0; queued = 0; non_control_active = 0; non_control_queued = 0 }

abbrev pub no_stats : OwnerStats
no_stats = record {
  bulk_bytes = 0;
  started = 0;
  rejected = 0;
  canceled = 0;
  wait = 0;
  max_wait = 0;
}

abbrev pub count_of : Dict SchedulerCount → String → SchedulerCount
count_of m k = or_else no_count (lookup k m)

abbrev pub stats_of : Dict OwnerStats → String → OwnerStats
stats_of m k = or_else no_stats (lookup k m)

unfoldable pub lane_limit : Lane → ℕ
lane_limit control = 2
lane_limit exec = 8
lane_limit bulk = 1

unfoldable pub new_scheduler : {P : Type 0} → P → QosConfig → ℕ → Scheduler P
unfolding effective new_fair_queue
new_scheduler pool c max_hosts = record {
  pool = pool;
  bulk_ready = 0;
  bulk_timer = false;
  limits = effective c;
  max_hosts = max_hosts;
  weights = [];
  queues = lanes_of new_fair_queue;
  lanes = lanes_of no_count;
  owners = [];
  hosts = [];
  host_wait = [];
  owner_lanes = [];
  total = no_count;
  running = [];
  stats = [];
  closed = false;
  done = false;
  sent = [];
  cancels = [];
}

-- `c += delta` for an `int` delta. The counters count items (Scheduler/Tally), so none falls below 0.
abbrev pub add_delta : ℕ → ℤ → ℕ
add_delta n (pos k) = n + k
add_delta n (negsuc k) = n - (k + 1)

abbrev pub adjust_count : SchedulerCount → ScheduledItem → ℤ → ℤ → SchedulerCount
adjust_count c item active queued = record {
  active = add_delta c.active active;
  queued = add_delta c.queued queued;
  non_control_active =
      if is_control item.lane then c.non_control_active else add_delta c.non_control_active active;
  non_control_queued =
      if is_control item.lane then c.non_control_queued else add_delta c.non_control_queued queued;
}

-- Take the first occurrence of a host out of the wait list.
unfoldable pub remove_host : String → List String → List String
remove_host host [] = []
remove_host host (h ∷ hs) = if same h host then hs else h ∷ remove_host host hs

-- `delete(m, k)` when nothing is counted there any more.
abbrev pub settle : {V : Type 0} → String → SchedulerCount → Dict V → Dict V
settle k c m = if c.active + c.queued == 0 then erase k m else m

abbrev is_zero_delta : ℤ → Bool
is_zero_delta (pos n) = n == 0
is_zero_delta (negsuc n) = false

unfoldable pub change :
    {P : Type 0} → HostSlots P → Scheduler P → ScheduledItem → ℤ → ℤ → Scheduler P
unfolding remove_host
change slots s item active queued =
    let owner' = adjust_count (count_of s.owners item.owner) item active queued in
    let host' = adjust_count (count_of s.hosts item.host) item active queued in
    let work = at (or_else (lanes_of no_work) (lookup item.owner s.owner_lanes)) item.lane in
    let work' : WorkCount = record {
      active = add_delta work.active active;
      queued = add_delta work.queued queued;
    } in
    let owner_lanes' =
      insert item.owner
        (put (or_else (lanes_of no_work) (lookup item.owner s.owner_lanes)) item.lane work')
        s.owner_lanes in
    record s {
      pool = if is_zero_delta queued then s.pool else slots.demand s.pool item.host queued;
      total = adjust_count s.total item active queued;
      lanes = put s.lanes item.lane (adjust_count (at s.lanes item.lane) item active queued);
      owners = settle item.owner owner' (insert item.owner owner' s.owners);
      hosts = settle item.host host' (insert item.host host' s.hosts);
      host_wait = if host'.queued == 0 then remove_host item.host s.host_wait else s.host_wait;
      owner_lanes = settle item.owner owner' owner_lanes';
    }

-- `statLocked`: when the history is full, only owners with work keep their statistics.
unfoldable pub purge : Dict SchedulerCount → Dict OwnerStats → Dict OwnerStats
purge owners [] = []
purge owners ((k, st) ∷ m) =
    let rest = purge owners m in
    let c = count_of owners k in if c.active + c.queued == 0 then rest else (k, st) ∷ rest

unfoldable pub stat_locked : {P : Type 0} → Scheduler P → Scheduler P
unfolding purge
stat_locked s = if leb 1024 (length s.stats) then record s { stats = purge s.owners s.stats } else s

-- `st := s.statLocked(owner); …; s.stats[owner] = st`.
unfoldable pub update_stats :
    {P : Type 0} → Scheduler P → String → (OwnerStats → OwnerStats) → Scheduler P
unfolding stat_locked
update_stats s owner f =
    let s' = stat_locked s in
    record s' { stats = insert owner (f (stats_of s'.stats owner)) s'.stats }
