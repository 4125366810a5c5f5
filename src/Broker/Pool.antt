-- ===== src/Broker/Pool.antt =====
-- internal/broker/pool.go: the host pool, and what its methods share under the mutex. A slot is its
-- host's entry: one that is in use leaves the entries only after `Close`, and then no slot is opened.
pub mod Entry
pub mod Keys
pub mod Invariant
pub mod Retiring
pub mod Pumping
pub mod Steps
pub mod Sweeps
pub mod Leases
pub mod Bound
pub mod Growing
pub mod Histories
pub mod Closed
pub mod Tests
use rdev.Base.{
  ℕ, zero, suc, ◌+◌, ◌-◌, ◌/◌, String, Bool, true, false, not, ◌&&◌, ◌||◌, Option, none, some, List,
  [], ◌∷◌, ◌++◌, ltb, leb, ◌==◌, if◌then◌else◌, length, Dict, lookup, insert, or_else,
}
use rdev.Broker.Lane.{Lane, is_control}
use rdev.Broker.Scheduler.{Env}

-- The zero time is `none`.
pub record HostSlot : Type 0 where
  pub controls : ℕ
  pub bulk_closing : Bool
  pub cleaned : Bool
  pub host : String
  pub active : ℕ
  pub closing : Bool
  pub born : ℕ
  pub idle : Option ℕ

pub record HostWaiter : Type 0 where
  pub id : ℕ
  pub lane : Lane
  pub host : String

-- What closes a waiter's `done`.
pub data Grant : Type 0 where
  slot_granted wait_canceled pool_closed : Grant

pub record EvictionStat : Type 0 where
  pub count : ℕ
  pub last_idle_ms : ℕ
  pub last_lifetime_ms : ℕ
  pub last_drain_ms : ℕ

-- `wake` is the buffered notification, and `changed` counts the channels that were closed.
-- `leases` are the release functions that are out, `answers` logs what ended each waiter, and
-- `detached` the hosts whose transport was detached.
pub record HostPool : Type 0 where
  pub wake : Bool
  pub demand : Dict ℕ
  pub blocked_cold : Dict Bool
  pub limit : ℕ
  pub entries : Dict HostSlot
  pub queue : List HostWaiter
  pub changed : ℕ
  pub closed : Bool
  pub evictions : Dict EvictionStat
  pub leases : List (String × Lane)
  pub answers : List (ℕ × Grant)
  pub detached : List String

unfoldable pub new_host_pool : ℕ → HostPool
new_host_pool limit = record {
  wake = false;
  demand = [];
  blocked_cold = [];
  limit = limit;
  entries = [];
  queue = [];
  changed = 0;
  closed = false;
  evictions = [];
  leases = [];
  answers = [];
  detached = [];
}

unfoldable pub notify : HostPool → HostPool
notify p = record p { wake = true; changed = p.changed + 1 }

abbrev pub no_eviction : EvictionStat
no_eviction = record { count = 0; last_idle_ms = 0; last_lifetime_ms = 0; last_drain_ms = 0 }

-- `now.Sub(t).Milliseconds()`, not below 0; `LastIdleMS` is 0 where the slot was not idle.
abbrev pub elapsed_ms : ℕ → ℕ → ℕ
elapsed_ms now t = (now - t) / 1000000

abbrev pub idle_ms : ℕ → Option ℕ → ℕ
idle_ms now none = 0
idle_ms now (some t) = elapsed_ms now t

abbrev pub new_slot : String → ℕ → HostSlot
new_slot host now = record {
  controls = 0;
  bulk_closing = false;
  cleaned = false;
  host = host;
  active = 0;
  closing = false;
  born = now;
  idle = none;
}

-- One lease more on a slot.
abbrev pub busier : HostSlot → Lane → HostSlot
busier slot lane = record slot {
  active = slot.active + 1;
  controls = if is_control lane then slot.controls + 1 else slot.controls;
  idle = none;
}

abbrev pub lend : HostPool → HostSlot → Lane → HostPool
lend p slot lane = record p {
  entries = insert slot.host (busier slot lane) p.entries;
  leases = (slot.host, lane) ∷ p.leases;
}

-- `grantLocked`
unfoldable pub grant : HostPool → HostWaiter → HostSlot → HostPool
grant p w slot =
    let p' = lend p slot w.lane in record p' { answers = (w.id, slot_granted) ∷ p'.answers }

-- `retireLocked` up to its goroutine, for a slot of the entries.
unfoldable pub retire : HostPool → HostSlot → String → ℕ → HostPool
retire p slot reason now =
    let stat = or_else no_eviction (lookup reason p.evictions) in
    let stat' : EvictionStat = record {
      count = stat.count + 1;
      last_idle_ms = idle_ms now slot.idle;
      last_lifetime_ms = elapsed_ms now slot.born;
      last_drain_ms = stat.last_drain_ms;
    } in
    if slot.closing then p else record p {
      entries = insert slot.host (record slot { closing = true }) p.entries;
      evictions = insert reason stat' p.evictions;
      detached = slot.host ∷ p.detached;
    }

-- `time.Time.Before`
abbrev pub before : Option ℕ → Option ℕ → Bool
before a none = false
before none (some t) = true
before (some s) (some t) = ltb s t

abbrev pub is_idle : HostSlot → Bool
is_idle slot = not slot.closing && not slot.bulk_closing && slot.active == 0

-- The loop of `oldestIdleLocked`, behind the slot that it has found so far.
abbrev pub older : Option HostSlot → HostSlot → Option HostSlot
older none slot = if is_idle slot then some slot else none
older (some oldest) slot =
    if is_idle slot && before slot.idle oldest.idle then some slot else some oldest

unfoldable pub oldest_idle : Option HostSlot → Dict HostSlot → Option HostSlot
oldest_idle oldest [] = oldest
oldest_idle oldest ((_, slot) ∷ entries) = oldest_idle (older oldest slot) entries

unfoldable pub live_slots : Dict HostSlot → ℕ
live_slots [] = 0
live_slots ((_, slot) ∷ entries) =
    let rest = live_slots entries in if slot.closing then rest else rest + 1

-- `if oldest := p.oldestIdleLocked(); oldest != nil { p.retireLocked(oldest, reason, now) }`
abbrev pub retire_found : HostPool → String → ℕ → Option HostSlot → HostPool
retire_found p reason now none = p
retire_found p reason now (some slot) = retire p slot reason now

unfoldable pub retire_oldest : HostPool → String → ℕ → HostPool
retire_oldest p reason now = retire_found p reason now (oldest_idle none p.entries)

-- The loop of `trimLocked`: `live` falls by one in each round.
unfoldable pub trim_rounds : ℕ → HostPool → ℕ → HostPool
trim_rounds zero p now = p
trim_rounds (suc live) p now =
    let more = trim_rounds live (retire_oldest p "capacity_reload" now) now in
    if ltb p.limit (suc live)
    then elim (oldest_idle none p.entries) [ none ↦ p | some slot ↦ more ]
    else p

unfoldable pub trim : HostPool → ℕ → HostPool
trim p now = trim_rounds (live_slots p.entries) p now

module _ (env : Env) where
  -- The round of `pumpLocked` for the first waiter `w`: it stops with the queue as it is, or goes on.
  unfoldable pub pump_waiter :
      (HostPool → HostPool) → HostPool → HostWaiter → Option HostSlot → HostPool
  pump_waiter next p w (some slot) =
      if slot.closing || ltb p.limit (length p.entries) then p else next (grant p w slot)
  pump_waiter next p w none =
      if ltb p.limit (length p.entries)
      then p
      else if leb p.limit (length p.entries)
      then retire_oldest p "capacity_lru" env.now
      else next (grant p w (new_slot w.host env.now))

  unfoldable pub pump_queue : List HostWaiter → HostPool → HostPool
  pump_queue [] p = record p { queue = [] }
  pump_queue (w ∷ ws) p =
      let rest = λ (p' : HostPool). pump_queue ws p' in
      if env.context_done w.id
      then rest (record p { answers = (w.id, wait_canceled) ∷ p.answers })
      else pump_waiter rest (record p { queue = w ∷ ws }) w (lookup w.host p.entries)

  -- `pumpLocked`
  unfoldable pub pump : HostPool → HostPool
  pump p = if p.closed then p else pump_queue p.queue (trim p env.now)
