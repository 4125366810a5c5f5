-- ===== src/Broker/Pool/Entry.antt =====
-- The methods of internal/broker/pool.go, each while it holds the mutex.
use rdev.Base.{
  sum_by, ℕ, ◌+◌, ◌-◌, String, Bool, true, false, not, ◌&&◌, ◌||◌, Option, none, some, List, [],
  ◌∷◌, ◌++◌, ltb, leb, ◌==◌, same, if◌then◌else◌, length, Dict, lookup, insert, erase, or_else,
  is_some,
}
use rdev.Base.Int.{ℤ}
use rdev.Broker.Lane.{Lane, is_control, same_lane}
use rdev.Broker.Scheduler.{Env, add_delta}
use rdev.Broker.Pool.{
  HostPool, HostSlot, HostWaiter, Grant, wait_canceled, pool_closed, EvictionStat, no_eviction,
  new_slot, lend, grant, notify, retire, retire_oldest, trim, pump,
}

-- What `Acquire` returns at once, or that it waits for its waiter's `done`.
pub data Acquired : Type 0 where
  acquire_canceled acquire_closed acquire_full acquire_waits : Acquired

-- One lease of a host and a lane, taken off those that are out.
unfoldable pub take_lease : String → Lane → List (String × Lane) → List (String × Lane)
take_lease host lane [] = []
take_lease host lane ((h, l) ∷ ls) =
    let rest = take_lease host lane ls in
    if same h host && same_lane l lane then ls else (h, l) ∷ rest

abbrev pub quieter : HostSlot → Lane → ℕ → HostSlot
quieter slot lane now = record slot {
  active = slot.active - 1;
  controls = if is_control lane then slot.controls - 1 else slot.controls;
  idle = if slot.active - 1 == 0 then some now else slot.idle;
}

-- A slot that has left the entries is not looked at again.
abbrev pub give_back : HostPool → String → Lane → ℕ → Option HostSlot → HostPool
give_back p host lane now none = p
give_back p host lane now (some slot) = record p {
  entries = insert host (quieter slot lane now) p.entries;
}

unfoldable pub without : ℕ → List HostWaiter → List HostWaiter
without id [] = []
without id (w ∷ ws) = let rest = without id ws in if w.id == id then ws else w ∷ rest

unfoldable pub is_queued : ℕ → List HostWaiter → Bool
is_queued id [] = false
is_queued id (w ∷ ws) = w.id == id || is_queued id ws

-- Whether every cold host that was refused has an entry by now.
unfoldable pub none_blocked : Dict Bool → Dict HostSlot → Bool
none_blocked [] entries = true
none_blocked ((cold, _) ∷ colds) entries =
    is_some (lookup cold entries) && none_blocked colds entries

-- `now.Sub(slot.idle) >= ttl`, which the zero time meets.
abbrev pub idle_for : Option ℕ → ℕ → ℕ → Bool
idle_for none ttl now = true
idle_for (some t) ttl now = leb (t + ttl) now

-- The loop of `Reap`; its slots do not change each other.
unfoldable pub reap_entries : Dict HostSlot → HostPool → ℕ → ℕ → String → ℕ × HostPool
reap_entries [] p now ttl reason = (0, p)
reap_entries ((_, slot) ∷ slots) p now ttl reason =
    let due =
      not slot.closing && not slot.bulk_closing && slot.active == 0 && idle_for slot.idle ttl now in
    let (n, p') = reap_entries slots (if due then retire p slot reason now else p) now ttl reason in
    (if due then n + 1 else n, p')

unfoldable pub reap_hosts : HostPool → ℕ → ℕ → String → ℕ × HostPool
reap_hosts p now ttl reason = reap_entries p.entries p now ttl reason

-- `detach` says for which hosts there is a cleanup.
unfoldable pub reap_bulk_entries : Dict HostSlot → HostPool → (String → Bool) → ℕ × HostPool
reap_bulk_entries [] p detach = (0, p)
reap_bulk_entries ((_, slot) ∷ slots) p detach =
    let due = not (slot.closing || slot.bulk_closing) && detach slot.host in
    let p' =
      if due
      then record p { entries = insert slot.host (record slot { bulk_closing = true }) p.entries }
      else p in
    let (n, p'') = reap_bulk_entries slots p' detach in (if due then n + 1 else n, p'')

unfoldable pub reap_bulk : HostPool → (String → Bool) → ℕ × HostPool
reap_bulk p detach = reap_bulk_entries p.entries p detach

unfoldable pub retire_all : Dict HostSlot → HostPool → ℕ → HostPool
retire_all [] p now = p
retire_all ((_, slot) ∷ slots) p now = retire_all slots (retire p slot "shutdown" now) now

unfoldable pub refuse_waiters : List HostWaiter → List (ℕ × Grant) → List (ℕ × Grant)
refuse_waiters [] answers = answers
refuse_waiters (w ∷ ws) answers = refuse_waiters ws ((w.id, pool_closed) ∷ answers)

-- `Close` up to its wait for the closers.
unfoldable pub close_pool : HostPool → ℕ → HostPool
close_pool p now =
    retire_all p.entries
      (record p { closed = true; queue = []; answers = refuse_waiters p.queue p.answers }) now

unfoldable pub demand_host : HostPool → String → ℤ → HostPool
demand_host p host delta =
    let n = add_delta (or_else 0 (lookup host p.demand)) delta in
    if n == 0
    then record p { demand = erase host p.demand; blocked_cold = erase host p.blocked_cold }
    else record p { demand = insert host n p.demand }

-- A full pool that has refused a cold host lends a warm slot to one control request at a time, and
-- only while other work keeps the slot busy.
abbrev pub yields_to_cold : HostPool → HostSlot → Lane → Bool
yields_to_cold p slot lane =
    leb p.limit (length p.entries)
    && not (none_blocked p.blocked_cold p.entries)
    && (not (is_control lane) || slot.active == 0 || ltb 0 slot.controls)

-- `TryAcquire` behind its look at the entry.
unfoldable pub try_slot : HostPool → String → Lane → ℕ → Option HostSlot → Bool × HostPool
try_slot p host lane now none =
    if leb p.limit (length p.entries)
    then (
      false,
      retire_oldest (record p { blocked_cold = insert host true p.blocked_cold }) "capacity_lru"
          now,
    )
    else (
      true,
      lend (record p { blocked_cold = erase host p.blocked_cold }) (new_slot host now) lane,
    )
try_slot p host lane now (some slot) =
    if slot.closing
    then (false, p)
    else if not (is_control lane) && ltb p.limit (length p.entries)
    then (false, p)
    else if yields_to_cold p slot lane
    then (false, p)
    else (true, lend p slot lane)

unfoldable pub try_acquire_host : HostPool → String → Lane → ℕ → Bool × HostPool
try_acquire_host p host lane now =
    let p' = trim p now in
    if p.closed then (false, p) else try_slot p' host lane now (lookup host p'.entries)

abbrev pub cleaned_entries : Dict HostSlot → String → Option HostSlot → Dict HostSlot
cleaned_entries entries host none = entries
cleaned_entries entries host (some slot) =
    if slot.bulk_closing
    then insert host (record slot { cleaned = true }) entries
    else erase host entries

abbrev pub bulk_cleaned_entries : Dict HostSlot → String → Option HostSlot → Dict HostSlot
bulk_cleaned_entries entries host none = entries
bulk_cleaned_entries entries host (some slot) =
    if slot.cleaned
    then erase host entries
    else insert host (record slot { bulk_closing = false }) entries

module _ (env : Env) where
  abbrev pub enqueue_waiter : HostPool → HostWaiter → Acquired × HostPool
  enqueue_waiter p w =
      if leb 1024 (length p.queue)
      then (acquire_full, p)
      else (acquire_waits, pump env (record p { queue = p.queue ++ w ∷ [] }))

  -- `Acquire` up to its `select`.
  abbrev pub acquire_open : HostPool → HostWaiter → Option HostSlot → Acquired × HostPool
  acquire_open p w none = enqueue_waiter p w
  acquire_open p w (some slot) =
      if is_control w.lane && not slot.closing
      then (acquire_waits, grant p w slot)
      else enqueue_waiter p w

  unfoldable pub acquire : HostPool → HostWaiter → Acquired × HostPool
  acquire p w =
      if env.context_done w.id
      then (acquire_canceled, p)
      else if p.closed
      then (acquire_closed, p)
      else acquire_open p w (lookup w.host p.entries)

  -- `case <-ctx.Done()` of `Acquire`: a waiter without a slot and an error is one in the queue.
  unfoldable pub give_up : HostPool → HostWaiter → HostPool
  give_up p w =
      if is_queued w.id p.queue
      then pump env
          (record p { queue = without w.id p.queue; answers = (w.id, wait_canceled) ∷ p.answers })
      else p

  -- The release function of a lease.
  unfoldable pub release_host : HostPool → String → Lane → HostPool
  release_host p host lane = notify (
      pump env (
        give_back (record p { leases = take_lease host lane p.leases }) host lane env.now
          (lookup host p.entries)))

  unfoldable pub configure_pool : HostPool → ℕ → HostPool
  configure_pool p limit = notify (pump env (record p { limit = limit }))

  -- The goroutine of `retireLocked` behind its cleanup.
  unfoldable pub base_cleaned : HostPool → String → String → ℕ → HostPool
  base_cleaned p host reason drain_ms =
      let stat = or_else no_eviction (lookup reason p.evictions) in
      notify (
        pump env (record p {
          entries = cleaned_entries p.entries host (lookup host p.entries);
          evictions = insert reason (record stat { last_drain_ms = drain_ms }) p.evictions;
        }))

  -- The goroutine of `ReapBulk` behind its cleanup.
  unfoldable pub bulk_cleaned : HostPool → String → HostPool
  bulk_cleaned p host = notify (
      pump env (record p { entries = bulk_cleaned_entries p.entries host (lookup host p.entries) }))

-- The part of `PoolHealth` that the pool itself fills in.
pub record PoolHealth : Type 0 where
  pub limit : ℕ
  pub reserved_hosts : ℕ
  pub active_hosts : ℕ
  pub active_leases : ℕ
  pub closing_hosts : ℕ
  pub closing_bulk : ℕ
  pub queued : ℕ
  pub evictions : Dict EvictionStat

unfoldable pub pool_snapshot : HostPool → PoolHealth
unfolding sum_by
pool_snapshot p = record {
  limit = p.limit;
  reserved_hosts = length p.entries;
  active_hosts = sum_by (λ slot. if ltb 0 slot.active then 1 else 0) p.entries;
  active_leases = sum_by (λ slot. slot.active) p.entries;
  closing_hosts = sum_by (λ slot. if slot.closing then 1 else 0) p.entries;
  closing_bulk = sum_by (λ slot. if slot.bulk_closing then 1 else 0) p.entries;
  queued = length p.queue + sum_by (λ n. n) p.demand;
  evictions = p.evictions;
}
