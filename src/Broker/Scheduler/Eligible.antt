-- ===== src/Broker/Scheduler/Eligible.antt =====
-- `eligibleLocked` of internal/broker/scheduler.go. It has effects: it puts a waiting host on the
-- wait list or takes the admitted one off, and it reserves a slot in the host pool.
use rdev.Base.{
  ℕ, ◌+◌, ◌-◌, String, Bool, true, false, not, ◌&&◌, ◌||◌, List, [], ◌∷◌, ◌++◌, ltb, leb, ◌==◌,
  same, if◌then◌else◌, Dict, lookup, or_else, contains, is_nil,
}
use mathlib.Core.List.{tail}
use rdev.Broker.Lane.{control, is_control, at, lanes_of}
use rdev.Broker.Scheduler.{
  Scheduler, SchedulerCount, ScheduledItem, HostSlots, Env, count_of, no_work,
}

-- How many hosts run something.
unfoldable pub active_hosts : Dict SchedulerCount → ℕ
active_hosts [] = 0
active_hosts ((_, c) ∷ m) = let rest = active_hosts m in if ltb 0 c.active then rest + 1 else rest

abbrev pub first_is : String → List String → Bool
first_is host [] = false
first_is host (h ∷ hs) = same h host

module _ {P : Type 0} where
  -- The three limits that every item needs room under.
  unfoldable pub under_limits : Scheduler P → ScheduledItem → Bool
  under_limits s item = not (
      leb s.limits.max_active s.total.active
      || leb s.limits.per_host (count_of s.hosts item.host).active
      || leb s.limits.per_owner (count_of s.owners item.owner).active)

  -- The host's gate: a host that runs nothing waits behind `max_hosts` and the hosts that wait
  -- already; while any host waits, a running host gets one control item at a time.
  unfoldable pub host_gate : Scheduler P → ScheduledItem → Bool × Scheduler P
  host_gate s item =
      let host = count_of s.hosts item.host in
      let full = leb s.max_hosts (active_hosts s.hosts) in
      let s' =
        if (full || not (is_nil s.host_wait)) && not (contains item.host s.host_wait)
        then record s { host_wait = s.host_wait ++ item.host ∷ [] }
        else s in
      if host.active == 0
      then (not (full || (not (is_nil s'.host_wait) && not (first_is item.host s'.host_wait))), s')
      else if not (is_nil s.host_wait)
      then (is_control item.lane && not (ltb host.non_control_active host.active), s)
      else (true, s)

  -- The lane's gate keeps two slots of the scheduler and of each host, and one of each owner, for
  -- control.
  unfoldable pub lane_gate : Scheduler P → ScheduledItem → Bool
  lane_gate s item =
      if is_control item.lane
      then not
          (leb 1 (at (or_else (lanes_of no_work) (lookup item.owner s.owner_lanes)) control).active)
      else ltb s.total.non_control_active (s.limits.max_active - 2)
        && ltb (count_of s.hosts item.host).non_control_active (s.limits.per_host - 2)
        && ltb (count_of s.owners item.owner).non_control_active (s.limits.per_owner - 1)

  -- The pool's answer; an admitted host leaves the front of the wait list.
  unfoldable pub pool_gate : HostSlots P → Env → Scheduler P → ScheduledItem → Bool × Scheduler P
  pool_gate slots env s item =
      let (granted, pool') = slots.try_acquire s.pool item.host item.lane env.now in
      let s' = record s { pool = pool' } in
      if not granted
      then (false, s')
      else if (count_of s.hosts item.host).active == 0 && first_is item.host s.host_wait
      then (true, record s' { host_wait = tail s.host_wait })
      else (true, s')

  unfoldable pub eligible : HostSlots P → Env → Scheduler P → ScheduledItem → Bool × Scheduler P
  eligible slots env s item =
      let (passed, s') = host_gate s item in
      if not (under_limits s item)
      then (false, s)
      else if not passed
      then (false, s')
      else if not (lane_gate s' item)
      then (false, s')
      else pool_gate slots env s' item
