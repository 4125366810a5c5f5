-- ===== src/Broker/Scheduler/Frame.antt =====
-- Which fields the steps of the scheduler leave alone.
use rdev.Base.{◌-◌, ◌<◌, String, ◌≡◌, true, false, List, arith}
use rdev.Broker.Lane.{control, is_control, at}
use rdev.Broker.Scheduler.{
  Scheduler, ScheduledItem, HostSlots, Env, OwnerStats, count_of, update_stats,
}
use rdev.Broker.Scheduler.Eligible.{eligible, under_limits, host_gate, lane_gate, pool_gate}
use rdev.Broker.Scheduler.Tally.{Consistent, work_of}

module _ {P : Type 0} where
  abbrev pub SameCounters : Scheduler P → Scheduler P → Type 0
  SameCounters s u =
      (u.total ≡ s.total)
      × (u.lanes ≡ s.lanes)
      × (u.owners ≡ s.owners)
      × (u.hosts ≡ s.hosts)
      × (u.owner_lanes ≡ s.owner_lanes)

  abbrev pub SameWork : Scheduler P → Scheduler P → Type 0
  SameWork s u =
      (u.queues ≡ s.queues)
      × (u.running ≡ s.running)
      × (u.limits ≡ s.limits)
      × (u.closed ≡ s.closed)

  pub Consistent-same :
      (s u : Scheduler P) {qs rs : List ScheduledItem}
      → SameCounters s u
      → Consistent s qs rs
      → Consistent u qs rs
  Consistent-same s u {qs} {rs} e v = record {
    total = rw e.0 v.total;
    lanes = λ l. rw e.1 (v.lanes l);
    owners = λ o. rw e.2 (v.owners o);
    hosts = λ h. rw e.3 (v.hosts h);
    owner_lanes = λ o l. rw e.4 (v.owner_lanes o l);
  }

  pub update_stats_frame :
      (s : Scheduler P) (o : String) (f : OwnerStats → OwnerStats)
      → SameCounters s (update_stats s o f) × SameWork s (update_stats s o f)
  unfolding update_stats
  update_stats_frame s o f = ground arith

  abbrev pub Frame : Scheduler P → Scheduler P → Type 0
  Frame s u = SameCounters s u × SameWork s u

  pub frame_trans : (s u w : Scheduler P) → Frame s u → Frame u w → Frame s w
  frame_trans s u w e f = ground arith

  host_gate_frame : (s : Scheduler P) (x : ScheduledItem) → Frame s (host_gate s x).1
  unfolding host_gate
  host_gate_frame s x = ground arith

  pool_gate_frame :
      (slots : HostSlots P) (env : Env) (s : Scheduler P) (x : ScheduledItem)
      → Frame s (pool_gate slots env s x).1
  unfolding pool_gate
  pool_gate_frame slots env s x = ground arith

  -- A search for an eligible item changes the pool and the wait list alone.
  pub eligible_frame :
      (slots : HostSlots P) (env : Env) (s : Scheduler P) (x : ScheduledItem)
      → let u = (eligible slots env s x).1 in (SameCounters s u × SameWork s u)
  unfolding eligible
  eligible_frame slots env s x = ground (
    arith,
    host_gate_frame s x,
    pool_gate_frame slots env (host_gate s x).1 x,
    frame_trans s (host_gate s x).1 (pool_gate slots env (host_gate s x).1 x).1,
  )

  -- There is room for the item under every limit, the slots kept for control left out.
  pub record Room (s : Scheduler P) (x : ScheduledItem) : Type 0 where
    pub in_total : s.total.active < s.limits.max_active
    pub on_host : (count_of s.hosts x.host).active < s.limits.per_host
    pub of_owner : (count_of s.owners x.owner).active < s.limits.per_owner
    pub alone : is_control x.lane ≡ true → (at (work_of s x.owner) control).active ≡ 0
    pub reserve_total :
        is_control x.lane ≡ false → s.total.non_control_active < s.limits.max_active - 2
    pub reserve_host :
        is_control x.lane ≡ false
        → (count_of s.hosts x.host).non_control_active < s.limits.per_host - 2
    pub reserve_owner :
        is_control x.lane ≡ false
        → (count_of s.owners x.owner).non_control_active < s.limits.per_owner - 1

  pub Room-same :
      (s u : Scheduler P) (x : ScheduledItem)
      → SameCounters s u
      → u.limits ≡ s.limits
      → Room s x
      → Room u x
  Room-same s u x e l r = record {
    in_total = ground (arith, r.in_total);
    on_host = ground (arith, r.on_host);
    of_owner = ground (arith, r.of_owner);
    alone = λ c. ground (arith, r.alone c);
    reserve_total = λ c. ground (arith, r.reserve_total c);
    reserve_host = λ c. ground (arith, r.reserve_host c);
    reserve_owner = λ c. ground (arith, r.reserve_owner c);
  }

  gates_open :
      (slots : HostSlots P) (env : Env) (s : Scheduler P) (x : ScheduledItem)
      → (eligible slots env s x).0 ≡ true
      → (under_limits s x ≡ true) × (lane_gate (host_gate s x).1 x ≡ true)
  unfolding eligible
  gates_open slots env s x e = ground arith

  under_limits-Room :
      (s : Scheduler P) (x : ScheduledItem)
      → under_limits s x ≡ true
      → (s.total.active < s.limits.max_active)
        × ((count_of s.hosts x.host).active < s.limits.per_host)
        × ((count_of s.owners x.owner).active < s.limits.per_owner)
  unfolding under_limits
  under_limits-Room s x e = ground arith

  lane_gate-Room :
      (s : Scheduler P) (x : ScheduledItem)
      → lane_gate s x ≡ true
      → (is_control x.lane ≡ true → (at (work_of s x.owner) control).active ≡ 0)
        × (is_control x.lane ≡ false
            → (s.total.non_control_active < s.limits.max_active - 2)
              × ((count_of s.hosts x.host).non_control_active < s.limits.per_host - 2)
              × ((count_of s.owners x.owner).non_control_active < s.limits.per_owner - 1))
  unfolding lane_gate
  lane_gate-Room s x e = ground arith

  -- An item that `eligible` accepts has room under the limits in all, of its host and of its
  -- owner; a control item is its owner's only one, and any other leaves two slots free in all and
  -- on its host and one of its owner. The counters are those before the call.
  pub eligible-Room :
      (slots : HostSlots P) (env : Env) (s : Scheduler P) (x : ScheduledItem)
      → (eligible slots env s x).0 ≡ true
      → Room s x
  eligible-Room slots env s x e =
      let (under, gate) = gates_open slots env s x e in
      let (total, host, owner) = under_limits-Room s x under in
      let u = (host_gate s x).1 in
      let frame = host_gate_frame s x in
      let lane = lane_gate-Room u x gate in
      record {
        in_total = total;
        on_host = host;
        of_owner = owner;
        alone = λ c. ground (arith, lane.0 c);
        reserve_total = λ c. ground (arith, lane.1 c);
        reserve_host = λ c. ground (arith, lane.1 c);
        reserve_owner = λ c. ground (arith, lane.1 c);
      }
