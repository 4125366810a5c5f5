-- ===== src/Broker/Scheduler/Entry.antt =====
-- The entry points of internal/broker/scheduler.go: what each does while it holds the mutex.
use rdev.Base.{
  ℕ, ◌+◌, ◌-◌, ◌*◌, ◌/◌, ◌%◌, max, String, Bool, true, false, not, ◌&&◌, ◌||◌, Option, none, some,
  ◌∷◌, ◌++◌, ltb, leb, ◌==◌, same, if◌then◌else◌, Dict, lookup, insert, or_else, is_nil,
}
use rdev.Base.Int.{ℤ, pos, negsuc, ltb_ℤ}
use rdev.Broker.Lane.{Lane, control, exec, bulk, is_control, Lanes, at, put, same_lane}
use rdev.Broker.FairQueue.{enqueue, set_weights, remove_if}
use rdev.Broker.Scheduler.{
  Scheduler, ScheduledItem, HostSlots, Env, QosConfig, closed_error, returned, OwnerStats,
  WorkCount, effective, count_of, stats_of, change, update_stats,
}
use rdev.Broker.Scheduler.Dispatch.{schedule, remove_item, ids}

pub data Admission : Type 0 where
  invalid context_failed scheduler_closed queue_full admitted : Admission

-- What a finished call leaves for the accounting of bulk payload: whether there is a response,
-- what the transport observed, and the sizes that the response itself states.
pub record Reply : Type 0 where
  pub has_response : Bool
  pub observed : Option ℕ
  pub read_bytes : Option ℕ
  pub cat_bytes : Option ℕ

abbrev pub is_observed : Option ℕ → Bool
is_observed none = false
is_observed (some _) = true

-- The payload that is charged, and whether anything is.
unfoldable pub payload_of : Reply → ℕ
payload_of r =
    if is_observed r.observed
    then or_else 0 r.observed
    else or_else 0 r.read_bytes + or_else 0 r.cat_bytes

-- `started.Add(time.Duration(payload) * time.Second / time.Duration(rate))`. The product is one of
-- 64 bits with a sign and wraps round; the quotient of a negative one goes towards zero. A time
-- before all readings of the clock is 0.
unfoldable pub ready_time : ℕ → ℕ → ℕ → ℕ
ready_time started payload rate =
    let product = payload * 1000000000 % 18446744073709551616 in
    if ltb product 9223372036854775808
    then started + product / rate
    else started - (18446744073709551616 - product) / rate

-- `weight` clamped to 1 .. 100.
unfoldable pub clamp_weight : ℤ → ℤ
clamp_weight w =
    let low = if ltb_ℤ w (pos 1) then pos 1 else w in if ltb_ℤ (pos 100) low then pos 100 else low

module _ {P : Type 0} (slots : HostSlots P) (env : Env) where
  -- The queue limits of `Do`. One eighth of them is kept for control.
  unfoldable pub blocked : Scheduler P → ScheduledItem → Bool
  blocked s item =
      let c = count_of s.owners item.owner in
      leb s.limits.max_queued s.total.queued
      || leb s.limits.per_owner_queued c.queued
      || (not (is_control item.lane)
          && (leb (s.limits.max_queued - s.limits.max_queued / 8) s.total.non_control_queued
              || leb (s.limits.per_owner_queued - max 1 (s.limits.per_owner_queued / 8))
                  c.non_control_queued))

  abbrev weight_for : Scheduler P → String → ℤ
  weight_for s owner = or_else (pos 0) (lookup owner s.weights)

  -- `Do` up to its `select`. The item is new; its `enqueued` is the time of the call.
  unfoldable pub admit : Scheduler P → ScheduledItem → Admission × Scheduler P
  admit s item =
      let s' = change slots s item (pos 0) (pos 1) in
      let q = enqueue (at s'.queues item.lane) item.owner item (weight_for s' item.owner) in
      if same item.owner ""
      then (invalid, s)
      else if env.context_done item.id
      then (context_failed, s)
      else if s.closed
      then (scheduler_closed, record s { cancels = item.id ∷ s.cancels })
      else if blocked s item
      then (
        queue_full,
        let s'' = update_stats s item.owner (λ st. record st { rejected = st.rejected + 1 }) in
            record s'' { cancels = item.id ∷ s''.cancels },
      )
      else (admitted, schedule slots env (record s' { queues = put s'.queues item.lane q }))

  -- `case <-ctx.Done()` of `Do`: an item that is still queued is taken out.
  unfoldable pub abandon : Scheduler P → ScheduledItem → Scheduler P
  abandon s item =
      let (n, q, _) =
        remove_if {S = Unit {0}} (λ t x. (x.id == item.id, t)) (at s.queues item.lane) tt in
      let s' = record s { queues = put s.queues item.lane q } in
      let gone =
        update_stats (change slots s' item (pos 0) (negsuc 0)) item.owner
          (λ st. record st { canceled = st.canceled + 1 }) in
      let s'' = schedule slots env (if n == 0 then s' else gone) in
      record s'' { cancels = item.id ∷ s''.cancels }

  -- The charge of `run` for a bulk item: the next bulk admission waits for
  -- `payload / bulk_bytes_per_second` from the start of the call. The count of bytes wraps round.
  unfoldable pub charge : Scheduler P → ScheduledItem → ℕ → Reply → Scheduler P
  charge s item started r =
      let payload = payload_of r in
      let s' =
        update_stats s item.owner
          (λ st. record st { bulk_bytes = (st.bulk_bytes + payload) % 18446744073709551616 }) in
      if same_lane item.lane bulk && (r.has_response || is_observed r.observed)
      then record s' { bulk_ready = ready_time started payload s'.limits.bulk_bytes_per_second }
      else s

  -- `run` behind the call of `item.fn`.
  unfoldable pub finish : Scheduler P → ScheduledItem → ℕ → Reply → Scheduler P
  finish s item started r =
      let s₁ = record s {
        cancels = item.id ∷ s.cancels;
        pool = slots.release s.pool item.host item.lane env.now;
      } in
      let s₂ = charge s₁ item started r in
      let s₃ = record s₂ { running = remove_item item.id s₂.running } in
      let s₄ = schedule slots env (change slots s₃ item (negsuc 0) (pos 0)) in
      record s₄ {
        done = s₄.done || (s₄.closed && is_nil s₄.running);
        sent = (item.id, returned) ∷ s₄.sent;
      }

  abbrev reweigh : Scheduler P → Scheduler P
  reweigh s = record s {
    queues = record {
      of_control = set_weights s.queues.of_control (weight_for s);
      of_exec = set_weights s.queues.of_exec (weight_for s);
      of_bulk = set_weights s.queues.of_bulk (weight_for s);
    };
  }

  unfoldable pub configure : Scheduler P → QosConfig → ℕ → Dict ℤ → Scheduler P
  configure s c max_hosts weights =
      schedule slots env
        (reweigh (record s { limits = effective c; max_hosts = max_hosts; weights = weights }))

  unfoldable pub set_owner_weight : Scheduler P → String → ℤ → Scheduler P
  set_owner_weight s owner weight =
      schedule slots env
        (reweigh (record s { weights = insert owner (clamp_weight weight) s.weights }))

  -- A notification of the pool, and the timer of the bulk lane.
  unfoldable pub wake : Scheduler P → Scheduler P
  wake s = schedule slots env s

  unfoldable pub bulk_timer_fires : Scheduler P → Scheduler P
  bulk_timer_fires s = schedule slots env (record s { bulk_timer = false })

  -- The predicate of `RemoveIf` in `Close`.
  unfoldable pub refuse_queued : Scheduler P → ScheduledItem → Bool × Scheduler P
  refuse_queued s item =
      let s' = change slots s item (pos 0) (negsuc 0) in
      (true, record s' { cancels = item.id ∷ s'.cancels; sent = (item.id, closed_error) ∷ s'.sent })

  abbrev close_lane : Lane → Scheduler P → Scheduler P
  close_lane lane s =
      let (_, q, s') = remove_if refuse_queued (at s.queues lane) s in
      record s' { queues = put s'.queues lane q }

  -- `Close` up to its `select`. The source visits the three queues in any order.
  unfoldable pub close : Scheduler P → Scheduler P
  close s =
      let s' =
        close_lane bulk (close_lane exec (close_lane control (record s { closed = true }))) in
      if s.closed
      then s
      else record s' { cancels = ids s'.running ++ s'.cancels; done = is_nil s'.running }

-- `Snapshot` shows one owner's counts and statistics only.
pub record SchedulerSnapshot : Type 0 where
  pub limits : QosConfig
  pub work : WorkCount
  pub lanes : Option (Lanes WorkCount)
  pub stats : OwnerStats

unfoldable pub snapshot : {P : Type 0} → Scheduler P → String → SchedulerSnapshot
snapshot s owner = record {
  limits = s.limits;
  work = record {
    active = (count_of s.owners owner).active;
    queued = (count_of s.owners owner).queued;
  };
  lanes = lookup owner s.owner_lanes;
  stats = stats_of s.stats owner;
}
