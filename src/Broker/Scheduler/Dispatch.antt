-- ===== src/Broker/Scheduler/Dispatch.antt =====
-- `scheduleLocked` of internal/broker/scheduler.go, and what it shares with the entry points.
use rdev.Base.{
  ℕ, zero, suc, ◌+◌, ◌-◌, max, String, Bool, true, false, ◌&&◌, ◌||◌, Option, none, some, List, [],
  ◌∷◌, ltb, ◌==◌, if◌then◌else◌, Dict,
}
use rdev.Base.Int.{pos, negsuc}
use rdev.Broker.Lane.{Lane, control, exec, bulk, at, put, same_lane}
use rdev.Broker.FairQueue.{next_eligible, remove_if}
use rdev.Broker.Scheduler.{
  Scheduler, SchedulerCount, ScheduledItem, HostSlots, Env, Outcome, context_error, OwnerStats,
  count_of, change, update_stats, lane_limit,
}
use rdev.Broker.Scheduler.Eligible.{eligible}

unfoldable pub member : ℕ → List ℕ → Bool
member n [] = false
member n (m ∷ ms) = m == n || member n ms

unfoldable pub remove_item : ℕ → List ScheduledItem → List ScheduledItem
remove_item n [] = []
remove_item n (x ∷ xs) = let rest = remove_item n xs in if x.id == n then rest else x ∷ rest

abbrev pub ids : List ScheduledItem → List ℕ
ids [] = []
ids (x ∷ xs) = x.id ∷ ids xs

-- The hosts of the wait list that still have work queued.
unfoldable pub still_waiting : Dict SchedulerCount → List String → List String
still_waiting hosts [] = []
still_waiting hosts (h ∷ hs) =
    let rest = still_waiting hosts hs in if ltb 0 (count_of hosts h).queued then h ∷ rest else rest

module _ {P : Type 0} (slots : HostSlots P) (env : Env) where
  -- `item.ctx.Err() != nil`: the caller's context is done, or the scheduler cancelled the item.
  abbrev context_err : Scheduler P → ScheduledItem → Bool
  context_err s item = env.context_done item.id || member item.id s.cancels

  abbrev cancel : Scheduler P → ScheduledItem → Scheduler P
  cancel s item = record s { cancels = item.id ∷ s.cancels }

  abbrev send : Scheduler P → ScheduledItem → Outcome → Scheduler P
  send s item out = record s { sent = (item.id, out) ∷ s.sent }

  abbrev one_canceled : OwnerStats → OwnerStats
  one_canceled st = record st { canceled = st.canceled + 1 }

  -- The predicate of `RemoveIf` in `scheduleLocked`.
  unfoldable pub drop_done : Scheduler P → ScheduledItem → Bool × Scheduler P
  drop_done s item =
      if context_err s item
      then (
        true,
        send
            (cancel (update_stats (change slots s item (pos 0) (negsuc 0)) item.owner one_canceled)
              item)
            item context_error,
      )
      else (false, s)

  -- The body of the dispatch loop for the item that `NextEligible` returned.
  unfoldable pub start : Scheduler P → ScheduledItem → Scheduler P
  start s item =
      let s' = change slots s item (pos 1) (negsuc 0) in
      let waited = env.now - item.enqueued in
      update_stats (record s' { running = item ∷ s'.running }) item.owner
        λ st. record st {
          started = st.started + 1;
          wait = st.wait + waited;
          max_wait = max st.max_wait waited;
        }

  -- The end of a round: the loop breaks when the search found nothing.
  unfoldable pub round_end :
      (Scheduler P → Scheduler P) → Scheduler P → Option ScheduledItem → Scheduler P
  round_end next_round s none = s
  round_end next_round s (some item) = next_round (start s item)

  -- `for s.lanes[lane].Active < laneLimits[lane]`: every round starts an item or is the last.
  unfoldable pub dispatch_rounds : ℕ → Lane → Scheduler P → Scheduler P
  dispatch_rounds zero lane s = s
  dispatch_rounds (suc n) lane s =
      let (found, q, s') = next_eligible (eligible slots env) (at s.queues lane) s in
      let s'' = record s' { queues = put s'.queues lane q } in
      let next_round = λ (u : Scheduler P). dispatch_rounds n lane u in
      if ltb (at s.lanes lane).active (lane_limit lane) then round_end next_round s'' found else s

  -- Bulk work waits for its timer; otherwise the lane is filled.
  unfoldable pub sweep_end : Lane → Scheduler P → Scheduler P
  sweep_end lane s =
      if same_lane lane bulk && ltb env.now s.bulk_ready
      then record s { bulk_timer = true }
      else dispatch_rounds (lane_limit lane) lane s

  -- What `scheduleLocked` does for one lane.
  unfoldable pub schedule_lane : Lane → Scheduler P → Scheduler P
  schedule_lane lane s =
      let (_, q, s') = remove_if drop_done (at s.queues lane) s in
      sweep_end lane (record s' { queues = put s'.queues lane q })

  unfoldable pub schedule : Scheduler P → Scheduler P
  schedule s =
      if s.closed
      then s
      else schedule_lane bulk (
          schedule_lane exec
            (schedule_lane control (record s { host_wait = still_waiting s.hosts s.host_wait })))
