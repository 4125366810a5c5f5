-- ===== src/Broker/Scheduler/Tests.antt =====
-- Runs of the scheduler, and the instances of its theorems.
use rdev.Broker.FairQueue.Removal.{hits}
use rdev.Broker.FairQueue.Totals.{contents}
use rdev.Broker.Scheduler.Fuel.{dispatch_rounds_settled}
use rdev.Broker.Scheduler.Closing.{told, has_id, close_lem}
use rdev.Base.{
  is_nil, ℕ, ◌+◌, ◌*◌, ◌/◌, ◌<◌, ◌≡◌, ◌↔◌, refl, ap, ◌∙◌, lookup, insert, erase, true, false, none,
  some, [], ◌∷◌, arith,
}
use rdev.Base.Int.{pos}
use rdev.Broker.Lane.{control, exec, bulk}
use rdev.Broker.FairQueue.{
  enqueue, set_weight, at_least_one, new_fair_queue, remove_if, remove_rounds, sift, remove_owner,
  next_eligible, next_rounds, scan, take_item, advance,
}
use rdev.Broker.Scheduler.{
  Scheduler, ScheduledItem, HostSlots, Env, QosConfig, new_scheduler, effective, validate, change,
  remove_host, update_stats, stat_locked, purge, lane_limit,
}
use rdev.Broker.Scheduler.Dispatch.{
  schedule, schedule_lane, sweep_end, dispatch_rounds, round_end, start, drop_done, still_waiting,
  member,
}
use rdev.Broker.Scheduler.Eligible.{
  eligible, under_limits, host_gate, lane_gate, pool_gate, active_hosts,
}
use rdev.Broker.Scheduler.Entry.{Reply, payload_of, admit, blocked, configure, close, finish}
use rdev.Broker.Scheduler.Invariant.{Inv, Within, waiting}
use rdev.Broker.Scheduler.Tally.{Consistent, Shift, on_lane, change-Consistent}
use rdev.Broker.Scheduler.Histories.{Event, Later, Reached, Reached-Inv, Later-Within}
use rdev.Broker.Scheduler.Limits.{Sane, validate_iff}
use rdev.Broker.Scheduler.Endings.{Runs}
use rdev.Broker.Scheduler.Charges.{finish_paced}
use rdev.Broker.Scheduler.Meanwhile.{Meanwhile, Meanwhile-Same}

-- A pool that grants every request, as a nil pool does.
abbrev open_pool : HostSlots (Unit {0})
open_pool = record {
  demand = λ p h d. p;
  try_acquire = λ p h l t. (true, p);
  release = λ p h l t. p;
}

abbrev noon : Env
noon = record { now = 43200; context_done = λ n. false }

abbrev defaults : QosConfig
defaults = record {
  bulk_bytes_per_second = 0;
  max_active = 0;
  per_host = 0;
  per_owner = 0;
  max_queued = 0;
  per_owner_queued = 0;
}

abbrev list_files : ScheduledItem
list_files = record { id = 1; owner = "anna"; host = "build1"; lane = control; enqueued = 43200 }

abbrev run_tests : ScheduledItem
run_tests = record { id = 2; owner = "anna"; host = "build1"; lane = exec; enqueued = 43200 }

abbrev idle : Scheduler (Unit {0})
idle = new_scheduler tt defaults 4

abbrev one_runs : Scheduler (Unit {0})
one_runs = (admit open_pool noon idle list_files).1

abbrev two_run : Scheduler (Unit {0})
two_run = (admit open_pool noon one_runs run_tests).1

two_run-Reached : Reached open_pool two_run
two_run-Reached =
    Reached.went_on (Reached.went_on (Reached.created tt defaults 4) (Event.admits noon list_files))
      (Event.admits noon run_tests)

Reached-Inv_example : Inv (configure open_pool noon two_run defaults 2 [])
Reached-Inv_example = Reached-Inv open_pool (Reached.configured noon defaults 2 [] two_run-Reached)

idle-Within : Within idle.limits idle.running
unfolding new_scheduler
idle-Within = record {
  total = omega arith;
  reserve_total = omega arith;
  host = λ h. omega arith;
  reserve_host = λ h. omega arith;
  owner = λ o. omega arith;
  reserve_owner = λ o. omega arith;
  alone = λ o. omega arith;
}

Later-Within_example :
    Within (close open_pool noon two_run).limits (close open_pool noon two_run).running
Later-Within_example =
    Later-Within open_pool (Reached.created tt defaults 4)
      (Later.then_event
        (Later.then_event (Later.then_event Later.now (Event.admits noon list_files))
          (Event.admits noon run_tests))
        (Event.closes noon))
      idle-Within

run_tests_granted : (eligible open_pool noon idle run_tests).0 ≡ true
unfolding eligible under_limits host_gate lane_gate pool_gate active_hosts new_scheduler effective
    lookup
run_tests_granted = refl

-- The second item of one owner starts beside the first.
two_run_running : two_run.running ≡ run_tests ∷ list_files ∷ []
unfolding admit blocked change remove_host update_stats stat_locked purge schedule schedule_lane
    sweep_end dispatch_rounds round_end start drop_done still_waiting member lane_limit eligible
    under_limits host_gate lane_gate pool_gate active_hosts new_scheduler effective lookup insert
    erase enqueue set_weight at_least_one new_fair_queue remove_if remove_rounds sift remove_owner
    next_eligible next_rounds scan take_item advance
two_run_running = refl

validate_iff_example : (validate defaults ≡ none) ↔ Sane (effective defaults)
validate_iff_example = validate_iff defaults

-- A counter moves as the item does: the first item is queued.
change-Consistent_example :
    Consistent
      (change open_pool idle list_files (pos 0) (pos 1))
      (list_files ∷ waiting idle.queues)
      idle.running
change-Consistent_example =
    change-Consistent open_pool idle list_files (Shift.joins (waiting idle.queues) idle.running)
      (Reached-Inv open_pool (Reached.created tt defaults 4)).counts

abbrev list_jobs : ScheduledItem
list_jobs = record { id = 3; owner = "anna"; host = "build1"; lane = control; enqueued = 43200 }

-- An owner has one control item at a time: the second waits.
abbrev one_waits : Scheduler (Unit {0})
one_waits = (admit open_pool noon one_runs list_jobs).1

one_waits_open :
    (one_waits.closed ≡ false) × (contents one_waits.queues.of_control ≡ list_jobs ∷ [])
unfolding admit blocked change remove_host update_stats stat_locked purge schedule schedule_lane
    sweep_end dispatch_rounds round_end start drop_done still_waiting member lane_limit eligible
    under_limits host_gate lane_gate pool_gate active_hosts new_scheduler effective lookup insert
    erase enqueue set_weight at_least_one new_fair_queue remove_if remove_rounds sift remove_owner
    next_eligible next_rounds scan take_item advance
one_waits_open = (refl, refl)

close_lem_example :
    let t = close open_pool noon one_waits in
    ((n : ℕ) → told n t.sent ≡ told n one_waits.sent + hits (has_id n) (waiting one_waits.queues))
    × (hits (λ x. true) (waiting t.queues) ≡ 0)
    × (t.total.queued ≡ 0)
    × (t.running ≡ one_waits.running)
    × (t.done ≡ is_nil one_waits.running)
    × (t.closed ≡ true)
close_lem_example = close_lem open_pool noon one_waits one_waits_open.0 (
    Reached-Inv open_pool (
      Reached.went_on
        (Reached.went_on (Reached.created tt defaults 4) (Event.admits noon list_files))
        (Event.admits noon list_jobs)))

dispatch_rounds_settled_example :
    dispatch_rounds open_pool noon (7 + lane_limit exec) exec one_waits
    ≡ dispatch_rounds open_pool noon (lane_limit exec) exec one_waits
dispatch_rounds_settled_example = dispatch_rounds_settled open_pool noon 7 exec one_waits (
    Reached-Inv open_pool (
      Reached.went_on
        (Reached.went_on (Reached.created tt defaults 4) (Event.admits noon list_files))
        (Event.admits noon list_jobs)))

abbrev copy_logs : ScheduledItem
copy_logs = record { id = 4; owner = "anna"; host = "build1"; lane = bulk; enqueued = 43200 }

abbrev copy_notes : ScheduledItem
copy_notes = record { id = 5; owner = "anna"; host = "build1"; lane = bulk; enqueued = 43200 }

abbrev copying : Scheduler (Unit {0})
copying = (admit open_pool noon idle copy_logs).1

copying_lem : (copying.running ≡ copy_logs ∷ []) × (copying.limits.bulk_bytes_per_second ≡ 8388608)
unfolding admit blocked change remove_host update_stats stat_locked purge schedule schedule_lane
    sweep_end dispatch_rounds round_end start drop_done still_waiting member lane_limit eligible
    under_limits host_gate lane_gate pool_gate active_hosts new_scheduler effective lookup insert
    erase enqueue set_weight at_least_one new_fair_queue remove_if remove_rounds sift remove_owner
    next_eligible next_rounds scan take_item advance
copying_lem = (refl, refl)

copying-Reached : Reached open_pool copying
copying-Reached = Reached.went_on (Reached.created tt defaults 4) (Event.admits noon copy_logs)

copying-Runs : Runs copy_logs copying.running
copying-Runs = ([], [], copying_lem.0, refl)

-- A response of as many bytes as the lane may send in a second.
abbrev one_second : Reply
one_second = record {
  has_response = true;
  observed = none;
  read_bytes = some 8388608;
  cat_bytes = none;
}

abbrev copied : Scheduler (Unit {0})
copied = finish open_pool noon copying copy_logs 43200 one_second

finish_paced_example :
    (copied.bulk_ready
      ≡ 43200 + payload_of one_second * 1000000000 / copying.limits.bulk_bytes_per_second)
    × (noon.now < copied.bulk_ready
        → hits (on_lane bulk) copied.running + 1 ≡ hits (on_lane bulk) copying.running)
unfolding payload_of
finish_paced_example =
    finish_paced open_pool noon copying copy_logs 43200 one_second
      (Reached-Inv open_pool copying-Reached) copying-Runs refl refl (omega arith)

-- The next bulk admission waits for a second.
copied_ready : copied.bulk_ready ≡ 1000043200
unfolding payload_of
copied_ready =
    (finish_paced open_pool noon copying copy_logs 43200 one_second
      (Reached-Inv open_pool copying-Reached) copying-Runs refl refl (omega arith)).0
    ∙ ap (λ (n : ℕ). 43200 + 8388608 * 1000000000 / n) copying_lem.1

Meanwhile-Same_example :
    let t = (admit open_pool noon copied copy_notes).1 in
    (t.bulk_ready ≡ copied.bulk_ready)
    × (hits (on_lane bulk) t.running ≡ hits (on_lane bulk) copied.running)
Meanwhile-Same_example =
    Meanwhile-Same open_pool
      (Reached.went_on copying-Reached
        (Event.finishes noon copy_logs 43200 one_second copying-Runs))
      (Meanwhile.then_event Meanwhile.now (Event.admits noon copy_notes)
        (omega (arith, copied_ready)))
