-- ===== src/Broker/Scheduler/Histories.antt =====
-- Histories of the scheduler: every order in which its entry points get the mutex.
use rdev.Base.{ℕ, String, ◌≡◌, ◌⊎◌, Dict}
use rdev.Base.Int.{ℤ}
use rdev.Broker.Lane.{at}
use rdev.Broker.FairQueue.Removal.{hits}
use rdev.Broker.FairQueue.Totals.{contents}
use rdev.Broker.Scheduler.{Scheduler, ScheduledItem, HostSlots, Env, QosConfig, new_scheduler}
use rdev.Broker.Scheduler.Entry.{
  Reply, admit, abandon, finish, configure, set_owner_weight, wake, bulk_timer_fires, close,
}
use rdev.Broker.Scheduler.Invariant.{Inv, Within, Keeps}
use rdev.Broker.Scheduler.Operations.{
  new_scheduler-Inv, admit-Keeps, wake-Keeps, bulk_timer_fires-Keeps,
}
use rdev.Broker.Scheduler.Endings.{Runs, finish-Keeps}
use rdev.Broker.Scheduler.Refusals.{close-Keeps}
use rdev.Broker.Scheduler.Weights.{configure-Inv, set_owner_weight-Keeps}
use rdev.Broker.Scheduler.Abandon.{Once, own, abandon-Keeps}

module _ {P : Type 0} (slots : HostSlots P) where
  -- One entry point, at a time and with contexts of its own. The item of a caller that gives up is
  -- queued or has left the queue; the item of a run that ends is running.
  pub data Event (s : Scheduler P) : Scheduler P → Type 0 where
    admits : (env : Env) (x : ScheduledItem) → Event s (admit slots env s x).1
    abandons :
        (env : Env) (x : ScheduledItem)
        → Once x (contents (at s.queues x.lane))
          ⊎ (hits (own x) (contents (at s.queues x.lane)) ≡ 0)
        → Event s (abandon slots env s x)
    finishes :
        (env : Env) (x : ScheduledItem) (started : ℕ) (r : Reply)
        → Runs x s.running
        → Event s (finish slots env s x started r)
    reweighs :
        (env : Env) (owner : String) (weight : ℤ)
        → Event s (set_owner_weight slots env s owner weight)
    wakes : (env : Env) → Event s (wake slots env s)
    timer_fires : (env : Env) → Event s (bulk_timer_fires slots env s)
    closes : (env : Env) → Event s (close slots env s)

  -- The states that events lead to from `s`, under one configuration.
  pub data Later (s : Scheduler P) : Scheduler P → Type 0 where
    now : Later s s
    then_event : {t u : Scheduler P} → Later s t → Event t u → Later s u

  -- The states of a scheduler's life, new configurations included.
  pub data Reached : Scheduler P → Type 0 where
    created : (pool : P) (c : QosConfig) (max_hosts : ℕ) → Reached (new_scheduler pool c max_hosts)
    went_on : {s t : Scheduler P} → Reached s → Event s t → Reached t
    configured :
        {s : Scheduler P} (env : Env) (c : QosConfig) (max_hosts : ℕ) (weights : Dict ℤ)
        → Reached s
        → Reached (configure slots env s c max_hosts weights)

  Event-Keeps : {s t : Scheduler P} → Event s t → Inv s → Keeps s t
  Event-Keeps {s} (admits env x) v = admit-Keeps slots env s x v
  Event-Keeps {s} (abandons env x c) v = abandon-Keeps slots env s x c v
  Event-Keeps {s} (finishes env x started r runs) v = finish-Keeps slots env s x started r runs v
  Event-Keeps {s} (reweighs env owner weight) v = set_owner_weight-Keeps slots env s owner weight v
  Event-Keeps {s} (wakes env) v = wake-Keeps slots env s v
  Event-Keeps {s} (timer_fires env) v = bulk_timer_fires-Keeps slots env s v
  Event-Keeps {s} (closes env) v = close-Keeps slots env s v

  pub Event-Inv : {s t : Scheduler P} → Event s t → Inv s → Inv t
  Event-Inv e v = (Event-Keeps e v).0

  -- In every state that a scheduler reaches from `new_scheduler`, whatever the order of
  -- admissions, abandoned calls, ends of runs, new weights, new configurations, wakes, timers and
  -- `close`, the three queues are well formed and hold items of their own lanes only, every
  -- counter (in all, by lane, owner, host, and by owner and lane) is the exact number of queued
  -- and running items it is about, and no lane runs more than its limit. A caller that gives up
  -- has an item that is the only one of its id in its queue, or that has left it; a run that ends
  -- is one running item's, the only one of its id.
  pub Reached-Inv : {s : Scheduler P} → Reached s → Inv s
  Reached-Inv (created pool c max_hosts) = new_scheduler-Inv pool c max_hosts
  Reached-Inv (went_on r e) = Event-Inv e (Reached-Inv r)
  Reached-Inv (configured {s} env c max_hosts weights r) =
      configure-Inv slots env s c max_hosts weights (Reached-Inv r)

  Later-Reached : {s t : Scheduler P} → Reached s → Later s t → Reached t
  Later-Reached r now = r
  Later-Reached r (then_event l e) = went_on (Later-Reached r l) e

  -- From a state that a scheduler reaches and whose running items are within the limits, any
  -- further events but a new configuration keep them within: in all, by host and by owner;
  -- without control items, two slots short of the limits in all and by host and one short of the
  -- limit by owner; and one running control item of an owner.
  pub Later-Within :
      {s t : Scheduler P}
      → Reached s
      → Later s t
      → Within s.limits s.running
      → Within t.limits t.running
  Later-Within r now w = w
  Later-Within r (then_event l e) w =
      (Event-Keeps e (Reached-Inv (Later-Reached r l))).2 (Later-Within r l w)
