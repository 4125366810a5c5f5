-- ===== src/Broker/Scheduler/Meanwhile.antt =====
-- The bulk lane between the end of a bulk run and the time that this has set.
use rdev.Base.{ℕ, ◌<◌, ◌≡◌, refl, sym, subst, ◌∙◌, false}
use rdev.Broker.Lane.{bulk, same_lane}
use rdev.Broker.FairQueue.Removal.{hits}
use rdev.Broker.Scheduler.{Scheduler, HostSlots}
use rdev.Broker.Scheduler.Tally.{on_lane}
use rdev.Broker.Scheduler.Invariant.{Inv}
use rdev.Broker.Scheduler.Waiting.{
  admit-Waits, abandon-Waits, set_owner_weight-Waits, timer-Waits, wake-Waits, close-Waits,
  finish-Waits,
}
use rdev.Broker.Scheduler.Histories.{Event, Reached, Reached-Inv}

module _ {P : Type 0} (slots : HostSlots P) where
  -- An event before the time `T` that is not the end of a bulk run.
  abbrev pub Before : ℕ → {s t : Scheduler P} → Event slots s t → Type 0
  Before T (Event.admits env x) = env.now < T
  Before T (Event.abandons env x c) = env.now < T
  Before T (Event.finishes env x started r runs) = (env.now < T) × (same_lane x.lane bulk ≡ false)
  Before T (Event.reweighs env owner weight) = env.now < T
  Before T (Event.wakes env) = env.now < T
  Before T (Event.timer_fires env) = env.now < T
  Before T (Event.closes env) = env.now < T

  -- Events from `s` on that are all of this kind.
  pub data Meanwhile (T : ℕ) (s : Scheduler P) : Scheduler P → Type 0 where
    now : Meanwhile T s s
    then_event :
        {t u : Scheduler P} → Meanwhile T s t → (e : Event slots t u) → Before T e → Meanwhile T s u

  -- What an event before the bulk lane's time leaves as it is.
  abbrev Same : Scheduler P → Scheduler P → Type 0
  Same s t =
      (t.bulk_ready ≡ s.bulk_ready)
      × (hits (on_lane bulk) t.running ≡ hits (on_lane bulk) s.running)

  Event-Same : {s t : Scheduler P} (e : Event slots s t) → Inv s → Before s.bulk_ready e → Same s t
  Event-Same {s} (Event.admits env x) v h = let w = admit-Waits slots env s x v in (w.0, w.1 h)
  Event-Same {s} (Event.abandons env x c) v h =
      let w = abandon-Waits slots env s x c v in (w.0, w.1 h)
  Event-Same {s} (Event.finishes env x started r runs) v h =
      let w = finish-Waits slots env s x started r runs h.1 v in (w.0, w.1 h.0)
  Event-Same {s} (Event.reweighs env owner weight) v h =
      let w = set_owner_weight-Waits slots env s owner weight v in (w.0, w.1 h)
  Event-Same {s} (Event.wakes env) v h = let w = wake-Waits slots env s v in (w.0, w.1 h)
  Event-Same {s} (Event.timer_fires env) v h = let w = timer-Waits slots env s v in (w.0, w.1 h)
  Event-Same {s} (Event.closes env) v h = let w = close-Waits slots env s v in (w.0, w.1 h)

  Meanwhile-Reached :
      {T : ℕ} {s t : Scheduler P} → Reached slots s → Meanwhile T s t → Reached slots t
  Meanwhile-Reached r now = r
  Meanwhile-Reached r (then_event m e b) = Reached.went_on (Meanwhile-Reached r m) e

  -- From a state that a scheduler reaches, while the clock reads before the time that its bulk lane
  -- waits for, no event but the end of a bulk run or a new configuration moves that time or changes
  -- how many bulk items run: admissions, abandoned calls, ends of other runs, new weights, wakes,
  -- timers and `close` start no bulk item.
  pub Meanwhile-Same :
      {s t : Scheduler P}
      → Reached slots s
      → Meanwhile s.bulk_ready s t
      → (t.bulk_ready ≡ s.bulk_ready)
        × (hits (on_lane bulk) t.running ≡ hits (on_lane bulk) s.running)
  Meanwhile-Same r now = (refl, refl)
  Meanwhile-Same {s} r (then_event {t} m e b) =
      let (ready, same) = Meanwhile-Same r m in
      let b' = subst (λ (T : ℕ). Before T e) (sym ready) b in
      let (ready', same') = Event-Same e (Reached-Inv slots (Meanwhile-Reached r m)) b' in
      (ready' ∙ ready, same' ∙ same)
