-- ===== src/Broker/Scheduler/Waiting.antt =====
-- Each entry point against the time that the bulk lane waits for.
use rdev.Base.{
  ℕ, ◌≡◌, ◌⊎◌, refl, ap, ◌∙◌, true, false, String, Bool, [], ◌∷◌, ◌==◌, arith, same, or_else,
  lookup, insert, if◌then◌else◌,
}
use rdev.Base.Int.{ℤ, pos}
use rdev.Broker.Lane.{Lane, control, exec, bulk, at, same_lane}
use rdev.Broker.FairQueue.Removal.{hits}
use rdev.Broker.FairQueue.Sweeps.{remove_if-keeps}
use rdev.Broker.FairQueue.Totals.{contents}
use rdev.Broker.Scheduler.{Scheduler, ScheduledItem, HostSlots, Env, change}
use rdev.Broker.Scheduler.Dispatch.{schedule, remove_item}
use rdev.Broker.Scheduler.Entry.{
  Admission, invalid, context_failed, scheduler_closed, queue_full, admitted, Reply, blocked,
  clamp_weight, admit, abandon, charge, finish, set_owner_weight, wake, bulk_timer_fires,
  refuse_queued, close,
}
use rdev.Broker.Scheduler.Tally.{on_lane}
use rdev.Broker.Scheduler.Frame.{Consistent-same}
use rdev.Broker.Scheduler.Invariant.{Inv}
use rdev.Broker.Scheduler.Operations.{queued, queued-Keeps, full, weight_of_owner}
use rdev.Broker.Scheduler.Endings.{Runs, remove_item_lem, ended, ended-Keeps}
use rdev.Broker.Scheduler.Refusals.{swept, close_lane-Keeps}
use rdev.Broker.Scheduler.Weights.{reweighed, reweighed-Inv}
use rdev.Broker.Scheduler.Abandon.{Once, own, without, without-Keeps, requeued, gone, how_many}
use rdev.Broker.Scheduler.Pacing.{
  Still, Waits, Waits-trans, if-Waits, schedule-Waits, update_stats-Still,
}

module _ {P : Type 0} (slots : HostSlots P) (env : Env) where
  if-Waits_pair :
      {A : Type 0} (s : Scheduler P) (b : Bool) (t u : A × Scheduler P)
      → Waits slots env s t.1
      → Waits slots env s u.1
      → Waits slots env s (if b then t else u).1
  if-Waits_pair s true t u h k = h
  if-Waits_pair s false t u h k = k

  Still-Waits : (s t : Scheduler P) → Still s t → Waits slots env s t
  Still-Waits s t h = (h.0, λ early. ap (hits (on_lane bulk)) h.1)

  pub admit-Waits :
      (s : Scheduler P) (x : ScheduledItem) → Inv s → Waits slots env s (admit slots env s x).1
  unfolding admit change
  admit-Waits s x v =
      let w = weight_of_owner slots env s x in
      let canceled = record s { cancels = x.id ∷ s.cancels } in
      let f = full slots env s x in
      let rejected = record f { cancels = x.id ∷ f.cancels } in
      let s' = queued slots env s x w in
      let t₄ =
        if blocked slots env s x
        then (queue_full, rejected)
        else (admitted, schedule slots env s') in
      let t₃ = if s.closed then (scheduler_closed, canceled) else t₄ in
      let t₂ = if env.context_done x.id then (context_failed, s) else t₃ in
      let kept : Waits slots env s s = (refl, λ early. refl) in
      let refused = Still-Waits s rejected (update_stats-Still s x.owner _) in
      let last : Waits slots env s (schedule slots env s') =
        schedule-Waits slots env s' (queued-Keeps slots env s x w v).0 in
      if-Waits_pair {A = Admission} s (same x.owner "") (invalid, s) t₂ kept
        (if-Waits_pair {A = Admission} s (env.context_done x.id) (context_failed, s) t₃ kept
          (if-Waits_pair {A = Admission} s s.closed (scheduler_closed, canceled) t₄ kept
            (if-Waits_pair {A = Admission} s (blocked slots env s x) (queue_full, rejected)
              (admitted, schedule slots env s') refused last)))

  without-Waits : (s : Scheduler P) (x : ScheduledItem) → Waits slots env s (without slots env s x)
  unfolding change
  without-Waits s x =
      if-Waits slots env s (how_many slots env s x == 0) (requeued slots env s x)
        (gone slots env s x) (refl, λ early. refl)
        (Still-Waits s (gone slots env s x) (update_stats-Still _ x.owner _))

  pub abandon-Waits :
      (s : Scheduler P) (x : ScheduledItem)
      → Once x (contents (at s.queues x.lane)) ⊎ (hits (own x) (contents (at s.queues x.lane)) ≡ 0)
      → Inv s
      → Waits slots env s (abandon slots env s x)
  unfolding abandon
  abandon-Waits s x c v =
      Waits-trans slots env s (without slots env s x) (schedule slots env (without slots env s x))
        (without-Waits s x)
        (schedule-Waits slots env (without slots env s x) (without-Keeps slots env s x c v).0)

  pub set_owner_weight-Waits :
      (s : Scheduler P) (owner : String) (weight : ℤ)
      → Inv s
      → Waits slots env s (set_owner_weight slots env s owner weight)
  unfolding set_owner_weight
  set_owner_weight-Waits s owner weight v =
      let ws = insert owner (clamp_weight weight) s.weights in
      let s' = record s { weights = ws } in
      let f = λ (o : String). or_else (pos 0) (lookup o ws) in
      schedule-Waits slots env (reweighed slots env s' f) (
        reweighed-Inv slots env s' f record {
          queues = v.queues;
          counts = Consistent-same s s' (refl, refl, refl, refl, refl) v.counts;
          sorted = v.sorted;
          caps = v.caps;
        })

  pub timer-Waits : (s : Scheduler P) → Inv s → Waits slots env s (bulk_timer_fires slots env s)
  unfolding bulk_timer_fires
  timer-Waits s v =
      let s' = record s { bulk_timer = false } in
      schedule-Waits slots env s' record {
        queues = v.queues;
        counts = Consistent-same s s' (refl, refl, refl, refl, refl) v.counts;
        sorted = v.sorted;
        caps = v.caps;
      }

  pub wake-Waits : (s : Scheduler P) → Inv s → Waits slots env s (wake slots env s)
  unfolding wake
  wake-Waits s v = schedule-Waits slots env s v

  close_lane-Still : (l : Lane) (s : Scheduler P) → Inv s → Still s (swept slots env l s)
  unfolding refuse_queued change
  close_lane-Still l s v =
      remove_if-keeps (refuse_queued slots env) (λ u xs. Still s u) (λ u xs ys same h. h)
        (λ u x xs h. h) (at s.queues l) s [] (v.queues l) (refl, refl, refl)

  pub close-Waits : (s : Scheduler P) → Inv s → Waits slots env s (close slots env s)
  unfolding close
  close-Waits s v =
      let s₀ = record s { closed = true } in
      let v₀ : Inv s₀ = record {
        queues = v.queues;
        counts = Consistent-same s s₀ (refl, refl, refl, refl, refl) v.counts;
        sorted = v.sorted;
        caps = v.caps;
      } in
      let s₁ = swept slots env control s₀ in
      let s₂ = swept slots env exec s₁ in
      let v₁ = (close_lane-Keeps slots env control s₀ v₀).0 in
      let v₂ = (close_lane-Keeps slots env exec s₁ v₁).0 in
      let a = close_lane-Still control s₀ v₀ in
      let b = close_lane-Still exec s₁ v₁ in
      let c = close_lane-Still bulk s₂ v₂ in
      if-Waits slots env s s.closed s _ (refl, λ early. refl)
        (c.0 ∙ b.0 ∙ a.0, λ early. ap (hits (on_lane bulk)) (c.1 ∙ b.1 ∙ a.1))

  -- The run of an item of another lane charges nothing.
  other_charge :
      (s : Scheduler P) (x : ScheduledItem) (started : ℕ) (r : Reply)
      → same_lane x.lane bulk ≡ false
      → charge slots env s x started r ≡ s
  unfolding charge
  other_charge s x started r o = rw o refl

  pub finish-Waits :
      (s : Scheduler P) (x : ScheduledItem) (started : ℕ) (r : Reply)
      → Runs x s.running
      → same_lane x.lane bulk ≡ false
      → Inv s
      → Waits slots env s (finish slots env s x started r)
  unfolding finish change
  finish-Waits s x started r runs o v =
      let s₁ = record s {
        cancels = x.id ∷ s.cancels;
        pool = slots.release s.pool x.host x.lane env.now;
      } in
      let e = other_charge s₁ x started r o in
      let ready : (charge slots env s₁ x started r).bulk_ready ≡ s.bulk_ready =
        ap (λ (u : Scheduler P). u.bulk_ready) e in
      let running : (charge slots env s₁ x started r).running ≡ s.running =
        ap (λ (u : Scheduler P). u.running) e in
      let removed = remove_item_lem x s.running runs (on_lane bulk) in
      let fewer : hits (on_lane bulk) (remove_item x.id s.running) ≡ hits (on_lane bulk) s.running =
        ground (arith, removed) in
      Waits-trans slots env s (ended slots env s x started r)
        (schedule slots env (ended slots env s x started r))
        (ready, λ early. ap (λ rs. hits (on_lane bulk) (remove_item x.id rs)) running ∙ fewer)
        (schedule-Waits slots env (ended slots env s x started r)
          (ended-Keeps slots env s x started r runs v).0)
