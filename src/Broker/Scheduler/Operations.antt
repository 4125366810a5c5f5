-- ===== src/Broker/Scheduler/Operations.antt =====
-- The invariant and the limits: a new scheduler, admissions, wakes and the bulk lane's timer.
use rdev.Base.{
  ℕ, ◌+◌, ◌≡◌, refl, sym, ap, ◌∙◌, Bool, true, false, [], ◌∷◌, arith, if◌then◌else◌, same, lookup,
  or_else,
}
use rdev.Base.Int.{ℤ, pos}
use rdev.Broker.Lane.{Lane, control, exec, bulk, at, put, same_lane, lanes_of}
use rdev.Broker.FairQueue.{enqueue, new_fair_queue}
use rdev.Broker.FairQueue.Invariant
use rdev.Broker.FairQueue.Invariant.{
  enqueue-Inv, new_fair_queue-Inv, set_weights-Inv, remove_if-Inv,
}
use rdev.Broker.FairQueue.Removal.{hits}
use rdev.Broker.FairQueue.Totals.{SameTally, contents, contents-enqueue, hits-append}
use rdev.Broker.Scheduler.{
  Scheduler, ScheduledItem, HostSlots, Env, QosConfig, new_scheduler, change, update_stats,
  no_count, no_work,
}
use rdev.Broker.Scheduler.Dispatch.{schedule}
use rdev.Broker.Scheduler.Entry.{
  Admission, invalid, context_failed, scheduler_closed, queue_full, admitted, admit, wake,
  bulk_timer_fires, blocked,
}
use rdev.Broker.Scheduler.Tally.{Agrees, Works, joins, change-Consistent, on_lane}
use rdev.Broker.Scheduler.Frame.{SameCounters, SameWork, Consistent-same, update_stats_frame}
use rdev.Broker.Scheduler.Invariant.{
  Inv, Keeps, Keeps-trans, others, waiting, waiting-put, waiting-at, Consistent-tally, off_lane,
  put-Invs, put-sorted,
}
use rdev.Broker.Scheduler.Schedule.{schedule-Keeps}

same_lane_refl : (l : Lane) → same_lane l l ≡ true
same_lane_refl control = refl
same_lane_refl exec = refl
same_lane_refl bulk = refl

module _ {P : Type 0} where
  -- A step that leaves counters and work alone.
  pub idle-Keeps : (s t : Scheduler P) → SameCounters s t → SameWork s t → Inv s → Keeps s t
  idle-Keeps s t c w v = (
    record {
      queues = λ l. rw w.0 (v.queues l);
      counts =
          Consistent-tally t (λ p. ap (λ m. hits p (waiting m)) (sym w.0))
            (λ p. ap (hits p) (sym w.1)) (Consistent-same s t c v.counts);
      sorted = λ l. rw w.0 (v.sorted l);
      caps = λ l. rw w.1 (v.caps l);
    },
    w.2,
    λ h. rw (w.1, w.2) h,
  )

  if-Keeps_pair :
      {A : Type 0} (s : Scheduler P) (b : Bool) (t u : A × Scheduler P)
      → Keeps s t.1
      → Keeps s u.1
      → Keeps s (if b then t else u).1
  if-Keeps_pair s true t u h k = h
  if-Keeps_pair s false t u h k = k

  pub new_scheduler-Inv : (pool : P) (c : QosConfig) (n : ℕ) → Inv (new_scheduler pool c n)
  unfolding new_scheduler lookup
  new_scheduler-Inv pool c n = record {
    queues = λ l. empty_queue l;
    counts = record {
      total = nothing _;
      lanes = λ l. empty_lane l;
      owners = λ o. nothing _;
      hosts = λ h. nothing _;
      owner_lanes = λ o l. idle l;
    };
    sorted = λ l. no_items l;
    caps = λ l. omega arith;
  }
    where
      empty_queue : (l : Lane) → Invariant.Inv {A = ScheduledItem} (at (lanes_of new_fair_queue) l)
      empty_queue control = new_fair_queue-Inv
      empty_queue exec = new_fair_queue-Inv
      empty_queue bulk = new_fair_queue-Inv

      nothing : (m : ScheduledItem → Bool) → Agrees no_count m [] []
      nothing m = record {
        active = refl;
        queued = refl;
        non_control_active = refl;
        non_control_queued = refl;
      }

      empty_lane : (l : Lane) → Agrees (at (lanes_of no_count) l) (on_lane l) [] []
      empty_lane control = nothing _
      empty_lane exec = nothing _
      empty_lane bulk = nothing _

      idle : {m : ScheduledItem → Bool} (l : Lane) → Works (at (lanes_of no_work) l) m [] []
      idle control = record { active = refl; queued = refl }
      idle exec = record { active = refl; queued = refl }
      idle bulk = record { active = refl; queued = refl }

      no_items : (l : Lane) → hits (off_lane l) (contents (at (lanes_of new_fair_queue) l)) ≡ 0
      no_items control = refl
      no_items exec = refl
      no_items bulk = refl

module _ {P : Type 0} (slots : HostSlots P) (env : Env) where
  abbrev pub queued : Scheduler P → ScheduledItem → ℤ → Scheduler P
  queued s x w =
      let s' = change slots s x (pos 0) (pos 1) in
      record s' { queues = put s'.queues x.lane (enqueue (at s'.queues x.lane) x.owner x w) }

  pub queued-Keeps : (s : Scheduler P) (x : ScheduledItem) (w : ℤ) → Inv s → Keeps s (queued s x w)
  unfolding change
  queued-Keeps s x w v =
      let q = at s.queues x.lane in
      let q' = enqueue q x.owner x w in
      (
        record {
          queues = λ k.
              put-Invs s.queues x.lane k q' v.queues (enqueue-Inv q x.owner x w (v.queues x.lane));
          counts =
              Consistent-same (change slots s x (pos 0) (pos 1)) _ (refl, refl, refl, refl, refl)
                (Consistent-tally (change slots s x (pos 0) (pos 1)) tally (λ p. refl)
                  (change-Consistent slots s x (joins (waiting s.queues) s.running) v.counts));
          sorted = λ k.
              put-sorted s.queues x.lane k q' v.sorted
                (contents-enqueue q x.owner x w (off_lane x.lane) (v.queues x.lane) ∙ own);
          caps = v.caps;
        },
        refl,
        λ h. h,
      )
    where
      own : hits (off_lane x.lane) (x ∷ contents (at s.queues x.lane)) ≡ 0
      own = ground (arith, same_lane_refl x.lane, v.sorted x.lane)

      tally :
          SameTally
            (x ∷ waiting s.queues)
            (waiting (put s.queues x.lane (enqueue (at s.queues x.lane) x.owner x w)))
      tally p = omega (
        arith,
        waiting-at s.queues x.lane p,
        waiting-put s.queues x.lane (enqueue (at s.queues x.lane) x.owner x w) p,
        contents-enqueue (at s.queues x.lane) x.owner x w p (v.queues x.lane),
        hits-append p (contents (at s.queues x.lane)) (others s.queues x.lane),
        hits-append p (contents (enqueue (at s.queues x.lane) x.owner x w))
            (others s.queues x.lane),
      )

  abbrev pub full : Scheduler P → ScheduledItem → Scheduler P
  full s x = update_stats s x.owner (λ st. record st { rejected = st.rejected + 1 })

  abbrev pub weight_of_owner : Scheduler P → ScheduledItem → ℤ
  weight_of_owner s x = or_else (pos 0) (lookup x.owner (change slots s x (pos 0) (pos 1)).weights)

  full-Keeps :
      (s : Scheduler P) (x : ScheduledItem)
      → Inv s
      → Keeps s (record (full s x) { cancels = x.id ∷ (full s x).cancels })
  full-Keeps s x v =
      let frame = update_stats_frame s x.owner (λ st. record st { rejected = st.rejected + 1 }) in
      idle-Keeps s (record (full s x) { cancels = x.id ∷ (full s x).cancels }) frame.0 frame.1 v

  pub admit-Keeps : (s : Scheduler P) (x : ScheduledItem) → Inv s → Keeps s (admit slots env s x).1
  unfolding admit
  admit-Keeps s x v =
      let canceled = record s { cancels = x.id ∷ s.cancels } in
      let rejected = record (full s x) { cancels = x.id ∷ (full s x).cancels } in
      let s' = queued s x (weight_of_owner s x) in
      let kept : Keeps s s = (v, refl, λ h. h) in
      let last : Keeps s (schedule slots env s') =
        Keeps-trans s s' (schedule slots env s') (queued-Keeps s x (weight_of_owner s x) v)
          (schedule-Keeps slots env s') in
      let t₄ =
        if blocked slots env s x
        then (queue_full, rejected)
        else (admitted, schedule slots env s') in
      let t₃ = if s.closed then (scheduler_closed, canceled) else t₄ in
      let t₂ = if env.context_done x.id then (context_failed, s) else t₃ in
      if-Keeps_pair {A = Admission} s (same x.owner "") (invalid, s) t₂ kept
        (if-Keeps_pair {A = Admission} s (env.context_done x.id) (context_failed, s) t₃ kept
          (if-Keeps_pair {A = Admission} s s.closed (scheduler_closed, canceled) t₄
            (idle-Keeps s canceled (refl, refl, refl, refl, refl) (refl, refl, refl, refl) v)
            (if-Keeps_pair {A = Admission} s (blocked slots env s x) (queue_full, rejected)
              (admitted, schedule slots env s') (full-Keeps s x v) last)))

  pub wake-Keeps : (s : Scheduler P) → Inv s → Keeps s (wake slots env s)
  unfolding wake
  wake-Keeps s v = schedule-Keeps slots env s v

  pub bulk_timer_fires-Keeps : (s : Scheduler P) → Inv s → Keeps s (bulk_timer_fires slots env s)
  unfolding bulk_timer_fires
  bulk_timer_fires-Keeps s v =
      let s' = record s { bulk_timer = false } in
      Keeps-trans s s' _ (idle-Keeps s s' (refl, refl, refl, refl, refl) (refl, refl, refl, refl) v)
        (schedule-Keeps slots env s')
