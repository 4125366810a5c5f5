-- ===== src/Broker/Scheduler/Pacing.antt =====
-- The rate of the bulk lane: when `bulk_ready` moves, and what waits for it.
use rdev.Base.{
  ℕ, zero, suc, ◌<◌, ◌≡◌, refl, ap, ◌∙◌, inl, inr, Bool, true, false, Option, none, some, List, [],
  ◌∷◌, ◌&&◌, ◌||◌, if◌then◌else◌, subst, arith, Bool-cases, String, ltb,
}
use rdev.Broker.Lane.{Lane, Lanes, control, exec, bulk, at, put, same_lane}
use rdev.Broker.FairQueue.{FairQueue}
use rdev.Broker.FairQueue.Invariant
use rdev.Broker.FairQueue.Invariant.{next_eligible-Inv, remove_if-Inv}
use rdev.Broker.FairQueue.Removal.{hits}
use rdev.Broker.FairQueue.Totals.{contents}
use rdev.Broker.FairQueue.Picks.{next_eligible-Result, Result}
use rdev.Broker.FairQueue.Sweeps.{remove_if-keeps}
use rdev.Broker.Scheduler.{
  Scheduler, ScheduledItem, HostSlots, Env, OwnerStats, lane_limit, update_stats, change,
}
use rdev.Broker.Scheduler.Eligible.{eligible, host_gate, pool_gate}
use rdev.Broker.Scheduler.Dispatch.{
  drop_done, member, start, round_end, sweep_end, dispatch_rounds, schedule_lane, schedule,
  still_waiting,
}
use rdev.Broker.Scheduler.Tally.{on_lane, same_lane-eq}
use rdev.Broker.Scheduler.Frame.{Consistent-same}
use rdev.Broker.Scheduler.Invariant.{Inv, off_lane, start_frame}
use rdev.Broker.Scheduler.Schedule.{off_lane-sweep, schedule_lane-Keeps}

at-put_self : {A : Type 0} (m : Lanes A) (l : Lane) (a : A) → at (put m l a) l ≡ a
at-put_self m control a = refl
at-put_self m exec a = refl
at-put_self m bulk a = refl

module _ {P : Type 0} where
  -- The lane's time is the same, and so is all that runs.
  abbrev pub Still : Scheduler P → Scheduler P → Type 0
  Still s t = (t.bulk_ready ≡ s.bulk_ready) × (t.running ≡ s.running) × (t.limits ≡ s.limits)

  pub update_stats-Still :
      (s : Scheduler P) (o : String) (f : OwnerStats → OwnerStats) → Still s (update_stats s o f)
  unfolding update_stats
  update_stats-Still s o f = ground arith

  host_gate-Still : (s : Scheduler P) (x : ScheduledItem) → Still s (host_gate s x).1
  unfolding host_gate
  host_gate-Still s x = ground arith

  pool_gate-Still :
      (slots : HostSlots P) (env : Env) (s : Scheduler P) (x : ScheduledItem)
      → Still s (pool_gate slots env s x).1
  unfolding pool_gate
  pool_gate-Still slots env s x = ground arith

module _ {P : Type 0} (slots : HostSlots P) (env : Env) where
  eligible-Still :
      (s u : Scheduler P) (x : ScheduledItem) → Still s u → Still s (eligible slots env u x).1
  unfolding eligible
  eligible-Still s u x h =
      ground (arith, host_gate-Still u x, pool_gate-Still slots env (host_gate u x).1 x)

  start-Still :
      (s : Scheduler P) (x : ScheduledItem) → (start slots env s x).bulk_ready ≡ s.bulk_ready
  unfolding start change
  start-Still s x = (update_stats-Still _ x.owner _).0

  -- The queue of a lane is well formed and holds the lane's items only.
  abbrev Sorted : Lane → Scheduler P → Type 0
  Sorted l s = Invariant.Inv (at s.queues l) × (hits (off_lane l) (contents (at s.queues l)) ≡ 0)

  -- The bulk lane's time is the same, and the work of another lane starts no bulk item.
  abbrev Paced : Lane → Scheduler P → Scheduler P → Type 0
  Paced l s t =
      (t.bulk_ready ≡ s.bulk_ready)
      × (same_lane l bulk ≡ false → hits (on_lane bulk) t.running ≡ hits (on_lane bulk) s.running)

  elsewhere :
      (l : Lane) (x : ScheduledItem)
      → off_lane l x ≡ false
      → same_lane l bulk ≡ false
      → on_lane bulk x ≡ false
  elsewhere l x own other = rw (same_lane-eq x.lane l (ground arith)) other

  one_more :
      (l : Lane) (x : ScheduledItem) (rs : List ScheduledItem)
      → off_lane l x ≡ false
      → same_lane l bulk ≡ false
      → hits (on_lane bulk) (x ∷ rs) ≡ hits (on_lane bulk) rs
  one_more l x rs own other = ground (arith, elsewhere l x own other)

  round-Paced :
      (next_round : Scheduler P → Scheduler P) (l : Lane)
      → ((u : Scheduler P) → Sorted l u → Paced l u (next_round u))
      → (s t : Scheduler P) (q : FairQueue ScheduledItem) (r : Option ScheduledItem) → Sorted l s
      → Invariant.Inv q
      → Result
          (eligible slots env)
          (Still s)
          (λ u x h. eligible-Still s u x h)
          (at s.queues l)
          r
          q
          t
      → Paced l s (round_end slots env next_round (record t { queues = put t.queues l q }) r)
  unfolding round_end
  round-Paced next_round l ih s t q none v i (same, k) = (k.0, λ o. ap (hits (on_lane bulk)) k.1)
  round-Paced next_round l ih s t q (some x) v i (tally, (u, k, yes_, e)) =
      let found = record t { queues = put t.queues l q } in
      let started = start slots env found x in
      let still : Still s t = subst (Still s) e (eligible-Still s u x k) in
      let frame = start_frame slots env found x in
      let own : off_lane l x ≡ false = ground (arith, v.1, tally (off_lane l)) in
      let rest : hits (off_lane l) (contents q) ≡ 0 = ground (arith, v.1, tally (off_lane l)) in
      let self : at started.queues l ≡ q = ap (λ m. at m l) frame.0 ∙ at-put_self t.queues l q in
      let (ready, same) = ih started (rw self i, rw self rest) in
      (
        ready ∙ start-Still found x ∙ still.0,
        λ o.
            same o
            ∙ ap (hits (on_lane bulk)) (frame.1 ∙ ap (λ rs. x ∷ rs) still.1)
            ∙ one_more l x s.running own o,
      )

  dispatch_rounds-Paced :
      (n : ℕ) (l : Lane) (s : Scheduler P)
      → Sorted l s
      → Paced l s (dispatch_rounds slots env n l s)
  unfolding dispatch_rounds
  dispatch_rounds-Paced zero l s v = (refl, λ o. refl)
  dispatch_rounds-Paced (suc n) l s v =
      elim (Bool-cases (ltb (at s.lanes l).active (lane_limit l))) [
        | inl e ↦ rw e (
            round-Paced (dispatch_rounds slots env n l) l (dispatch_rounds-Paced n l) s _ _ _ v
              (next_eligible-Inv (eligible slots env) (at s.queues l) s v.0)
              (next_eligible-Result (eligible slots env) (Still s) (λ u x h. eligible-Still s u x h)
                (at s.queues l) s v.0 (refl, refl, refl)))
        | inr e ↦ rw e (refl, λ o. refl)
      ]

  drop_done-Still :
      (s u : Scheduler P) (x : ScheduledItem) → Still s u → Still s (drop_done slots env u x).1
  unfolding drop_done change
  drop_done-Still s u x h = elim (Bool-cases (env.context_done x.id || member x.id u.cancels)) [
    | inl e ↦ let f = update_stats-Still _ x.owner _ in rw e (f.0 ∙ h.0, f.1 ∙ h.1, f.2 ∙ h.2)
    | inr e ↦ rw e h
  ]

  -- The bulk lane's time is the same, and no bulk item starts while the clock reads before it.
  abbrev pub Waits : Scheduler P → Scheduler P → Type 0
  Waits s t =
      (t.bulk_ready ≡ s.bulk_ready)
      × (env.now < s.bulk_ready → hits (on_lane bulk) t.running ≡ hits (on_lane bulk) s.running)

  pub Waits-trans : (s t u : Scheduler P) → Waits s t → Waits t u → Waits s u
  Waits-trans s t u (a, f) (b, g) = (b ∙ a, λ early. g (rw a early) ∙ f early)

  swept-Waits :
      (l : Lane) (s t : Scheduler P) (q : FairQueue ScheduledItem)
      → Still s t
      → Invariant.Inv q
      → hits (off_lane l) (contents q) ≡ 0
      → Waits s (sweep_end slots env l (record t { queues = put t.queues l q }))
  unfolding sweep_end
  swept-Waits l s t q still i o = elim (Bool-cases (same_lane l bulk && ltb env.now t.bulk_ready)) [
    | inl e ↦ rw e (still.0, λ early. ap (hits (on_lane bulk)) still.1)
    | inr e ↦
        let found = record t { queues = put t.queues l q } in
        let self = at-put_self t.queues l q in
        let (ready, same) = dispatch_rounds-Paced (lane_limit l) l found (rw self i, rw self o) in
        rw e (
          ready ∙ still.0,
          λ early. same (ground (arith, still.0)) ∙ ap (hits (on_lane bulk)) still.1,
        )
  ]

  lane-Waits : (l : Lane) (s : Scheduler P) → Inv s → Waits s (schedule_lane slots env l s)
  unfolding schedule_lane
  lane-Waits l s v =
      swept-Waits l s _ _
        (remove_if-keeps (drop_done slots env) (λ u xs. Still s u) (λ u xs ys same h. h)
          (λ u x xs h. drop_done-Still s u x h) (at s.queues l) s [] (v.queues l)
          (refl, refl, refl))
        (remove_if-Inv (drop_done slots env) (at s.queues l) s (v.queues l))
        (off_lane-sweep (drop_done slots env) l s (at s.queues l) (v.queues l) (v.sorted l))

  pub if-Waits :
      (s : Scheduler P) (b : Bool) (t u : Scheduler P)
      → Waits s t
      → Waits s u
      → Waits s (if b then t else u)
  if-Waits s true t u h k = h
  if-Waits s false t u h k = k

  -- A scheduling pass does not move the time that bulk work waits for, and while the clock reads
  -- before it, the pass starts no bulk item.
  pub schedule-Waits : (s : Scheduler P) → Inv s → Waits s (schedule slots env s)
  unfolding schedule
  schedule-Waits s v =
      let s₁ = record s { host_wait = still_waiting s.hosts s.host_wait } in
      let v₁ : Inv s₁ = record {
        queues = v.queues;
        counts = Consistent-same s s₁ (refl, refl, refl, refl, refl) v.counts;
        sorted = v.sorted;
        caps = v.caps;
      } in
      let s₂ = schedule_lane slots env control s₁ in
      let s₃ = schedule_lane slots env exec s₂ in
      let v₂ = (schedule_lane-Keeps slots env control s₁ v₁).0 in
      let v₃ = (schedule_lane-Keeps slots env exec s₂ v₂).0 in
      let s₄ = schedule_lane slots env bulk s₃ in
      if-Waits s s.closed s s₄ (refl, λ early. refl)
        (Waits-trans s s₂ s₄ (lane-Waits control s₁ v₁)
          (Waits-trans s₂ s₃ s₄ (lane-Waits exec s₂ v₂) (lane-Waits bulk s₃ v₃)))
