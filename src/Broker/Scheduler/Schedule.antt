-- ===== src/Broker/Scheduler/Schedule.antt =====
-- The invariant and the limits through a pass of `scheduleLocked`.
use rdev.Base.{
  ℕ, zero, suc, ◌+◌, ◌≤◌, ◌<◌, ◌≡◌, refl, sym, ap, ◌∙◌, subst, inl, inr, Bool, true, false, ◌&&◌,
  Option, none, some, List, [], ◌∷◌, ◌++◌, arith, Bool-cases, if◌then◌else◌, ltb,
}
use rdev.Broker.Lane.{Lane, control, exec, bulk, at, put, same_lane}
use rdev.Broker.FairQueue.{FairQueue, remove_if}
use rdev.Broker.FairQueue.Invariant
use rdev.Broker.FairQueue.Invariant.{next_eligible-Inv, remove_if-Inv}
use rdev.Broker.FairQueue.Removal.{hits}
use rdev.Broker.FairQueue.Totals.{SameTally, contents, hits-append}
use rdev.Broker.FairQueue.Sweeps.{remove_if-keeps}
use rdev.Broker.FairQueue.Picks.{next_eligible-Result, Result}
use rdev.Broker.Scheduler.{Scheduler, ScheduledItem, HostSlots, Env, lane_limit}
use rdev.Broker.Scheduler.Eligible.{eligible}
use rdev.Broker.Scheduler.Dispatch.{
  drop_done, start, round_end, sweep_end, dispatch_rounds, schedule_lane, schedule, still_waiting,
}
use rdev.Broker.Scheduler.Tally.{Consistent, on_lane, same_lane-eq}
use rdev.Broker.Scheduler.Frame.{
  Frame, frame_trans, SameWork, Consistent-same, eligible_frame, eligible-Room, Room, Room-same,
}
use rdev.Broker.Scheduler.Invariant.{
  Inv, Keeps, Keeps-trans, others, waiting, waiting-put, waiting-at, Consistent-tally, off_lane,
  start-Within, start-Consistent, start_frame, drop_done-step, requeue-Keeps, put-Invs, put-sorted,
}

caps-start :
    (l k : Lane) (x : ScheduledItem) (rs : List ScheduledItem)
    → off_lane l x ≡ false
    → hits (on_lane l) rs < lane_limit l
    → hits (on_lane k) rs ≤ lane_limit k
    → hits (on_lane k) (x ∷ rs) ≤ lane_limit k
caps-start l k x rs own lt le = elim (Bool-cases (same_lane x.lane k)) [
  | inl e ↦
      let same : l ≡ k = sym (same_lane-eq x.lane l (ground arith)) ∙ same_lane-eq x.lane k e in
      rw e (subst (λ j. 1 + hits (on_lane j) rs ≤ lane_limit j) same (omega arith))
  | inr e ↦ rw e (omega arith)
]

-- A sweep over the queue of a lane leaves items of that lane.
pub off_lane-sweep :
    {S : Type 0} (f : S → ScheduledItem → Bool × S) (l : Lane) (s : S) (q : FairQueue ScheduledItem)
    → Invariant.Inv q
    → hits (off_lane l) (contents q) ≡ 0
    → hits (off_lane l) (contents (remove_if f q s).1) ≡ 0
off_lane-sweep f l s q v h = omega (
  arith,
  hits-append (off_lane l) (contents (remove_if f q s).1) [],
  remove_if-keeps f (λ u xs. hits (off_lane l) xs ≡ 0)
      (λ u xs ys same e. sym (same (off_lane l)) ∙ e) (λ u x xs e. ground arith) q s [] v
      (hits-append (off_lane l) (contents q) [] ∙ omega arith),
)

pub if-Keeps :
    {P : Type 0} (s : Scheduler P) (b : Bool) (t u : Scheduler P)
    → Keeps s t
    → Keeps s u
    → Keeps s (if b then t else u)
if-Keeps s true t u h k = h
if-Keeps s false t u h k = k

module _ {P : Type 0} (slots : HostSlots P) (env : Env) where
  -- The state in which the item that a search found is started.
  module _ (s t : Scheduler P) (l : Lane) (q : FairQueue ScheduledItem) (x : ScheduledItem)
      (v : Inv s) (lt : hits (on_lane l) s.running < lane_limit l) (i : Invariant.Inv q)
      (tally : SameTally (contents (at s.queues l)) (x ∷ contents q)) where
    abbrev found : Scheduler P
    found = record t { queues = put t.queues l q }

    found-Consistent : Frame s t → Consistent found (x ∷ waiting found.queues) found.running
    found-Consistent f =
        Consistent-tally found whole (λ p. ap (hits p) (sym f.1.1))
          (Consistent-same s found f.0 v.counts)
      where
        whole : SameTally (waiting s.queues) (x ∷ waiting found.queues)
        whole p = omega (
          arith,
          tally p,
          waiting-at s.queues l p,
          hits-append p (contents (at s.queues l)) (others s.queues l),
          hits-append p (contents q) (others s.queues l),
          waiting-put s.queues l q p,
          ap (λ m. hits p (waiting (put m l q))) f.1.0,
        )

    pub found-own : off_lane l x ≡ false
    found-own = ground (arith, v.sorted l, tally (off_lane l))

    start-Keeps : Frame s t → Room found x → Keeps s (start slots env found x)
    start-Keeps f room =
        let c = found-Consistent f in
        let frame = start_frame slots env found x in
        let after = start-Consistent slots env found x (waiting found.queues) c in
        (
          record {
            queues = λ k. rw frame.0 (put-Invs t.queues l k q (λ j. rw f.1.0 (v.queues j)) i);
            counts =
                Consistent-tally (start slots env found x)
                  (λ p. ap (λ m. hits p (waiting m)) (sym frame.0)) (λ p. ap (hits p) (sym frame.1))
                  after;
            sorted = λ k. rw frame.0 (
                put-sorted t.queues l k q (λ j. rw f.1.0 (v.sorted j))
                  (ground (arith, v.sorted l, tally (off_lane l))));
            caps = λ k.
                rw frame.1
                  (caps-start l k x t.running found-own (rw f.1.1 lt) (rw f.1.1 (v.caps k)));
          },
          frame.2 ∙ f.1.2,
          λ w.
              rw (frame.1, frame.2)
                (start-Within found x (x ∷ waiting found.queues) room c (rw (f.1.1, f.1.2) w)),
        )

  pub picked-Keeps :
      (s t : Scheduler P) (l : Lane) (q : FairQueue ScheduledItem) (x : ScheduledItem)
      → Inv s
      → hits (on_lane l) s.running < lane_limit l
      → Invariant.Inv q
      → SameTally (contents (at s.queues l)) (x ∷ contents q)
      → ((u : Scheduler P) × Frame s u
          × ((eligible slots env u x).0 ≡ true)
          × ((eligible slots env u x).1 ≡ t))
      → Keeps s (start slots env (record t { queues = put t.queues l q }) x)
  picked-Keeps s t l q x v lt i tally (u, f, yes_, e) =
      let g : Frame u t = subst (Frame u) e (eligible_frame slots env u x) in
      start-Keeps s t l q x v lt i tally (frame_trans s u t f g)
        (Room-same u _ x g.0 g.1.2 (eligible-Room slots env u x yes_))

  pub eligible_keep :
      (s u : Scheduler P) (x : ScheduledItem) → Frame s u → Frame s (eligible slots env u x).1
  eligible_keep s u x f =
      frame_trans s u (eligible slots env u x).1 f (eligible_frame slots env u x)

  -- One round of the dispatch loop behind its search.
  round-Keeps :
      (next_round : Scheduler P → Scheduler P)
      → ((u : Scheduler P) → Inv u → Keeps u (next_round u))
      → (s t : Scheduler P) (l : Lane) (q : FairQueue ScheduledItem) (r : Option ScheduledItem)
      → Inv s
      → hits (on_lane l) s.running < lane_limit l
      → Invariant.Inv q
      → Result (eligible slots env) (Frame s) (λ u x f. eligible_keep s u x f) (at s.queues l) r q t
      → Keeps s (round_end slots env next_round (record t { queues = put t.queues l q }) r)
  unfolding round_end
  round-Keeps next_round ih s t l q none v lt i (same, f) =
      requeue-Keeps s t l q v f.1 i (same (off_lane l) ∙ v.sorted l)
        (Consistent-tally t tally (λ p. refl) (Consistent-same s t f.0 v.counts))
    where
      tally : SameTally (waiting s.queues) (contents q ++ others s.queues l)
      tally p = omega (
        arith,
        same p,
        waiting-at s.queues l p,
        hits-append p (contents (at s.queues l)) (others s.queues l),
        hits-append p (contents q) (others s.queues l),
      )
  round-Keeps next_round ih s t l q (some x) v lt i (tally, picks) =
      let started = start slots env (record t { queues = put t.queues l q }) x in
      Keeps-trans s started (next_round started) (picked-Keeps s t l q x v lt i tally picks)
        (ih started)

  dispatch_rounds-Keeps :
      (n : ℕ) (l : Lane) (s : Scheduler P) → Inv s → Keeps s (dispatch_rounds slots env n l s)
  unfolding dispatch_rounds
  dispatch_rounds-Keeps zero l s v = (v, refl, λ h. h)
  dispatch_rounds-Keeps (suc n) l s v =
      elim (Bool-cases (ltb (at s.lanes l).active (lane_limit l))) [
        | inl e ↦
            let lt : hits (on_lane l) s.running < lane_limit l =
              ground (arith, (v.counts.lanes l).active) in
            rw e (
              round-Keeps (dispatch_rounds slots env n l) (dispatch_rounds-Keeps n l) s _ l _ _ v lt
                (next_eligible-Inv (eligible slots env) (at s.queues l) s (v.queues l))
                (next_eligible-Result (eligible slots env) (Frame s)
                  (λ u x f. eligible_keep s u x f) (at s.queues l) s (v.queues l)
                  ((refl, refl, refl, refl, refl), (refl, refl, refl, refl))))
        | inr e ↦ rw e (v, refl, λ h. h)
      ]

  swept-Keeps :
      (l : Lane) (s t : Scheduler P) (q : FairQueue ScheduledItem)
      → Inv s
      → Invariant.Inv q
      → hits (off_lane l) (contents q) ≡ 0
      → Consistent t (contents q ++ others s.queues l) s.running × SameWork s t
      → Keeps s (sweep_end slots env l (record t { queues = put t.queues l q }))
  unfolding sweep_end
  swept-Keeps l s t q v i o (c, w) =
      elim (Bool-cases (same_lane l bulk && ltb env.now t.bulk_ready)) [
        | inl e ↦ rw e (armed (requeue-Keeps s t l q v w i o c))
        | inr e ↦
            let u = record t { queues = put t.queues l q } in
            rw e (
              Keeps-trans s u (dispatch_rounds slots env (lane_limit l) l u)
                (requeue-Keeps s t l q v w i o c) (dispatch_rounds-Keeps (lane_limit l) l u))
      ]
    where
      armed :
          Keeps s (record t { queues = put t.queues l q })
          → Keeps s (record t { queues = put t.queues l q; bulk_timer = true })
      armed (j, e, h) = (
        record {
          queues = j.queues;
          counts =
              Consistent-same (record t { queues = put t.queues l q }) _
                (refl, refl, refl, refl, refl) j.counts;
          sorted = j.sorted;
          caps = j.caps;
        },
        e,
        h,
      )

  pub schedule_lane-Keeps :
      (l : Lane) (s : Scheduler P) → Inv s → Keeps s (schedule_lane slots env l s)
  unfolding schedule_lane
  schedule_lane-Keeps l s v =
      swept-Keeps l s _ _ v (remove_if-Inv (drop_done slots env) (at s.queues l) s (v.queues l))
        (off_lane-sweep (drop_done slots env) l s (at s.queues l) (v.queues l) (v.sorted l))
        (remove_if-keeps (drop_done slots env) (λ u xs. Consistent u xs s.running × SameWork s u)
          (λ u xs ys same (c, w). (Consistent-tally u same (λ p. refl) c, w))
          (λ u x xs h. drop_done-step slots env s u x xs h) (at s.queues l) s (others s.queues l)
          (v.queues l)
          (
            Consistent-tally s (waiting-at s.queues l) (λ p. refl) v.counts,
            (refl, refl, refl, refl),
          ))

  -- A scheduling pass keeps the invariant, and starts nothing beyond the limits.
  pub schedule-Keeps : (s : Scheduler P) → Inv s → Keeps s (schedule slots env s)
  unfolding schedule
  schedule-Keeps s v =
      if-Keeps s s.closed s _ (v, refl, λ h. h)
        (let s₁ = record s { host_wait = still_waiting s.hosts s.host_wait } in
          let v₁ : Inv s₁ = record {
            queues = v.queues;
            counts = Consistent-same s s₁ (refl, refl, refl, refl, refl) v.counts;
            sorted = v.sorted;
            caps = v.caps;
          } in
          let s₂ = schedule_lane slots env control s₁ in
          let s₃ = schedule_lane slots env exec s₂ in
          (Keeps-trans s s₂ (schedule_lane slots env bulk s₃) (schedule_lane-Keeps control s₁ v₁)
            (λ v₂.
              Keeps-trans s₂ s₃ (schedule_lane slots env bulk s₃) (schedule_lane-Keeps exec s₂ v₂)
                (schedule_lane-Keeps bulk s₃))))
