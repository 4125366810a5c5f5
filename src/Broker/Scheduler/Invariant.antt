-- ===== src/Broker/Scheduler/Invariant.antt =====
-- The invariant of the scheduler, and the limits on what runs.
use rdev.Base.{
  ◌-◌, ◌≤◌, String, ◌≡◌, refl, sym, ap, ◌∙◌, inl, inr, Bool, true, not, ◌||◌, List, ◌∷◌, ◌++◌,
  arith, Bool-cases, if◌then◌else◌, same_iff,
}
use rdev.Base.Int.{pos, negsuc}
use rdev.Broker.Lane.{Lane, control, exec, bulk, is_control, Lanes, at, put, same_lane}
use rdev.Broker.FairQueue.{FairQueue}
use rdev.Broker.FairQueue.Invariant
use rdev.Broker.FairQueue.Removal.{hits}
use rdev.Broker.FairQueue.Totals.{SameTally, contents, hits-append}
use rdev.Broker.Scheduler.{
  Scheduler, ScheduledItem, HostSlots, Env, QosConfig, change, update_stats, lane_limit,
}
use rdev.Broker.Scheduler.Dispatch.{drop_done, start, member}
use rdev.Broker.Scheduler.Tally.{
  Consistent, Agrees, leaves, starts, change-Consistent, at-put, outside_control, on_lane, on_host,
  of_owner, of_owner_on,
}
use rdev.Broker.Scheduler.Frame.{SameWork, Consistent-same, update_stats_frame, Room}

abbrev pub others : Lanes (FairQueue ScheduledItem) → Lane → List ScheduledItem
others m control = contents m.of_exec ++ contents m.of_bulk
others m exec = contents m.of_control ++ contents m.of_bulk
others m bulk = contents m.of_control ++ contents m.of_exec

-- All queued items.
abbrev pub waiting : Lanes (FairQueue ScheduledItem) → List ScheduledItem
waiting m = contents m.of_control ++ others m control

pub waiting-put :
    (m : Lanes (FairQueue ScheduledItem)) (l : Lane) (q : FairQueue ScheduledItem)
    → SameTally (contents q ++ others m l) (waiting (put m l q))
waiting-put m control q p = refl
waiting-put m exec q p = omega (
  arith,
  hits-append p (contents q) (others m exec),
  hits-append p (contents m.of_control) (contents m.of_bulk),
  hits-append p (contents m.of_control) (contents q ++ contents m.of_bulk),
  hits-append p (contents q) (contents m.of_bulk),
)
waiting-put m bulk q p = omega (
  arith,
  hits-append p (contents q) (others m bulk),
  hits-append p (contents m.of_control) (contents m.of_exec),
  hits-append p (contents m.of_control) (contents m.of_exec ++ contents q),
  hits-append p (contents m.of_exec) (contents q),
)

put-at : {A : Type 0} (m : Lanes A) (l : Lane) → put m l (at m l) ≡ m
put-at m control = refl
put-at m exec = refl
put-at m bulk = refl

pub waiting-at :
    (m : Lanes (FairQueue ScheduledItem)) (l : Lane)
    → SameTally (waiting m) (contents (at m l) ++ others m l)
waiting-at m l p = sym (waiting-put m l (at m l) p ∙ ap (λ k. hits p (waiting k)) (put-at m l))

-- The counters do not depend on the order of the items.
module _ {P : Type 0} (s : Scheduler P) {qs rs qs' rs' : List ScheduledItem} (e : SameTally qs qs')
    (f : SameTally rs rs') where
  Agrees-tally : (c : _) (m : ScheduledItem → Bool) → Agrees c m qs rs → Agrees c m qs' rs'
  Agrees-tally c m g = record {
    active = g.active ∙ f m;
    queued = g.queued ∙ e m;
    non_control_active = g.non_control_active ∙ f (outside_control m);
    non_control_queued = g.non_control_queued ∙ e (outside_control m);
  }

  pub Consistent-tally : Consistent s qs rs → Consistent s qs' rs'
  Consistent-tally v = record {
    total = Agrees-tally _ _ v.total;
    lanes = λ l. Agrees-tally _ _ (v.lanes l);
    owners = λ o. Agrees-tally _ _ (v.owners o);
    hosts = λ h. Agrees-tally _ _ (v.hosts h);
    owner_lanes = λ o l.
        let g = v.owner_lanes o l in
        record { active = g.active ∙ f (of_owner_on o l); queued = g.queued ∙ e (of_owner_on o l) };
  }

-- What runs stays under the limits: in all, on each host, of each owner; and without control, whose
-- two slots in all and on each host, and one of each owner, stay free. Of control an owner has one.
pub record Within (c : QosConfig) (rs : List ScheduledItem) : Type 0 where
  pub total : hits (λ x. true) rs ≤ c.max_active
  pub reserve_total : hits (outside_control (λ x. true)) rs ≤ c.max_active - 2
  pub host : (h : String) → hits (on_host h) rs ≤ c.per_host
  pub reserve_host : (h : String) → hits (outside_control (on_host h)) rs ≤ c.per_host - 2
  pub owner : (o : String) → hits (of_owner o) rs ≤ c.per_owner
  pub reserve_owner : (o : String) → hits (outside_control (of_owner o)) rs ≤ c.per_owner - 1
  pub alone : (o : String) → hits (of_owner_on o control) rs ≤ 1

abbrev pub off_lane : Lane → ScheduledItem → Bool
off_lane l x = not (same_lane x.lane l)

-- The queues are well formed and hold items of their own lanes, the counters agree, and no lane runs
-- more than its limit.
pub record Inv {P : Type 0} (s : Scheduler P) : Type 0 where
  pub queues : (l : Lane) → Invariant.Inv (at s.queues l)
  pub counts : Consistent s (waiting s.queues) s.running
  pub sorted : (l : Lane) → hits (off_lane l) (contents (at s.queues l)) ≡ 0
  pub caps : (l : Lane) → hits (on_lane l) s.running ≤ lane_limit l

control_lane : (l : Lane) → same_lane l control ≡ is_control l
control_lane control = refl
control_lane exec = refl
control_lane bulk = refl

module _ {P : Type 0} (s : Scheduler P) (x : ScheduledItem) (qs : List ScheduledItem)
    (room : Room s x) (v : Consistent s qs s.running) where
  pub start-Within : Within s.limits s.running → Within s.limits (x ∷ s.running)
  start-Within w = record {
    total = ground (arith, room.in_total, v.total.active, w.total);
    reserve_total = ground (arith, room.reserve_total, v.total.non_control_active, w.reserve_total);
    host = λ h. ground (arith, room.on_host, same_iff x.host h, (v.hosts x.host).active, w.host h);
    reserve_host = λ h. ground (
      arith,
      room.reserve_host,
      same_iff x.host h,
      (v.hosts x.host).non_control_active,
      w.reserve_host h,
    );
    owner = λ o.
        ground (arith, room.of_owner, same_iff x.owner o, (v.owners x.owner).active, w.owner o);
    reserve_owner = λ o. ground (
      arith,
      room.reserve_owner,
      same_iff x.owner o,
      (v.owners x.owner).non_control_active,
      w.reserve_owner o,
    );
    alone = λ o. ground (
      arith,
      room.alone,
      control_lane x.lane,
      same_iff x.owner o,
      (v.owner_lanes x.owner control).active,
      w.alone o,
    );
  }

module _ {P : Type 0} (slots : HostSlots P) (env : Env) where
  -- What a step on the counters keeps: it takes `x` off the queued items and may run it.
  pub start-Consistent :
      (s : Scheduler P) (x : ScheduledItem) (qs : List ScheduledItem)
      → Consistent s (x ∷ qs) s.running
      → Consistent (start slots env s x) qs (x ∷ s.running)
  unfolding start change
  start-Consistent s x qs v =
      let s' = change slots s x (pos 1) (negsuc 0) in
      Consistent-same s' _ (update_stats_frame _ x.owner _).0
        (change-Consistent slots s x (starts qs s.running) v)

  pub start_frame :
      (s : Scheduler P) (x : ScheduledItem)
      → let u = start slots env s x in
        (u.queues ≡ s.queues)
        × (u.running ≡ x ∷ s.running)
        × (u.limits ≡ s.limits)
        × (u.closed ≡ s.closed)
  unfolding start change
  start_frame s x = (update_stats_frame _ x.owner _).1

  pub leave-Consistent :
      (u : Scheduler P) (x : ScheduledItem) (f : _) {xs rs : List ScheduledItem}
      → Consistent u (x ∷ xs) rs
      → Consistent (update_stats (change slots u x (pos 0) (negsuc 0)) x.owner f) xs rs
  leave-Consistent u x f {xs} {rs} v =
      Consistent-same (change slots u x (pos 0) (negsuc 0)) _ (update_stats_frame _ x.owner f).0
        (change-Consistent slots u x (leaves xs rs) v)

  pub leave_frame :
      (u : Scheduler P) (x : ScheduledItem) (f : _)
      → SameWork u (update_stats (change slots u x (pos 0) (negsuc 0)) x.owner f)
  unfolding change
  leave_frame u x f = (update_stats_frame _ x.owner f).1

  pub drop_done-step :
      (s u : Scheduler P) (x : ScheduledItem) (xs : List ScheduledItem)
      → Consistent u (x ∷ xs) s.running × SameWork s u
      → let (gone, t) = drop_done slots env u x in
        Consistent t (if gone then xs else x ∷ xs) s.running × SameWork s t
  unfolding drop_done
  drop_done-step s u x xs (v, w) =
      elim (Bool-cases (env.context_done x.id || member x.id u.cancels)) [
        | inl e ↦
            let frame = leave_frame u x _ in
            rw e (
              Consistent-same _ _ (refl, refl, refl, refl, refl) (leave-Consistent u x _ v),
              (frame.0 ∙ w.0, frame.1 ∙ w.1, frame.2 ∙ w.2, frame.3 ∙ w.3),
            )
        | inr e ↦ rw e (v, w)
      ]

-- A step keeps the invariant, the limits and, where it held, that what runs is within them.
abbrev pub Keeps : {P : Type 0} → Scheduler P → Scheduler P → Type 0
Keeps s t = Inv t × (t.limits ≡ s.limits) × (Within s.limits s.running → Within t.limits t.running)

pub Keeps-trans : {P : Type 0} (s t u : Scheduler P) → Keeps s t → (Inv t → Keeps t u) → Keeps s u
Keeps-trans s t u (i, e, w) k = let (j, f, x) = k i in (j, f ∙ e, λ h. x (rw e (rw e at w h)))

pub put-Invs :
    (m : Lanes (FairQueue ScheduledItem)) (l k : Lane) (q : FairQueue ScheduledItem)
    → ((j : Lane) → Invariant.Inv (at m j))
    → Invariant.Inv q
    → Invariant.Inv (at (put m l q) k)
put-Invs m l k q v w = elim (Bool-cases (same_lane l k)) [
  | inl e ↦ rw (at-put m l k q, e) w
  | inr e ↦ rw (at-put m l k q, e) (v k)
]

pub put-sorted :
    (m : Lanes (FairQueue ScheduledItem)) (l k : Lane) (q : FairQueue ScheduledItem)
    → ((j : Lane) → hits (off_lane j) (contents (at m j)) ≡ 0)
    → hits (off_lane l) (contents q) ≡ 0
    → hits (off_lane k) (contents (at (put m l q) k)) ≡ 0
put-sorted m control control q v w = w
put-sorted m exec exec q v w = w
put-sorted m bulk bulk q v w = w
put-sorted m control exec q v w = v exec
put-sorted m control bulk q v w = v bulk
put-sorted m exec control q v w = v control
put-sorted m exec bulk q v w = v bulk
put-sorted m bulk control q v w = v control
put-sorted m bulk exec q v w = v exec

module _ {P : Type 0} where
  -- The queue of lane `l` is put back, when nothing has started.
  pub requeue-Keeps :
      (s t : Scheduler P) (l : Lane) (q : FairQueue ScheduledItem)
      → Inv s
      → SameWork s t
      → Invariant.Inv q
      → hits (off_lane l) (contents q) ≡ 0
      → Consistent t (contents q ++ others s.queues l) s.running
      → Keeps s (record t { queues = put t.queues l q })
  requeue-Keeps s t l q v w i o c = (
    record {
      queues = λ k. put-Invs t.queues l k q (λ j. rw w.0 (v.queues j)) i;
      counts =
          Consistent-same t _ (refl, refl, refl, refl, refl)
            (Consistent-tally t
              (λ p.
                ap (λ m. hits p (contents q ++ others m l)) (sym w.0) ∙ waiting-put t.queues l q p)
              (λ p. ap (hits p) (sym w.1)) c);
      sorted = λ k. put-sorted t.queues l k q (λ j. rw w.0 (v.sorted j)) o;
      caps = λ k. rw w.1 (v.caps k);
    },
    w.2,
    λ h. rw (w.1, w.2) h,
  )
