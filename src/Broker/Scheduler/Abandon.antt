-- ===== src/Broker/Scheduler/Abandon.antt =====
-- The invariant and the limits when a caller of `Do` gives up.
use rdev.Base.{
  ℕ, ◌+◌, ◌≡◌, refl, sym, ap, inl, inr, ◌⊎◌, Bool, false, List, ◌∷◌, ◌++◌, arith, if◌then◌else◌,
  ◌==◌,
}
use rdev.Base.Int.{pos, negsuc}
use rdev.Broker.Lane.{at, put}
use rdev.Broker.FairQueue.{FairQueue, remove_if}
use rdev.Broker.FairQueue.Invariant.{remove_if-Inv}
use rdev.Broker.FairQueue.Removal.{hits}
use rdev.Broker.FairQueue.Totals.{SameTally, contents, hits-append}
use rdev.Broker.FairQueue.Extraction.{remove_if-count, remove_if-others, hits-spared_absent, spared}
use rdev.Broker.Scheduler.{Scheduler, ScheduledItem, HostSlots, Env, change, update_stats}
use rdev.Broker.Scheduler.Dispatch.{schedule}
use rdev.Broker.Scheduler.Entry.{abandon}
use rdev.Broker.Scheduler.Tally.{Consistent}
use rdev.Broker.Scheduler.Frame.{Consistent-same}
use rdev.Broker.Scheduler.Invariant.{
  Inv, Keeps, Keeps-trans, others, waiting, waiting-at, requeue-Keeps, put-Invs, put-sorted,
  waiting-put, Consistent-tally, off_lane, leave-Consistent, leave_frame,
}
use rdev.Broker.Scheduler.Schedule.{schedule-Keeps, off_lane-sweep}
use rdev.Broker.Scheduler.Operations.{idle-Keeps}

abbrev pub own : ScheduledItem → ScheduledItem → Bool
own x y = y.id == x.id

-- The item is the only one with its id among `xs`: ids stand for pointers.
abbrev pub Once : ScheduledItem → List ScheduledItem → Type 0
Once x xs =
    (rest : List ScheduledItem) × SameTally xs (x ∷ rest) × (hits (λ y. y.id == x.id) rest ≡ 0)

module _ {P : Type 0} (slots : HostSlots P) (env : Env) where
  abbrev pub left : Scheduler P → ScheduledItem → FairQueue ScheduledItem
  left s x = (remove_if {S = Unit {0}} (λ t y. (y.id == x.id, t)) (at s.queues x.lane) tt).1

  abbrev pub requeued : Scheduler P → ScheduledItem → Scheduler P
  requeued s x = record s { queues = put s.queues x.lane (left s x) }

  abbrev pub gone : Scheduler P → ScheduledItem → Scheduler P
  gone s x =
      update_stats (change slots (requeued s x) x (pos 0) (negsuc 0)) x.owner
        (λ st. record st { canceled = st.canceled + 1 })

  off_lane-left :
      (s : Scheduler P) (x : ScheduledItem)
      → Inv s
      → hits (off_lane x.lane) (contents (left s x)) ≡ 0
  off_lane-left s x v =
      off_lane-sweep {S = Unit {0}} (λ t y. (y.id == x.id, t)) x.lane tt (at s.queues x.lane)
        (v.queues x.lane) (v.sorted x.lane)

  -- The item had left its queue: nothing changes.
  absent-Keeps :
      (s : Scheduler P) (x : ScheduledItem)
      → hits (own x) (contents (at s.queues x.lane)) ≡ 0
      → Inv s
      → Keeps s (requeued s x)
  absent-Keeps s x e v =
      requeue-Keeps s s x.lane (left s x) v (refl, refl, refl, refl)
        (remove_if-Inv {S = Unit {0}} (λ t y. (y.id == x.id, t)) (at s.queues x.lane) tt
          (v.queues x.lane))
        (off_lane-left s x v) (Consistent-tally s tally (λ p. refl) v.counts)
    where
      tally : SameTally (waiting s.queues) (contents (left s x) ++ others s.queues x.lane)
      tally p = omega (
        arith,
        waiting-at s.queues x.lane p,
        hits-append p (contents (at s.queues x.lane)) (others s.queues x.lane),
        hits-append p (contents (left s x)) (others s.queues x.lane),
        remove_if-others {S = Unit {0}} (own x) (at s.queues x.lane) tt (v.queues x.lane) p,
        hits-spared_absent (own x) p (contents (at s.queues x.lane)) e,
      )

  -- The item was queued: it leaves, with its counts.
  gone-Keeps :
      (s : Scheduler P) (x : ScheduledItem)
      → Once x (contents (at s.queues x.lane))
      → Inv s
      → Keeps s (gone s x)
  gone-Keeps s x (rest, same, once) v =
      let w =
        leave_frame slots env (requeued s x) x (λ st. record st { canceled = st.canceled + 1 }) in
      (
        record {
          queues = λ l. rw w.0 (
              put-Invs s.queues x.lane l (left s x) v.queues (
                remove_if-Inv {S = Unit {0}} (λ t y. (y.id == x.id, t)) (at s.queues x.lane) tt
                  (v.queues x.lane)));
          counts =
              Consistent-tally (gone s x) (λ p. ap (λ m. hits p (waiting m)) (sym w.0))
                (λ p. ap (hits p) (sym w.1))
                (leave-Consistent slots env (requeued s x) x
                  (λ st. record st { canceled = st.canceled + 1 }) counted);
          sorted =
              λ k. rw w.0 (put-sorted s.queues x.lane k (left s x) v.sorted (off_lane-left s x v));
          caps = λ k. rw w.1 (v.caps k);
        },
        w.2,
        λ h. rw (w.1, w.2) h,
      )
    where
      tally : SameTally (waiting s.queues) (x ∷ waiting (put s.queues x.lane (left s x)))
      tally p = omega (
        arith,
        waiting-at s.queues x.lane p,
        waiting-put s.queues x.lane (left s x) p,
        hits-append p (contents (at s.queues x.lane)) (others s.queues x.lane),
        hits-append p (contents (left s x)) (others s.queues x.lane),
        remove_if-others {S = Unit {0}} (own x) (at s.queues x.lane) tt (v.queues x.lane) p,
        same p,
        taken p,
      )
        where
          taken :
              (p : ScheduledItem → Bool)
              → hits (spared (own x) p) (contents (at s.queues x.lane)) ≡ hits p rest
          taken p = ground (arith, same (spared (own x) p), hits-spared_absent (own x) p rest once)

      counted : Consistent (requeued s x) (x ∷ waiting (put s.queues x.lane (left s x))) s.running
      counted =
          Consistent-same s (requeued s x) (refl, refl, refl, refl, refl)
            (Consistent-tally s tally (λ p. refl) v.counts)

  -- How many items of the queue are the caller's, and the state without them.
  abbrev pub how_many : Scheduler P → ScheduledItem → ℕ
  how_many s x = (remove_if {S = Unit {0}} (λ t y. (y.id == x.id, t)) (at s.queues x.lane) tt).0

  abbrev pub without : Scheduler P → ScheduledItem → Scheduler P
  without s x = if how_many s x == 0 then requeued s x else gone s x

  how_many_lem :
      (s : Scheduler P) (x : ScheduledItem)
      → Inv s
      → how_many s x ≡ hits (own x) (contents (at s.queues x.lane))
  how_many_lem s x v =
      remove_if-count {S = Unit {0}} (own x) (at s.queues x.lane) tt (v.queues x.lane)

  one :
      (s : Scheduler P) (x : ScheduledItem)
      → Once x (contents (at s.queues x.lane))
      → Inv s
      → (how_many s x == 0) ≡ false
  one s x (rest, same, once) v = ground (arith, how_many_lem s x v, same (own x), once)

  pub without-Keeps :
      (s : Scheduler P) (x : ScheduledItem)
      → Once x (contents (at s.queues x.lane)) ⊎ (hits (own x) (contents (at s.queues x.lane)) ≡ 0)
      → Inv s
      → Keeps s (without s x)
  without-Keeps s x (inl o) v = rw (one s x o v) (gone-Keeps s x o v)
  without-Keeps s x (inr e) v = rw (how_many_lem s x v, e) (absent-Keeps s x e v)

  -- A caller that gives up: its item is queued, or it has left the queue.
  pub abandon-Keeps :
      (s : Scheduler P) (x : ScheduledItem)
      → Once x (contents (at s.queues x.lane)) ⊎ (hits (own x) (contents (at s.queues x.lane)) ≡ 0)
      → Inv s
      → Keeps s (abandon slots env s x)
  unfolding abandon
  abandon-Keeps s x c v = Keeps-trans s (without s x) _ (without-Keeps s x c v) (λ w.
      Keeps-trans (without s x) (schedule slots env (without s x)) _
        (schedule-Keeps slots env (without s x) w)
        (idle-Keeps (schedule slots env (without s x)) _ (refl, refl, refl, refl, refl)
          (refl, refl, refl, refl)))
