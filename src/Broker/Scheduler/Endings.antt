-- ===== src/Broker/Scheduler/Endings.antt =====
-- The invariant and the limits at the end of a run.
use rdev.Base.{ℕ, ◌+◌, ◌%◌, ◌≤◌, ◌≡◌, refl, sym, ap, Bool, List, [], ◌∷◌, ◌++◌, arith, ◌==◌}
use rdev.Base.Int.{pos, negsuc}
use rdev.Broker.FairQueue.Removal.{hits}
use rdev.Broker.FairQueue.Totals.{SameTally, hits-append}
use rdev.Broker.Scheduler.{Scheduler, ScheduledItem, HostSlots, Env, change}
use rdev.Broker.Scheduler.Dispatch.{schedule, remove_item}
use rdev.Broker.Scheduler.Entry.{Reply, payload_of, finish, charge}
use rdev.Broker.Scheduler.Tally.{Consistent, ends, change-Consistent}
use rdev.Broker.Scheduler.Frame.{Frame, Consistent-same, update_stats_frame}
use rdev.Broker.Scheduler.Invariant.{Inv, Keeps, Keeps-trans, waiting, Consistent-tally}
use rdev.Broker.Scheduler.Schedule.{schedule-Keeps}
use rdev.Broker.Scheduler.Operations.{idle-Keeps}

-- `item` is a running item, and the only one with its id: ids stand for pointers.
abbrev pub Runs : ScheduledItem → List ScheduledItem → Type 0
Runs x rs =
    (before : List ScheduledItem) × (after : List ScheduledItem) × (rs ≡ before ++ x ∷ after)
    × (hits (λ y. y.id == x.id) (before ++ after) ≡ 0)

remove_item-absent :
    (n : ℕ) (xs : List ScheduledItem) → hits (λ y. y.id == n) xs ≡ 0 → remove_item n xs ≡ xs
unfolding remove_item
remove_item-absent n [] h = refl
remove_item-absent n (x ∷ xs) h = ground (arith, remove_item-absent n xs)

remove_item-found :
    (x : ScheduledItem) (before after : List ScheduledItem)
    → hits (λ y. y.id == x.id) (before ++ after) ≡ 0
    → remove_item x.id (before ++ x ∷ after) ≡ before ++ after
unfolding remove_item
remove_item-found x [] after h = ground (arith, remove_item-absent x.id after)
remove_item-found x (y ∷ before) after h = ground (arith, remove_item-found x before after)

-- `remove_item` takes a running item off that is the only one with its id, and nothing else: the
-- items of every kind are as many as before, but for the item itself.
pub remove_item_lem :
    (x : ScheduledItem) (rs : List ScheduledItem)
    → Runs x rs
    → SameTally rs (x ∷ remove_item x.id rs)
remove_item_lem x rs (before, after, e, once) p =
    rw (e, remove_item-found x before after once)
      (omega (arith, hits-append p before (x ∷ after), hits-append p before after))

module _ {P : Type 0} where
  -- Fewer items run, and the counters agree with them.
  fewer-Keeps :
      (s t : Scheduler P)
      → t.queues ≡ s.queues
      → t.limits ≡ s.limits
      → ((p : ScheduledItem → Bool) → hits p t.running ≤ hits p s.running)
      → Consistent t (waiting s.queues) t.running
      → Inv s
      → Keeps s t
  fewer-Keeps s t e f le c v = (
    record {
      queues = λ l. rw e (v.queues l);
      counts = Consistent-tally t (λ p. ap (λ m. hits p (waiting m)) (sym e)) (λ p. refl) c;
      sorted = λ l. rw e (v.sorted l);
      caps = λ l. omega (arith, le _, v.caps l);
    },
    f,
    λ w. rw f record {
      total = omega (arith, le _, w.total);
      reserve_total = omega (arith, le _, w.reserve_total);
      host = λ h. omega (arith, le _, w.host h);
      reserve_host = λ h. omega (arith, le _, w.reserve_host h);
      owner = λ o. omega (arith, le _, w.owner o);
      reserve_owner = λ o. omega (arith, le _, w.reserve_owner o);
      alone = λ o. omega (arith, le _, w.alone o);
    },
  )

module _ {P : Type 0} (slots : HostSlots P) (env : Env) where
  pub charge_frame :
      (s : Scheduler P) (x : ScheduledItem) (started : ℕ) (r : Reply)
      → Frame s (charge slots env s x started r)
  unfolding charge
  charge_frame s x started r = ground (
    arith,
    update_stats_frame s x.owner
        (λ st. record st { bulk_bytes = (st.bulk_bytes + payload_of r) % 18446744073709551616 }),
  )

  -- The counters and the running items behind the end of a run, before the next pass.
  abbrev pub ended : Scheduler P → ScheduledItem → ℕ → Reply → Scheduler P
  ended s x started r =
      let s₁ = record s {
        cancels = x.id ∷ s.cancels;
        pool = slots.release s.pool x.host x.lane env.now;
      } in
      let s₂ = charge slots env s₁ x started r in
      change slots (record s₂ { running = remove_item x.id s₂.running }) x (negsuc 0) (pos 0)

  pub ended-Keeps :
      (s : Scheduler P) (x : ScheduledItem) (started : ℕ) (r : Reply)
      → Runs x s.running
      → Inv s
      → Keeps s (ended s x started r)
  unfolding change
  ended-Keeps s x started r runs v =
      let s₁ = record s {
        cancels = x.id ∷ s.cancels;
        pool = slots.release s.pool x.host x.lane env.now;
      } in
      let s₂ = charge slots env s₁ x started r in
      let s₃ = record s₂ { running = remove_item x.id s₂.running } in
      let f : Frame s s₂ = charge_frame s₁ x started r in
      let tally : SameTally s.running (x ∷ remove_item x.id s₂.running) =
        rw f.1.1 (remove_item_lem x s.running runs) in
      let before : Consistent s₃ (waiting s.queues) (x ∷ remove_item x.id s₂.running) =
        Consistent-tally s₃ (λ p. refl) tally (Consistent-same s s₃ f.0 v.counts) in
      fewer-Keeps s (ended s x started r) f.1.0 f.1.2 (λ p. omega (arith, tally p))
        (change-Consistent slots s₃ x (ends (waiting s.queues) (remove_item x.id s₂.running))
          before)
        v

  -- The end of a run keeps the invariant and the limits.
  pub finish-Keeps :
      (s : Scheduler P) (x : ScheduledItem) (started : ℕ) (r : Reply)
      → Runs x s.running
      → Inv s
      → Keeps s (finish slots env s x started r)
  unfolding finish
  finish-Keeps s x started r runs v =
      let t = ended s x started r in
      let u = schedule slots env t in
      Keeps-trans s t _ (ended-Keeps s x started r runs v) (λ w.
        Keeps-trans t u _ (schedule-Keeps slots env t w)
          (idle-Keeps u _ (refl, refl, refl, refl, refl) (refl, refl, refl, refl)))
