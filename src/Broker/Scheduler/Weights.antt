-- ===== src/Broker/Scheduler/Weights.antt =====
-- The invariant and the limits under new weights and new configurations.
use rdev.Base.{ℕ, String, ◌≡◌, refl, Dict, insert, lookup, or_else}
use rdev.Base.Int.{ℤ, pos}
use rdev.Broker.Lane.{Lane, control, exec, bulk, at}
use rdev.Broker.FairQueue.{set_weights}
use rdev.Broker.FairQueue.Invariant
use rdev.Broker.FairQueue.Invariant.{set_weights-Inv, remove_if-Inv}
use rdev.Broker.FairQueue.Removal.{hits}
use rdev.Broker.FairQueue.Totals.{SameTally, contents, contents-set_weights}
use rdev.Broker.Scheduler.{Scheduler, HostSlots, Env, QosConfig, effective}
use rdev.Broker.Scheduler.Dispatch.{schedule}
use rdev.Broker.Scheduler.Entry.{configure, set_owner_weight, clamp_weight}
use rdev.Broker.Scheduler.Frame.{Consistent-same}
use rdev.Broker.Scheduler.Invariant.{Inv, Keeps, Keeps-trans, waiting, Consistent-tally, off_lane}
use rdev.Broker.Scheduler.Schedule.{schedule-Keeps}

module _ {P : Type 0} (slots : HostSlots P) (env : Env) where
  -- New weights, for the queues of every lane.
  abbrev pub reweighed : Scheduler P → (String → ℤ) → Scheduler P
  reweighed s f = record s {
    queues = record {
      of_control = set_weights s.queues.of_control f;
      of_exec = set_weights s.queues.of_exec f;
      of_bulk = set_weights s.queues.of_bulk f;
    };
  }

  pub reweighed-Inv : (s : Scheduler P) (f : String → ℤ) → Inv s → Inv (reweighed s f)
  reweighed-Inv s f v = record {
    queues = λ l. queues l;
    counts =
        Consistent-same s _ (refl, refl, refl, refl, refl)
          (Consistent-tally s tally (λ p. refl) v.counts);
    sorted = λ l. sorted l;
    caps = v.caps;
  }
    where
      queues : (l : Lane) → Invariant.Inv (at (reweighed s f).queues l)
      queues control = set_weights-Inv s.queues.of_control f (v.queues control)
      queues exec = set_weights-Inv s.queues.of_exec f (v.queues exec)
      queues bulk = set_weights-Inv s.queues.of_bulk f (v.queues bulk)

      tally : SameTally (waiting s.queues) (waiting (reweighed s f).queues)
      tally p =
          rw
            (
              contents-set_weights s.queues.of_control f,
              contents-set_weights s.queues.of_exec f,
              contents-set_weights s.queues.of_bulk f,
            )
            refl

      sorted : (l : Lane) → hits (off_lane l) (contents (at (reweighed s f).queues l)) ≡ 0
      sorted control = rw (contents-set_weights s.queues.of_control f) (v.sorted control)
      sorted exec = rw (contents-set_weights s.queues.of_exec f) (v.sorted exec)
      sorted bulk = rw (contents-set_weights s.queues.of_bulk f) (v.sorted bulk)

  -- A new configuration keeps the invariant. What already runs may exceed its limits.
  pub configure-Inv :
      (s : Scheduler P) (c : QosConfig) (n : ℕ) (weights : Dict ℤ)
      → Inv s
      → Inv (configure slots env s c n weights)
  unfolding configure
  configure-Inv s c n weights v =
      let s' = record s { limits = effective c; max_hosts = n; weights = weights } in
      (schedule-Keeps slots env (reweighed s' (λ o. or_else (pos 0) (lookup o weights))) (
        reweighed-Inv s' (λ o. or_else (pos 0) (lookup o weights))
          record {
            queues = v.queues;
            counts = Consistent-same s s' (refl, refl, refl, refl, refl) v.counts;
            sorted = v.sorted;
            caps = v.caps;
          })).0

  pub set_owner_weight-Keeps :
      (s : Scheduler P) (owner : String) (weight : ℤ)
      → Inv s
      → Keeps s (set_owner_weight slots env s owner weight)
  unfolding set_owner_weight
  set_owner_weight-Keeps s owner weight v =
      let ws = insert owner (clamp_weight weight) s.weights in
      let s' = record s { weights = ws } in
      let t = reweighed s' (λ o. or_else (pos 0) (lookup o ws)) in
      Keeps-trans s t (schedule slots env t)
        (
          reweighed-Inv s' (λ o. or_else (pos 0) (lookup o ws))
              record {
                queues = v.queues;
                counts = Consistent-same s s' (refl, refl, refl, refl, refl) v.counts;
                sorted = v.sorted;
                caps = v.caps;
              },
          refl,
          λ w. w,
        )
        (schedule-Keeps slots env t)
