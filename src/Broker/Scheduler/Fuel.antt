-- ===== src/Broker/Scheduler/Fuel.antt =====
-- The fuel of the dispatch loop.
use rdev.Base.{
  ℕ, zero, suc, ◌+◌, ◌≤◌, ◌<◌, ◌≡◌, refl, sym, ap, ◌∙◌, inl, inr, Option, none, some, ◌∷◌, arith,
  Bool-cases, ltb,
}
use rdev.Broker.Lane.{Lane, at, put}
use rdev.Broker.FairQueue.{FairQueue}
use rdev.Broker.FairQueue.Invariant
use rdev.Broker.FairQueue.Invariant.{next_eligible-Inv}
use rdev.Broker.FairQueue.Removal.{hits}
use rdev.Broker.FairQueue.Picks.{next_eligible-Result, Result}
use rdev.Broker.Scheduler.{Scheduler, ScheduledItem, HostSlots, Env, lane_limit}
use rdev.Broker.Scheduler.Eligible.{eligible}
use rdev.Broker.Scheduler.Dispatch.{start, round_end, dispatch_rounds}
use rdev.Broker.Scheduler.Tally.{on_lane}
use rdev.Broker.Scheduler.Frame.{Frame, eligible_frame}
use rdev.Broker.Scheduler.Invariant.{Inv, start_frame}
use rdev.Broker.Scheduler.Schedule.{picked-Keeps, eligible_keep, found-own}

module _ {P : Type 0} (slots : HostSlots P) (env : Env) where
  -- Two continuations of a round agree when they agree where one item more of the lane runs.
  round-enough :
      (f g : Scheduler P → Scheduler P) (s t : Scheduler P) (l : Lane) (q : FairQueue ScheduledItem)
      (r : Option ScheduledItem)
      → ((u : Scheduler P)
          → Inv u
          → hits (on_lane l) u.running ≡ suc (hits (on_lane l) s.running)
          → f u ≡ g u)
      → Inv s
      → hits (on_lane l) s.running < lane_limit l
      → Invariant.Inv q
      → Result
          (eligible slots env)
          (Frame s)
          (λ u x h. eligible_keep slots env s u x h)
          (at s.queues l)
          r
          q
          t
      → round_end slots env f (record t { queues = put t.queues l q }) r
        ≡ round_end slots env g (record t { queues = put t.queues l q }) r
  unfolding round_end
  round-enough f g s t l q none h v lt i same = refl
  round-enough f g s t l q (some x) h v lt i (tally, picks) =
      let found = record t { queues = put t.queues l q } in
      let started = start slots env found x in
      let kept = picked-Keeps slots env s t l q x v lt i tally picks in
      let own = found-own slots env s t l q x v lt i tally in
      let (u, f₀, _, e) = picks in
      let running : started.running ≡ x ∷ s.running =
        (start_frame slots env found x).1
        ∙ ap (λ rs. x ∷ rs)
            (ap (λ (w : Scheduler P). w.running) (sym e)
              ∙ (eligible_frame slots env u x).1.1
              ∙ f₀.1.1) in
      h started kept.0 (rw running (ground (arith, own)))

  pub dispatch_rounds-enough :
      (n : ℕ) (l : Lane) (s : Scheduler P)
      → Inv s
      → lane_limit l ≤ hits (on_lane l) s.running + n
      → dispatch_rounds slots env (suc n) l s ≡ dispatch_rounds slots env n l s
  unfolding dispatch_rounds
  dispatch_rounds-enough zero l s v h = ground (arith, (v.counts.lanes l).active)
  dispatch_rounds-enough (suc n) l s v h =
      elim (Bool-cases (ltb (at s.lanes l).active (lane_limit l))) [
        | inl e ↦
            let lt : hits (on_lane l) s.running < lane_limit l =
              ground (arith, (v.counts.lanes l).active) in
            rw e (
              round-enough (dispatch_rounds slots env (suc n) l) (dispatch_rounds slots env n l) s _
                l _ _ (λ u w more. dispatch_rounds-enough n l u w (omega (arith, more, h))) v lt
                (next_eligible-Inv (eligible slots env) (at s.queues l) s (v.queues l))
                (next_eligible-Result (eligible slots env) (Frame s)
                  (λ u x k. eligible_keep slots env s u x k) (at s.queues l) s (v.queues l)
                  ((refl, refl, refl, refl, refl), (refl, refl, refl, refl))))
        | inr e ↦ rw e refl
      ]

  -- In a scheduler whose invariant holds the dispatch loop of a lane ends within the lane's limit
  -- of rounds: any more fuel gives the same state.
  pub dispatch_rounds_settled :
      (m : ℕ) (l : Lane) (s : Scheduler P)
      → Inv s
      → dispatch_rounds slots env (m + lane_limit l) l s
        ≡ dispatch_rounds slots env (lane_limit l) l s
  dispatch_rounds_settled zero l s v = ap (λ (k : ℕ). dispatch_rounds slots env k l s) (omega arith)
  dispatch_rounds_settled (suc m) l s v =
      ap (λ (k : ℕ). dispatch_rounds slots env k l s) (omega arith)
      ∙ dispatch_rounds-enough (m + lane_limit l) l s v (omega arith)
      ∙ dispatch_rounds_settled m l s v
