-- ===== src/Broker/Scheduler/Refusals.antt =====
-- The invariant and the limits at `Close`.
use rdev.Base.{refl, true, List, ◌∷◌, ◌++◌, if◌then◌else◌, is_nil}
use rdev.Base.Int.{pos, negsuc}
use rdev.Broker.Lane.{Lane, control, exec, bulk, at, put}
use rdev.Broker.FairQueue.{remove_if}
use rdev.Broker.FairQueue.Invariant.{remove_if-Inv}
use rdev.Broker.FairQueue.Sweeps.{remove_if-keeps}
use rdev.Broker.Scheduler.{Scheduler, ScheduledItem, HostSlots, Env, change}
use rdev.Broker.Scheduler.Dispatch.{ids}
use rdev.Broker.Scheduler.Entry.{close, refuse_queued}
use rdev.Broker.Scheduler.Tally.{Consistent, leaves, change-Consistent}
use rdev.Broker.Scheduler.Frame.{SameWork, Consistent-same}
use rdev.Broker.Scheduler.Invariant.{
  Inv, Keeps, Keeps-trans, others, waiting-at, requeue-Keeps, Consistent-tally,
}
use rdev.Broker.Scheduler.Schedule.{if-Keeps, off_lane-sweep}
use rdev.Broker.Scheduler.Operations.{idle-Keeps}

module _ {P : Type 0} (slots : HostSlots P) (env : Env) where
  pub refused-step :
      (s u : Scheduler P) (x : ScheduledItem) (xs : List ScheduledItem)
      → Consistent u (x ∷ xs) s.running × SameWork s u
      → let (gone, t) = refuse_queued slots env u x in
        Consistent t (if gone then xs else x ∷ xs) s.running × SameWork s t
  unfolding refuse_queued change
  refused-step s u x xs (c, w) = (
    Consistent-same (change slots u x (pos 0) (negsuc 0)) _ (refl, refl, refl, refl, refl)
        (change-Consistent slots u x (leaves xs s.running) c),
    w,
  )

  abbrev pub swept : Lane → Scheduler P → Scheduler P
  swept l s =
      let (_, q, s') = remove_if (refuse_queued slots env) (at s.queues l) s in
      record s' { queues = put s'.queues l q }

  pub close_lane-Keeps : (l : Lane) (s : Scheduler P) → Inv s → Keeps s (swept l s)
  close_lane-Keeps l s v =
      let f = refuse_queued slots env in
      let (c, w) =
        remove_if-keeps f (λ u xs. Consistent u xs s.running × SameWork s u)
          (λ u xs ys same (c, w). (Consistent-tally u same (λ p. refl) c, w))
          (λ u x xs h. refused-step s u x xs h) (at s.queues l) s (others s.queues l) (v.queues l)
          (
            Consistent-tally s (waiting-at s.queues l) (λ p. refl) v.counts,
            (refl, refl, refl, refl),
          ) in
      requeue-Keeps s (remove_if f (at s.queues l) s).2 l (remove_if f (at s.queues l) s).1 v w
        (remove_if-Inv f (at s.queues l) s (v.queues l))
        (off_lane-sweep f l s (at s.queues l) (v.queues l) (v.sorted l)) c

  -- `Close` keeps the invariant and the limits.
  pub close-Keeps : (s : Scheduler P) → Inv s → Keeps s (close slots env s)
  unfolding close
  close-Keeps s v =
      let s₀ = record s { closed = true } in
      let s₁ = swept control s₀ in
      let s₂ = swept exec s₁ in
      let s₃ = swept bulk s₂ in
      let s₄ = record s₃ { cancels = ids s₃.running ++ s₃.cancels; done = is_nil s₃.running } in
      let v₀ : Inv s₀ = record {
        queues = v.queues;
        counts = Consistent-same s s₀ (refl, refl, refl, refl, refl) v.counts;
        sorted = v.sorted;
        caps = v.caps;
      } in
      let k : Keeps s s₄ = Keeps-trans s₀ s₁ s₄ (close_lane-Keeps control s₀ v₀) (λ v₁.
        Keeps-trans s₁ s₂ s₄ (close_lane-Keeps exec s₁ v₁) (λ v₂.
          Keeps-trans s₂ s₃ s₄ (close_lane-Keeps bulk s₂ v₂)
            (idle-Keeps s₃ s₄ (refl, refl, refl, refl, refl) (refl, refl, refl, refl)))) in
      if-Keeps s s.closed s s₄ (v, refl, λ h. h) k
