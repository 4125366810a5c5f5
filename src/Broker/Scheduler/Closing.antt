-- ===== src/Broker/Scheduler/Closing.antt =====
-- What `Close` does to the items that are queued.
use rdev.Base.{
  ℕ, ◌+◌, ◌≡◌, refl, sym, ap, ◌∙◌, Bool, true, false, ◌&&◌, ◌≤◌, List, [], ◌∷◌, ◌++◌, arith,
  if◌then◌else◌, ◌==◌, is_nil,
}
use rdev.Broker.Lane.{Lane, control, exec, bulk, Lanes, at, put}
use rdev.Broker.FairQueue.{FairQueue, remove_if}
use rdev.Broker.FairQueue.Removal.{hits}
use rdev.Broker.FairQueue.Totals.{contents, hits-append}
use rdev.Broker.FairQueue.Sweeps.{remove_if-keeps}
use rdev.Broker.FairQueue.Uniform.{uniform-none}
use rdev.Broker.Scheduler.{
  Scheduler, ScheduledItem, HostSlots, Env, Outcome, context_error, closed_error, returned, change,
}
use rdev.Broker.Scheduler.Entry.{close, refuse_queued}
use rdev.Broker.Scheduler.Frame.{SameWork, Consistent-same}
use rdev.Broker.Scheduler.Invariant.{Inv, waiting}
use rdev.Broker.Scheduler.Refusals.{swept, close_lane-Keeps}

abbrev pub is_closed_error : Outcome → Bool
is_closed_error closed_error = true
is_closed_error context_error = false
is_closed_error returned = false

-- How often the item with id `n` was sent `ErrClosed`.
abbrev pub told : ℕ → List (ℕ × Outcome) → ℕ
told n [] = 0
told n ((i, o) ∷ log) = (if i == n && is_closed_error o then 1 else 0) + told n log

abbrev pub has_id : ℕ → ScheduledItem → Bool
has_id n x = x.id == n

hits_most : (p : ScheduledItem → Bool) (xs : List ScheduledItem) → hits p xs ≤ hits (λ x. true) xs
hits_most p [] = omega arith
hits_most p (x ∷ xs) = ground (arith, hits_most p xs)

module _ {P : Type 0} (slots : HostSlots P) (env : Env) where
  -- What the sweep over the queue of lane `l` does.
  record Sweeps (l : Lane) (s t : Scheduler P) : Type 0 where
    answered : (n : ℕ) → told n t.sent ≡ told n s.sent + hits (has_id n) (contents (at s.queues l))
    queues :
        (q : FairQueue ScheduledItem) × (t.queues ≡ put s.queues l q)
        × (hits (λ x. true) (contents q) ≡ 0)
    work : (t.running ≡ s.running) × (t.closed ≡ s.closed)

  told-refused :
      (s u : Scheduler P) (n k : ℕ) (x : ScheduledItem) (xs : List ScheduledItem)
      → (told n u.sent + hits (has_id n) (x ∷ xs) ≡ k) × SameWork s u
      → let (gone, t) = refuse_queued slots env u x in
        (told n t.sent + hits (has_id n) (if gone then xs else x ∷ xs) ≡ k) × SameWork s t
  unfolding refuse_queued change
  told-refused s u n k x xs (e, w) = (ground arith, w)

  swept-told :
      (l : Lane) (s : Scheduler P) (n : ℕ)
      → Inv s
      → let t = (remove_if (refuse_queued slots env) (at s.queues l) s) in
        (told n t.2.sent + hits (has_id n) (contents t.1 ++ [])
          ≡ told n s.sent + hits (has_id n) (contents (at s.queues l)))
        × SameWork s t.2
  swept-told l s n v =
      let k = told n s.sent + hits (has_id n) (contents (at s.queues l)) in
      remove_if-keeps (refuse_queued slots env)
        (λ u xs. (told n u.sent + hits (has_id n) xs ≡ k) × SameWork s u)
        (λ u xs ys same h. (ap (λ m. told n u.sent + m) (sym (same (has_id n))) ∙ h.0, h.1))
        (λ u x xs h. told-refused s u n k x xs h) (at s.queues l) s [] (v.queues l)
        (
          omega (arith, hits-append (has_id n) (contents (at s.queues l)) []),
          (refl, refl, refl, refl),
        )

  refused : (u : Scheduler P) (x : ScheduledItem) → (refuse_queued slots env u x).0 ≡ true
  unfolding refuse_queued
  refused u x = refl

  swept-Sweeps : (l : Lane) (s : Scheduler P) → Inv s → Sweeps l s (swept slots env l s)
  swept-Sweeps l s v = record {
    answered = λ n. answered n;
    queues = (q, ap (λ m. put m l q) work.0, none);
    work = (work.1, work.3);
  }
    where
      q : FairQueue ScheduledItem
      q = (remove_if (refuse_queued slots env) (at s.queues l) s).1

      work : SameWork s (remove_if (refuse_queued slots env) (at s.queues l) s).2
      work = (swept-told l s 0 v).1

      none : hits (λ x. true) (contents q) ≡ 0
      none =
          uniform-none (refuse_queued slots env) (λ x. true) refused (at s.queues l) s (v.queues l)

      answered :
          (n : ℕ)
          → told n (swept slots env l s).sent
            ≡ told n s.sent + hits (has_id n) (contents (at s.queues l))
      answered n = omega (
        arith,
        (swept-told l s n v).0,
        hits-append (has_id n) (contents q) [],
        hits_most (has_id n) (contents q),
        none,
      )

  Sweeps-all :
      (s s₁ s₂ s₃ : Scheduler P)
      → Sweeps control s s₁
      → Sweeps exec s₁ s₂
      → Sweeps bulk s₂ s₃
      → ((n : ℕ) → told n s₃.sent ≡ told n s.sent + hits (has_id n) (waiting s.queues))
        × (hits (λ x. true) (waiting s₃.queues) ≡ 0)
        × (s₃.running ≡ s.running)
        × (s₃.closed ≡ s.closed)
  Sweeps-all s s₁ s₂ s₃ a b c =
      let (q₁, e₁, z₁) = a.queues in
      let (q₂, e₂, z₂) = b.queues in
      let (q₃, e₃, z₃) = c.queues in
      let e : s₃.queues ≡ record { of_control = q₁; of_exec = q₂; of_bulk = q₃ } =
        e₃ ∙ ap (λ m. put m bulk q₃) (e₂ ∙ ap (λ m. put m exec q₂) e₁) in
      (
        λ n. omega (
          arith,
          a.answered n,
          b.answered n,
          c.answered n,
          ap (λ (m : Lanes (FairQueue ScheduledItem)). hits (has_id n) (contents m.of_exec)) e₁,
          ap (λ (m : Lanes (FairQueue ScheduledItem)). hits (has_id n) (contents m.of_bulk)) e₁,
          ap (λ (m : Lanes (FairQueue ScheduledItem)). hits (has_id n) (contents m.of_bulk)) e₂,
          hits-append (has_id n) (contents s.queues.of_control)
              (contents s.queues.of_exec ++ contents s.queues.of_bulk),
          hits-append (has_id n) (contents s.queues.of_exec) (contents s.queues.of_bulk),
        ),
        rw e (
            omega (
              arith,
              z₁,
              z₂,
              z₃,
              hits-append (λ x. true) (contents q₁) (contents q₂ ++ contents q₃),
              hits-append (λ x. true) (contents q₂) (contents q₃),
            )),
        c.work.0 ∙ b.work.0 ∙ a.work.0,
        c.work.1 ∙ b.work.1 ∙ a.work.1,
      )

  -- `close` of an open scheduler whose invariant holds answers every queued item with the closed
  -- error, once for each time it is queued, and no other; it leaves no item queued and no queued
  -- count; what runs keeps running; `done` is set just when nothing runs; and the scheduler is
  -- closed.
  pub close_lem :
      (s : Scheduler P)
      → s.closed ≡ false
      → Inv s
      → let t = close slots env s in
        ((n : ℕ) → told n t.sent ≡ told n s.sent + hits (has_id n) (waiting s.queues))
        × (hits (λ x. true) (waiting t.queues) ≡ 0)
        × (t.total.queued ≡ 0)
        × (t.running ≡ s.running)
        × (t.done ≡ is_nil s.running)
        × (t.closed ≡ true)
  unfolding close
  close_lem s e v =
      let s₀ = record s { closed = true } in
      let s₁ = swept slots env control s₀ in
      let s₂ = swept slots env exec s₁ in
      let s₃ = swept slots env bulk s₂ in
      let v₀ : Inv s₀ = record {
        queues = v.queues;
        counts = Consistent-same s s₀ (refl, refl, refl, refl, refl) v.counts;
        sorted = v.sorted;
        caps = v.caps;
      } in
      let v₁ : Inv s₁ = (close_lane-Keeps slots env control s₀ v₀).0 in
      let v₂ : Inv s₂ = (close_lane-Keeps slots env exec s₁ v₁).0 in
      let v₃ : Inv s₃ = (close_lane-Keeps slots env bulk s₂ v₂).0 in
      let (answered, none, running, closed) =
        Sweeps-all s₀ s₁ s₂ s₃ (swept-Sweeps control s₀ v₀) (swept-Sweeps exec s₁ v₁)
          (swept-Sweeps bulk s₂ v₂) in
      rw e (answered, none, v₃.counts.total.queued ∙ none, running, ap is_nil running, closed)
