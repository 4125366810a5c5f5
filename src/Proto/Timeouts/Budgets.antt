-- ===== src/Proto/Timeouts/Budgets.antt =====
-- The budgets of a request that is sent.
use rdev.Base.{
  ◌≡◌, refl, sym, subst, ◌∙◌, String, true, false, inl, inr, some, same, same_iff, arith,
  Bool-cases,
}
use rdev.Proto.Timeouts.{
  Checked, checked, rejected, ◌>>=◌, ExecParams, ResourceEnvelope, JobParams, Request,
  resolve_timeout, present, envelope, normalize, normalize_timeouts, default_exec_timeout_seconds,
  default_job_wait_seconds, default_job_wall_timeout_seconds,
}
use rdev.Proto.Timeouts.Granted.{
  Granted-Bounded, resolve_timeout-Granted, resolve_timeout-again, present-some, Budgeted,
}

bind-checked {ℓ κ} :
    {A : Type ℓ} {B : Type κ} (m : Checked A) (f : A → Checked B) {b : B}
    → (m >>= f) ≡ checked b
    → (a : A) × (m ≡ checked a) × (f a ≡ checked b)
bind-checked (checked a) f h = (a, refl, h)
bind-checked (rejected e) f h = cc

absent : true ≡ false → ⊥
absent e = cc

other_op : (s a b : String) → same a b ≡ false → same s a ≡ true → same s b ≡ false
other_op s a b d h = ground (arith, same_iff s a, same_iff s b, same_iff a b)

module _ {R : Type 0} (no_rest : R) (q n : Request R) where
  exec-Budgeted : same q.op "exec" ≡ true → normalize no_rest q ≡ checked n → Budgeted no_rest q n
  unfolding normalize
  exec-Budgeted y h =
      let (p, a, h₁) = bind-checked (present q.exec) _ (rw y at h) in
      let (t, b, h₂) =
        bind-checked (resolve_timeout p.timeout_sec default_exec_timeout_seconds) _ h₁ in
      let m : ExecParams R = record p { timeout_sec = t } in
      let e : record q { exec = some m } ≡ n = ground arith in
      let w = other_op q.op "exec" "job_wait" refl y in
      let l = other_op q.op "exec" "job_start" refl y in
      subst (Budgeted no_rest q) e record {
        op = refl;
        rest = refl;
        exec = λ o. (
          p,
          m,
          present-some q.exec p a,
          refl,
          refl,
          resolve_timeout-Granted p.timeout_sec default_exec_timeout_seconds t b,
        );
        exec_kept = λ o. absurd (absent (sym y ∙ o));
        wait = λ o. absurd (absent (sym o ∙ w));
        wall = λ o. absurd (absent (sym o ∙ l));
        job_kept = λ x z. refl;
      }

  wait-Budgeted :
      same q.op "exec" ≡ false
      → same q.op "job_wait" ≡ true
      → normalize no_rest q ≡ checked n
      → Budgeted no_rest q n
  unfolding normalize
  wait-Budgeted x y h =
      let (p, a, h₁) = bind-checked (present q.job) _ (rw (x, y) at h) in
      let (t, b, h₂) =
        bind-checked (resolve_timeout p.wait_timeout_sec default_job_wait_seconds) _ h₁ in
      let m : JobParams R = record p { wait_timeout_sec = t } in
      let e : record q { job = some m } ≡ n = ground arith in
      let l = other_op q.op "job_wait" "job_start" refl y in
      subst (Budgeted no_rest q) e record {
        op = refl;
        rest = refl;
        exec = λ o. absurd (absent (sym o ∙ x));
        exec_kept = λ o. refl;
        wait = λ o. (
          p,
          m,
          present-some q.job p a,
          refl,
          refl,
          refl,
          resolve_timeout-Granted p.wait_timeout_sec default_job_wait_seconds t b,
        );
        wall = λ o. absurd (absent (sym o ∙ l));
        job_kept = λ o z. absurd (absent (sym y ∙ o));
      }

  wall-Budgeted :
      same q.op "exec" ≡ false
      → same q.op "job_wait" ≡ false
      → same q.op "job_start" ≡ true
      → normalize no_rest q ≡ checked n
      → Budgeted no_rest q n
  unfolding normalize
  wall-Budgeted x w y h =
      let (p, a, h₁) = bind-checked (present q.job) _ (rw (x, w, y) at h) in
      let r = envelope no_rest p.resources in
      let (t, b, h₂) =
        bind-checked (resolve_timeout r.wall_timeout_sec default_job_wall_timeout_seconds) _ h₁ in
      let s : ResourceEnvelope R = record r { wall_timeout_sec = t } in
      let m : JobParams R = record p { resources = some s } in
      let e : record q { job = some m } ≡ n = ground arith in
      subst (Budgeted no_rest q) e record {
        op = refl;
        rest = refl;
        exec = λ o. absurd (absent (sym o ∙ x));
        exec_kept = λ o. refl;
        wait = λ o. absurd (absent (sym o ∙ w));
        wall = λ o. (
          p,
          m,
          s,
          present-some q.job p a,
          refl,
          refl,
          refl,
          refl,
          refl,
          resolve_timeout-Granted r.wall_timeout_sec default_job_wall_timeout_seconds t b,
        );
        job_kept = λ z o. absurd (absent (sym y ∙ o));
      }

  other-Budgeted :
      same q.op "exec" ≡ false
      → same q.op "job_wait" ≡ false
      → same q.op "job_start" ≡ false
      → normalize no_rest q ≡ checked n
      → Budgeted no_rest q n
  unfolding normalize
  other-Budgeted x w v h =
      let e : q ≡ n = ground arith in
      subst (Budgeted no_rest q) e record {
        op = refl;
        rest = refl;
        exec = λ o. absurd (absent (sym o ∙ x));
        exec_kept = λ o. refl;
        wait = λ o. absurd (absent (sym o ∙ w));
        wall = λ o. absurd (absent (sym o ∙ v));
        job_kept = λ y z. refl;
      }

  normalize-Budgeted : normalize no_rest q ≡ checked n → Budgeted no_rest q n
  normalize-Budgeted h = elim (Bool-cases (same q.op "exec")) [
    | inl y ↦ exec-Budgeted y h
    | inr x ↦ elim (Bool-cases (same q.op "job_wait")) [
      | inl y ↦ wait-Budgeted x y h
      | inr w ↦ elim (Bool-cases (same q.op "job_start")) [
        | inl y ↦ wall-Budgeted x w y h
        | inr v ↦ other-Budgeted x w v h
      ]
    ]
  ]

module _ {R : Type 0} (no_rest : R) (q n : Request R) (b : Budgeted no_rest q n) where
  exec-fixed : same n.op "exec" ≡ true → normalize no_rest n ≡ checked n
  unfolding normalize
  exec-fixed y =
      let (p, m, _, e, _, g) = b.exec y in
      let d = default_exec_timeout_seconds in
      let v = Granted-Bounded p.timeout_sec d m.timeout_sec (omega arith, omega arith) g in
      rw (y, e, resolve_timeout-again m.timeout_sec d v) refl

  wait-fixed :
      same n.op "exec" ≡ false → same n.op "job_wait" ≡ true → normalize no_rest n ≡ checked n
  unfolding normalize
  wait-fixed x y =
      let (p, m, _, e, _, _, g) = b.wait y in
      let d = default_job_wait_seconds in
      let v =
        Granted-Bounded p.wait_timeout_sec d m.wait_timeout_sec (omega arith, omega arith) g in
      rw (x, y, e, resolve_timeout-again m.wait_timeout_sec d v) refl

  wall-fixed :
      same n.op "exec" ≡ false
      → same n.op "job_wait" ≡ false
      → same n.op "job_start" ≡ true
      → normalize no_rest n ≡ checked n
  unfolding normalize
  wall-fixed x w y =
      let (p, m, r, _, e, f, _, _, _, g) = b.wall y in
      let d = default_job_wall_timeout_seconds in
      let asked = (envelope no_rest p.resources).wall_timeout_sec in
      let v = Granted-Bounded asked d r.wall_timeout_sec (omega arith, omega arith) g in
      rw (x, w, y, e, f, resolve_timeout-again r.wall_timeout_sec d v) refl

  normalize-fixed : normalize no_rest n ≡ checked n
  unfolding normalize
  normalize-fixed = elim (Bool-cases (same n.op "exec")) [
    | inl y ↦ exec-fixed y
    | inr x ↦ elim (Bool-cases (same n.op "job_wait")) [
      | inl y ↦ wait-fixed x y
      | inr w ↦ elim (Bool-cases (same n.op "job_start")) [
        | inl y ↦ wall-fixed x w y
        | inr v ↦ rw (x, w, v) refl
      ]
    ]
  ]

-- When `normalize_timeouts` accepts a request to run a command, to wait for a job or to start one,
-- the budget of this operation is the caller's, from 1 to 3600 seconds, or the operation's default
-- where the caller's is 0. Everything else of the request, of its parameters and of a job's envelope
-- (an empty one, where a job to start has none) stays as it was, and so does the whole request of
-- any other operation. `normalize_timeouts` gives the result back unchanged.
pub normalize-normalize :
    {R : Type 0} (no_rest : R) (q n : Request R)
    → normalize_timeouts no_rest (some q) ≡ checked n
    → Budgeted no_rest q n × (normalize_timeouts no_rest (some n) ≡ checked n)
unfolding normalize_timeouts
normalize-normalize no_rest q n h =
    let b = normalize-Budgeted no_rest q n h in (b, normalize-fixed no_rest q n b)
