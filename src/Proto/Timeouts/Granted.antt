-- ===== src/Proto/Timeouts/Granted.antt =====
-- What a budget becomes, and what is kept of a request that is sent.
use rdev.Base.{
  ◌≡◌, sym, subst, true, false, ◌⊎◌, inl, inr, Option, none, some, same, arith, Bool-cases,
}
use rdev.Base.Int.{ℤ, pos, ltb_ℤ, ◌≤ℤ◌}
use rdev.Proto.Timeouts.{
  checked, ExecParams, ResourceEnvelope, JobParams, Request, max_timeout_seconds, resolve_timeout,
  present, envelope, default_exec_timeout_seconds, default_job_wait_seconds,
  default_job_wall_timeout_seconds,
}

-- A budget between a second and the largest.
abbrev pub Bounded : ℤ → Type 0
Bounded n = (pos 1 ≤ℤ n) × (n ≤ℤ max_timeout_seconds)

-- What `n` is where a caller asks for `s`: `s` itself within its bounds, and the default for none.
abbrev pub Granted : ℤ → ℤ → ℤ → Type 0
Granted s fallback n =
    (s ≤ℤ max_timeout_seconds) × (((s ≡ pos 0) × (n ≡ fallback)) ⊎ ((pos 1 ≤ℤ s) × (n ≡ s)))

pub resolve_timeout-Granted : (s d n : ℤ) → resolve_timeout s d ≡ checked n → Granted s d n
unfolding resolve_timeout
resolve_timeout-Granted s d n h = elim (Bool-cases (ltb_ℤ (pos 0) s)) [
  | inl y ↦ (ground arith, inr (ground arith, ground arith))
  | inr z ↦ (ground arith, inl (ground arith, ground arith))
]

pub Granted-Bounded : (s d n : ℤ) → Bounded d → Granted s d n → Bounded n
Granted-Bounded s d n b (u, inl (z, e)) = subst Bounded (sym e) b
Granted-Bounded s d n b (u, inr (l, e)) = subst Bounded (sym e) (l, u)

pub resolve_timeout-again : (n d : ℤ) → Bounded n → resolve_timeout n d ≡ checked n
unfolding resolve_timeout
resolve_timeout-again n d b = ground arith

pub present-some {ℓ} : {A : Type ℓ} (o : Option A) (a : A) → present o ≡ checked a → o ≡ some a
present-some none a h = cc
present-some (some b) a h = ground arith

-- What is kept of the parameters, and the budget that they get.
module _ {R : Type 0} where
  abbrev pub ExecGranted : Option (ExecParams R) → Option (ExecParams R) → Type 0
  ExecGranted asked sent =
      (p : ExecParams R) × (m : ExecParams R) × (asked ≡ some p)
      × (sent ≡ some m)
      × (m.rest ≡ p.rest)
      × Granted p.timeout_sec default_exec_timeout_seconds m.timeout_sec

  abbrev pub WaitGranted : Option (JobParams R) → Option (JobParams R) → Type 0
  WaitGranted asked sent =
      (p : JobParams R) × (m : JobParams R) × (asked ≡ some p)
      × (sent ≡ some m)
      × (m.rest ≡ p.rest)
      × (m.resources ≡ p.resources)
      × Granted p.wait_timeout_sec default_job_wait_seconds m.wait_timeout_sec

  -- An envelope that is not given is one without a budget, whose other fields are `no_rest`.
  abbrev pub WallGranted : R → Option (JobParams R) → Option (JobParams R) → Type 0
  WallGranted no_rest asked sent =
      (p : JobParams R) × (m : JobParams R) × (r : ResourceEnvelope R) × (asked ≡ some p)
      × (sent ≡ some m)
      × (m.resources ≡ some r)
      × (m.rest ≡ p.rest)
      × (m.wait_timeout_sec ≡ p.wait_timeout_sec)
      × (r.rest ≡ (envelope no_rest p.resources).rest)
      × Granted (envelope no_rest p.resources).wall_timeout_sec default_job_wall_timeout_seconds
          r.wall_timeout_sec

  -- `n` is what is sent for the request `q`: the budget of its operation is granted, and all else
  -- is the request's.
  pub record Budgeted (no_rest : R) (q n : Request R) : Type 0 where
    pub op : n.op ≡ q.op
    pub rest : n.rest ≡ q.rest
    pub exec : same n.op "exec" ≡ true → ExecGranted q.exec n.exec
    pub exec_kept : same n.op "exec" ≡ false → n.exec ≡ q.exec
    pub wait : same n.op "job_wait" ≡ true → WaitGranted q.job n.job
    pub wall : same n.op "job_start" ≡ true → WallGranted no_rest q.job n.job
    pub job_kept : same n.op "job_wait" ≡ false → same n.op "job_start" ≡ false → n.job ≡ q.job
