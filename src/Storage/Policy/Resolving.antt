-- ===== src/Storage/Policy/Resolving.antt =====
-- What `Validate` asks of a storage policy, and what an override of it can change.
use rdev.Base.{
  ◌≡◌, ◌↔◌, ◌⊎◌, inl, inr, sym, subst, ap, ◌∙◌, String, true, false, not, ◌&&◌, ◌||◌, none, some,
  arith, same, same_iff, Option-cases, Bool-cases,
}
use rdev.Base.Int.{ℤ, pos, ◌≤ℤ◌}
use rdev.Storage.Policy.{
  PolicyEnv, ScopePolicy, PerJobPolicy, CleanupPolicy, StoragePolicy, resolved, hard_max_bytes,
  hard_per_job_bytes, hard_keep_last_jobs, validate_scope, validate_limits, validate_policy,
  merge_scope, merge_policy, resolve, bad_duration,
}

pub record SoundLimits (j : PerJobPolicy) (c : CleanupPolicy) : Type 0 where
  pub stdout : (pos 1 ≤ℤ j.max_stdout_bytes) × (j.max_stdout_bytes ≤ℤ hard_per_job_bytes)
  pub stderr : (pos 1 ≤ℤ j.max_stderr_bytes) × (j.max_stderr_bytes ≤ℤ hard_per_job_bytes)
  pub interval : pos 0 ≤ℤ c.interval_sec
  pub delete_bytes : (pos 0 ≤ℤ c.max_delete_bytes) × (c.max_delete_bytes ≤ℤ hard_max_bytes)
  pub delete_jobs : (pos 0 ≤ℤ c.max_delete_jobs) × (c.max_delete_jobs ≤ℤ hard_keep_last_jobs)
  pub scan_jobs : (pos 0 ≤ℤ c.max_scan_jobs) × (c.max_scan_jobs ≤ℤ hard_keep_last_jobs)
  pub strategy :
      (j.on_log_limit ≡ "truncate_oldest")
      ⊎ ((j.on_log_limit ≡ "discard_new") ⊎ (j.on_log_limit ≡ "stop_job"))

strategy_iff :
    (s : String)
    → ((same s "truncate_oldest" || same s "discard_new" || same s "stop_job") ≡ true)
      ↔ ((s ≡ "truncate_oldest") ⊎ ((s ≡ "discard_new") ⊎ (s ≡ "stop_job")))
strategy_iff s =
    ground (arith, same_iff s "truncate_oldest", same_iff s "discard_new", same_iff s "stop_job")

module _ {F : Type 0} (env : PolicyEnv F) where
  pub record SoundScope (s : ScopePolicy F) : Type 0 where
    pub size : (pos 1 ≤ℤ s.max_bytes) × (s.max_bytes ≤ℤ hard_max_bytes)
    pub seconds : pos 0 ≤ℤ s.retention_sec
    pub kept : (pos 0 ≤ℤ s.keep_last_jobs) × (s.keep_last_jobs ≤ℤ hard_keep_last_jobs)
    pub duration :
        (s.retention ≡ "") ⊎ ((d : ℤ) × (env.parse_duration s.retention ≡ some d) × (pos 0 ≤ℤ d))
    pub high :
        (env.is_nan s.high_watermark ≡ false)
        × (env.is_inf s.high_watermark ≡ false)
        × (env.above_zero s.high_watermark ≡ true)
        × (env.above_one s.high_watermark ≡ false)
    pub low :
        (env.is_nan s.low_watermark ≡ false)
        × (env.is_inf s.low_watermark ≡ false)
        × (env.above_zero s.low_watermark ≡ true)
        × (env.above s.low_watermark s.high_watermark ≡ false)
    pub free : (pos 0 ≤ℤ s.min_free_bytes) × (s.min_free_bytes ≤ℤ hard_max_bytes)

  duration_iff :
      (r : String)
      → ((not (same r "") && bad_duration env r) ≡ false)
        ↔ ((r ≡ "") ⊎ ((d : ℤ) × (env.parse_duration r ≡ some d) × (pos 0 ≤ℤ d)))
  duration_iff r = elim (Option-cases (env.parse_duration r)) [
    | inl n ↦ (λ h. ground (arith, same_iff r "", n), λ h. ground (arith, same_iff r "", n))
    | inr (d, e) ↦ (
      λ h. elim (Bool-cases (same r "")) [
        | inl y ↦ inl ((same_iff r "").0 y)
        | inr n ↦ inr (d, e, ground arith)
      ],
      λ h. ground (arith, same_iff r "", e),
    )
  ]

  validate_scope_iff :
      (name : String) (s : ScopePolicy F) → (validate_scope env name s ≡ none) ↔ SoundScope s
  unfolding validate_scope
  validate_scope_iff name s = (
    λ h. record {
      size = (ground arith, ground arith);
      seconds = ground arith;
      kept = (ground arith, ground arith);
      duration = (duration_iff s.retention).0 (ground arith);
      high = ground arith;
      low = ground arith;
      free = (ground arith, ground arith);
    },
    λ v. ground (
      arith,
      v.size,
      v.seconds,
      v.kept,
      (duration_iff s.retention).1 v.duration,
      v.high,
      v.low,
      v.free,
    ),
  )

  validate_limits_iff :
      (j : PerJobPolicy) (c : CleanupPolicy) → (validate_limits env j c ≡ none) ↔ SoundLimits j c
  unfolding validate_limits
  validate_limits_iff j c = (
    λ h. record {
      stdout = (ground arith, ground arith);
      stderr = (ground arith, ground arith);
      interval = ground arith;
      delete_bytes = (ground arith, ground arith);
      delete_jobs = (ground arith, ground arith);
      scan_jobs = (ground arith, ground arith);
      strategy = (strategy_iff j.on_log_limit).0 (ground arith);
    },
    λ v. ground (
      arith,
      v.stdout,
      v.stderr,
      v.interval,
      v.delete_bytes,
      v.delete_jobs,
      v.scan_jobs,
      (strategy_iff j.on_log_limit).1 v.strategy,
    ),
  )

  pub record SoundPolicy (p : StoragePolicy F) : Type 0 where
    pub local : SoundScope p.local
    pub remote_state : SoundScope p.remote_state
    pub limits : SoundLimits p.per_job p.cleanup

  validate_policy-none :
      (p : StoragePolicy F)
      → (validate_policy env p ≡ none) ↔ (
          (validate_scope env "local" p.local ≡ none)
          × (validate_scope env "remote_state" p.remote_state ≡ none)
          × (validate_limits env p.per_job p.cleanup ≡ none))
  unfolding validate_policy
  validate_policy-none p = (λ h. ground arith, λ h. ground arith)

  -- `Validate` accepts a storage policy just when it is sound: every limit is between its bounds,
  -- each duration that is not empty parses and is not negative, the watermarks are numbers above
  -- 0 with the low one at most the high one and the high one at most 1, and the strategy is one
  -- of the three.
  pub validate_policy_iff : (p : StoragePolicy F) → (validate_policy env p ≡ none) ↔ SoundPolicy p
  validate_policy_iff p = (
    λ h.
        let (a, b, c) = (validate_policy-none p).0 h in
        record {
          local = (validate_scope_iff "local" p.local).0 a;
          remote_state = (validate_scope_iff "remote_state" p.remote_state).0 b;
          limits = (validate_limits_iff p.per_job p.cleanup).0 c;
        },
    λ v. (validate_policy-none p).1 (
      (validate_scope_iff "local" p.local).1 v.local,
      (validate_scope_iff "remote_state" p.remote_state).1 v.remote_state,
      (validate_limits_iff p.per_job p.cleanup).1 v.limits,
    ),
  )

-- Each of the seven limits of `r` that `Resolve` compares is at most that of `g`: the bytes of the
-- two scopes and of the two streams, and the bytes, jobs and scanned jobs of a cleanup pass.
pub record Narrower {F : Type 0} (g r : StoragePolicy F) : Type 0 where
  pub local_bytes : r.local.max_bytes ≤ℤ g.local.max_bytes
  pub remote_bytes : r.remote_state.max_bytes ≤ℤ g.remote_state.max_bytes
  pub stdout_bytes : r.per_job.max_stdout_bytes ≤ℤ g.per_job.max_stdout_bytes
  pub stderr_bytes : r.per_job.max_stderr_bytes ≤ℤ g.per_job.max_stderr_bytes
  pub delete_bytes : r.cleanup.max_delete_bytes ≤ℤ g.cleanup.max_delete_bytes
  pub delete_jobs : r.cleanup.max_delete_jobs ≤ℤ g.cleanup.max_delete_jobs
  pub scan_jobs : r.cleanup.max_scan_jobs ≤ℤ g.cleanup.max_scan_jobs

module _ {F : Type 0} (env : PolicyEnv F) (g o : StoragePolicy F) where
  resolve-resolved :
      (r : StoragePolicy F)
      → resolve env g o ≡ resolved r
      → (r ≡ merge_policy env g o)
        × (validate_policy env (merge_policy env g o) ≡ none)
        × Narrower g (merge_policy env g o)
  unfolding resolve
  resolve-resolved r h = (
    ground arith,
    ground arith,
    record {
      local_bytes = ground arith;
      remote_bytes = ground arith;
      stdout_bytes = ground arith;
      stderr_bytes = ground arith;
      delete_bytes = ground arith;
      delete_jobs = ground arith;
      scan_jobs = ground arith;
    },
  )

  pub resolve_succeeds :
      SoundPolicy env (merge_policy env g o)
      → Narrower g (merge_policy env g o)
      → resolve env g o ≡ resolved (merge_policy env g o)
  unfolding resolve
  resolve_succeeds v n = ground (
    arith,
    (validate_policy_iff env (merge_policy env g o)).1 v,
    n.local_bytes,
    n.remote_bytes,
    n.stdout_bytes,
    n.stderr_bytes,
    n.delete_bytes,
    n.delete_jobs,
    n.scan_jobs,
  )

  asked-Narrower :
      SoundPolicy env (merge_policy env g o) → Narrower g o → Narrower g (merge_policy env g o)
  unfolding merge_policy merge_scope
  asked-Narrower v n = record {
    local_bytes = ground (arith, n.local_bytes);
    remote_bytes = ground (arith, n.remote_bytes);
    stdout_bytes = ground (arith, n.stdout_bytes);
    stderr_bytes = ground (arith, n.stderr_bytes);
    delete_bytes = ground (arith, n.delete_bytes);
    delete_jobs = ground (arith, n.delete_jobs);
    scan_jobs = ground (arith, n.scan_jobs);
  }

  pub Narrower-asked :
      SoundPolicy env (merge_policy env g o) → Narrower g (merge_policy env g o) → Narrower g o
  unfolding merge_policy merge_scope
  Narrower-asked v n = record {
    local_bytes = ground (arith, n.local_bytes, v.local.size);
    remote_bytes = ground (arith, n.remote_bytes, v.remote_state.size);
    stdout_bytes = ground (arith, n.stdout_bytes, v.limits.stdout);
    stderr_bytes = ground (arith, n.stderr_bytes, v.limits.stderr);
    delete_bytes = ground (arith, n.delete_bytes, v.limits.delete_bytes);
    delete_jobs = ground (arith, n.delete_jobs, v.limits.delete_jobs);
    scan_jobs = ground (arith, n.scan_jobs, v.limits.scan_jobs);
  }

  -- `resolve` gives a policy just when this is the override laid over the global policy, is sound,
  -- and the override itself asks for no more than the global policy in any of seven limits: the
  -- bytes of the two scopes, the bytes of the two streams of a job, and the bytes, the jobs and
  -- the scanned jobs of a cleanup pass. The other fields are not compared.
  pub resolve_iff :
      (r : StoragePolicy F)
      → (resolve env g o ≡ resolved r)
        ↔ ((r ≡ merge_policy env g o) × SoundPolicy env r × Narrower g o)
  resolve_iff r = (
    λ h.
        let (e, v, n) = resolve-resolved r h in
        let w = (validate_policy_iff env (merge_policy env g o)).0 v in
        (e, subst (λ q. SoundPolicy env q) (sym e) w, Narrower-asked w n),
    λ (e, v, n).
        let w = subst (λ q. SoundPolicy env q) e v in
        resolve_succeeds w (asked-Narrower w n) ∙ ap resolved (sym e),
  )
