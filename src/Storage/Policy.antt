-- ===== src/Storage/Policy.antt =====
-- internal/storage/policy.go. What `float64`, `time.ParseDuration` and encoding/json do is a parameter.
pub mod Resolving
pub mod Loading
pub mod Again
pub mod Tests
use rdev.Base.{
  ℕ, zero, suc, ◌+◌, ◌-◌, ◌/◌, String, Bool, true, false, not, ◌&&◌, ◌||◌, Option, none, some, List,
  [], ◌∷◌, ltb, leb, same, if◌then◌else◌,
}
use rdev.Base.Int.{ℤ, pos, negsuc, ltb_ℤ}

-- The tests on watermarks, and a duration's nanoseconds.
pub record PolicyEnv (F : Type 0) : Type 0 where
  pub is_nan : F → Bool
  pub is_inf : F → Bool
  pub is_zero : F → Bool
  pub above_zero : F → Bool
  pub above_one : F → Bool
  pub above : F → F → Bool
  pub parse_duration : String → Option ℤ

pub record ScopePolicy (F : Type 0) : Type 0 where
  pub max_bytes : ℤ
  pub retention_sec : ℤ
  pub retention : String
  pub keep_last_jobs : ℤ
  pub high_watermark : F
  pub low_watermark : F
  pub min_free_bytes : ℤ

pub record PerJobPolicy : Type 0 where
  pub max_stdout_bytes : ℤ
  pub max_stderr_bytes : ℤ
  pub on_log_limit : String

pub record CleanupPolicy : Type 0 where
  pub interval_sec : ℤ
  pub max_delete_bytes : ℤ
  pub max_delete_jobs : ℤ
  pub max_scan_jobs : ℤ
  pub dry_run : Bool

pub record StoragePolicy (F : Type 0) : Type 0 where
  pub local : ScopePolicy F
  pub remote_state : ScopePolicy F
  pub per_job : PerJobPolicy
  pub cleanup : CleanupPolicy

abbrev pub hard_max_bytes : ℤ
hard_max_bytes = pos 68719476736

abbrev pub hard_per_job_bytes : ℤ
hard_per_job_bytes = pos 2147483648

abbrev pub hard_keep_last_jobs : ℤ
hard_keep_last_jobs = pos 100000

-- The watermarks .85 and .70 come in from outside.
unfoldable pub default_policy : {F : Type 0} → F → F → StoragePolicy F
default_policy high low =
    let week : ScopePolicy _ = record {
      max_bytes = pos 1073741824;
      retention_sec = pos 604800;
      retention = "168h";
      keep_last_jobs = pos 100;
      high_watermark = high;
      low_watermark = low;
      min_free_bytes = pos 0;
    } in
    record {
      local = week;
      remote_state = record week { max_bytes = pos 5368709120; min_free_bytes = pos 2147483648 };
      per_job = record {
        max_stdout_bytes = pos 134217728;
        max_stderr_bytes = pos 134217728;
        on_log_limit = "truncate_oldest";
      };
      cleanup = record {
        interval_sec = pos 300;
        max_delete_bytes = pos 1073741824;
        max_delete_jobs = pos 100;
        max_scan_jobs = pos 1000;
        dry_run = false;
      };
    }

pub data StorageError : Type 0 where
  bad_max_bytes bad_keep bad_retention bad_watermarks bad_min_free : String → StorageError
  bad_per_job bad_cleanup bad_strategy widens_limit widens_cleanup unreadable undecodable :
      StorageError

abbrev pub negative : ℤ → Bool
negative a = ltb_ℤ a (pos 0)

-- `a <= 0`
abbrev pub not_positive : ℤ → Bool
not_positive a = ltb_ℤ a (pos 1)

abbrev pub is_zero_ℤ : ℤ → Bool
is_zero_ℤ a = not (ltb_ℤ a (pos 0)) && not (ltb_ℤ (pos 0) a)

-- `a < 0 || a > bound`
abbrev pub outside : ℤ → ℤ → Bool
outside bound a = negative a || ltb_ℤ bound a

-- `int64(d / time.Second)`, which rounds to zero.
abbrev pub whole_seconds : ℤ → ℤ
whole_seconds (pos n) = pos (n / 1000000000)
whole_seconds (negsuc n) = elim (suc n / 1000000000) [ zero ↦ pos 0 | suc s ↦ negsuc s ]

abbrev pub override_ℤ : ℤ → ℤ → ℤ
override_ℤ dst src = if is_zero_ℤ src then dst else src

-- What `os.ReadFile` finds.
pub data FileRead : Type 0 where
  missing unreadable_file : FileRead
  contents : List ℕ → FileRead

pub data Resolved (F : Type 0) : Type 0 where
  resolved : StoragePolicy F → Resolved F
  refused : StorageError → Resolved F

module _ {F : Type 0} (env : PolicyEnv F) where
  -- A duration that is not parsed or negative.
  abbrev pub bad_duration : String → Bool
  bad_duration retention = elim (env.parse_duration retention) [ none ↦ true | some d ↦ negative d ]

  unfoldable pub validate_scope : String → ScopePolicy F → Option StorageError
  validate_scope name s =
      if not_positive s.max_bytes || ltb_ℤ hard_max_bytes s.max_bytes
      then some (bad_max_bytes name)
      else if negative s.retention_sec || outside hard_keep_last_jobs s.keep_last_jobs
      then some (bad_keep name)
      else if not (same s.retention "") && bad_duration s.retention
      then some (bad_retention name)
      else if env.is_nan s.high_watermark
          || env.is_inf s.high_watermark
          || env.is_nan s.low_watermark
          || env.is_inf s.low_watermark
          || not (env.above_zero s.high_watermark)
          || env.above_one s.high_watermark
          || not (env.above_zero s.low_watermark)
          || env.above s.low_watermark s.high_watermark
      then some (bad_watermarks name)
      else if outside hard_max_bytes s.min_free_bytes
      then some (bad_min_free name)
      else none

  unfoldable pub validate_limits : PerJobPolicy → CleanupPolicy → Option StorageError
  validate_limits j c =
      if not_positive j.max_stdout_bytes
        || ltb_ℤ hard_per_job_bytes j.max_stdout_bytes
        || not_positive j.max_stderr_bytes
        || ltb_ℤ hard_per_job_bytes j.max_stderr_bytes
      then some bad_per_job
      else if negative c.interval_sec
          || outside hard_max_bytes c.max_delete_bytes
          || outside hard_keep_last_jobs c.max_delete_jobs
          || outside hard_keep_last_jobs c.max_scan_jobs
      then some bad_cleanup
      else if same j.on_log_limit "truncate_oldest"
          || same j.on_log_limit "discard_new"
          || same j.on_log_limit "stop_job"
      then none
      else some bad_strategy

  -- `Policy.Validate`
  unfoldable pub validate_policy : StoragePolicy F → Option StorageError
  validate_policy p = elim (validate_scope "local" p.local) [
    | some e ↦ some e
    | none ↦ elim (validate_scope "remote_state" p.remote_state) [
      | some e ↦ some e
      | none ↦ validate_limits p.per_job p.cleanup
    ]
  ]

  -- `mergeScope`
  unfoldable pub merge_scope : ScopePolicy F → ScopePolicy F → ScopePolicy F
  merge_scope dst src =
      let seconds = override_ℤ dst.retention_sec src.retention_sec in
      record {
        max_bytes = override_ℤ dst.max_bytes src.max_bytes;
        retention_sec =
            if same src.retention "" then seconds else elim (env.parse_duration src.retention) [
              | none ↦ seconds
              | some d ↦ whole_seconds d
            ];
        retention = if same src.retention "" then dst.retention else src.retention;
        keep_last_jobs = override_ℤ dst.keep_last_jobs src.keep_last_jobs;
        high_watermark =
            if env.is_zero src.high_watermark then dst.high_watermark else src.high_watermark;
        low_watermark =
            if env.is_zero src.low_watermark then dst.low_watermark else src.low_watermark;
        min_free_bytes = override_ℤ dst.min_free_bytes src.min_free_bytes;
      }

  unfoldable pub merge_policy : StoragePolicy F → StoragePolicy F → StoragePolicy F
  merge_policy global src = record {
    local = merge_scope global.local src.local;
    remote_state = merge_scope global.remote_state src.remote_state;
    per_job = record {
      max_stdout_bytes = override_ℤ global.per_job.max_stdout_bytes src.per_job.max_stdout_bytes;
      max_stderr_bytes = override_ℤ global.per_job.max_stderr_bytes src.per_job.max_stderr_bytes;
      on_log_limit =
          if same src.per_job.on_log_limit ""
          then global.per_job.on_log_limit
          else src.per_job.on_log_limit;
    };
    cleanup = record {
      interval_sec = override_ℤ global.cleanup.interval_sec src.cleanup.interval_sec;
      max_delete_bytes = override_ℤ global.cleanup.max_delete_bytes src.cleanup.max_delete_bytes;
      max_delete_jobs = override_ℤ global.cleanup.max_delete_jobs src.cleanup.max_delete_jobs;
      max_scan_jobs = override_ℤ global.cleanup.max_scan_jobs src.cleanup.max_scan_jobs;
      dry_run = src.cleanup.dry_run || global.cleanup.dry_run;
    };
  }

  unfoldable pub resolve : StoragePolicy F → StoragePolicy F → Resolved F
  resolve global src =
      let r = merge_policy global src in
      elim (validate_policy r) [
        | some e ↦ refused e
        | none ↦
            if ltb_ℤ global.local.max_bytes r.local.max_bytes
              || ltb_ℤ global.remote_state.max_bytes r.remote_state.max_bytes
              || ltb_ℤ global.per_job.max_stdout_bytes r.per_job.max_stdout_bytes
              || ltb_ℤ global.per_job.max_stderr_bytes r.per_job.max_stderr_bytes
            then refused widens_limit
            else if ltb_ℤ global.cleanup.max_delete_bytes r.cleanup.max_delete_bytes
                || ltb_ℤ global.cleanup.max_delete_jobs r.cleanup.max_delete_jobs
                || ltb_ℤ global.cleanup.max_scan_jobs r.cleanup.max_scan_jobs
            then refused widens_cleanup
            else resolved r
      ]

  -- A scope whose seconds are those of its duration.
  abbrev pub with_seconds : ScopePolicy F → Option (ScopePolicy F)
  with_seconds s = if same s.retention "" then some s else elim (env.parse_duration s.retention) [
    | none ↦ none
    | some d ↦ if negative d then none else some (record s { retention_sec = whole_seconds d })
  ]

  -- Go visits the two scopes in any order, which shows only in the name that an error has.
  unfoldable pub decoded_policy : StoragePolicy F → Resolved F
  decoded_policy p = elim (with_seconds p.local) [
    | none ↦ refused (bad_retention "local")
    | some l ↦ elim (with_seconds p.remote_state) [
      | none ↦ refused (bad_retention "remote_state")
      | some r ↦
          let q = record p { local = l; remote_state = r } in
          elim (validate_policy q) [ none ↦ resolved q | some e ↦ refused e ]
    ]
  ]

  -- `Load`; `decode` is `json.Unmarshal` onto the defaults.
  unfoldable pub load_policy :
      (StoragePolicy F → List ℕ → Option (StoragePolicy F))
      → StoragePolicy F
      → FileRead
      → Resolved F
  load_policy decode defaults missing = resolved defaults
  load_policy decode defaults unreadable_file = refused unreadable
  load_policy decode defaults (contents b) = elim (decode defaults b) [
    | none ↦ refused undecodable
    | some p ↦ decoded_policy p
  ]
