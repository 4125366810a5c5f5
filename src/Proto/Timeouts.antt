-- ===== src/Proto/Timeouts.antt =====
-- internal/proto/timeouts.go: the budgets of a request. What the code does not look at of a request,
-- of its parameters and of an envelope is of a type of its own, and is copied.
pub mod Granted
pub mod Budgets
pub mod Tests
use rdev.Base.{ℕ, String, Bool, true, false, Option, none, some, same, if◌then◌else◌}
use rdev.Base.Int.{ℤ, pos, negsuc, ltb_ℤ}

pub data TimeoutError : Type 0 where
  invalid_timeout timeout_exceeded : TimeoutError

pub data Checked {ℓ} (A : Type ℓ) : Type ℓ where
  checked : A → Checked A
  rejected : TimeoutError → Checked A

infixl 5 ◌>>=◌
abbrev pub ◌>>=◌ {ℓ κ} : {A : Type ℓ} {B : Type κ} → Checked A → (A → Checked B) → Checked B
checked a >>= f = f a
rejected e >>= f = rejected e

pub record ExecParams (R : Type 0) : Type 0 where
  pub timeout_sec : ℤ
  pub rest : R

pub record ResourceEnvelope (R : Type 0) : Type 0 where
  pub wall_timeout_sec : ℤ
  pub rest : R

pub record JobParams (R : Type 0) : Type 0 where
  pub wait_timeout_sec : ℤ
  pub resources : Option (ResourceEnvelope R)
  pub rest : R

pub record Request (R : Type 0) : Type 0 where
  pub op : String
  pub exec : Option (ExecParams R)
  pub job : Option (JobParams R)
  pub rest : R

abbrev pub max_timeout_seconds : ℤ
max_timeout_seconds = pos 3600

abbrev pub default_exec_timeout_seconds : ℤ
default_exec_timeout_seconds = pos 60

abbrev pub default_job_wait_seconds : ℤ
default_job_wait_seconds = pos 300

abbrev pub default_job_wall_timeout_seconds : ℤ
default_job_wall_timeout_seconds = pos 3600

unfoldable pub resolve_timeout : ℤ → ℤ → Checked ℤ
resolve_timeout seconds fallback =
    if ltb_ℤ seconds (pos 0)
    then rejected invalid_timeout
    else if ltb_ℤ max_timeout_seconds seconds
    then rejected timeout_exceeded
    else checked (if ltb_ℤ (pos 0) seconds then seconds else fallback)

abbrev pub present {ℓ} : {A : Type ℓ} → Option A → Checked A
present none = rejected invalid_timeout
present (some a) = checked a

-- `no_rest` stands for the other fields of an envelope that is not given.
module _ {R : Type 0} (no_rest : R) where
  abbrev pub envelope : Option (ResourceEnvelope R) → ResourceEnvelope R
  envelope none = record { wall_timeout_sec = pos 0; rest = no_rest }
  envelope (some r) = r

  -- A nil request is `none`.
  unfoldable pub normalize : Request R → Checked (Request R)
  normalize q =
      if same q.op "exec"
      then (do
        p ← present q.exec
        n ← resolve_timeout p.timeout_sec default_exec_timeout_seconds
        checked (record q { exec = some (record p { timeout_sec = n }) }))
      else if same q.op "job_wait"
      then (do
        p ← present q.job
        n ← resolve_timeout p.wait_timeout_sec default_job_wait_seconds
        checked (record q { job = some (record p { wait_timeout_sec = n }) }))
      else if same q.op "job_start"
      then (do
        p ← present q.job
        n ← resolve_timeout (envelope p.resources).wall_timeout_sec default_job_wall_timeout_seconds
        checked (record q {
          job = some (record p {
            resources = some (record (envelope p.resources) { wall_timeout_sec = n });
          });
        }))
      else checked q

  unfoldable pub normalize_timeouts : Option (Request R) → Checked (Request R)
  normalize_timeouts none = rejected invalid_timeout
  normalize_timeouts (some q) = normalize q
