-- ===== src/Proto/Timeouts/Tests.antt =====
-- Budgets of concrete requests.
use rdev.Base.{ℕ, ◌≡◌, refl, none, some}
use rdev.Base.Int.{pos}
use rdev.Proto.Timeouts.{Request, checked, normalize_timeouts, normalize, resolve_timeout}
use rdev.Proto.Timeouts.Granted.{Budgeted}
use rdev.Proto.Timeouts.Budgets.{normalize-normalize}

-- A request to run a command with no budget of its own, and with the default one.
abbrev exec_in : ℕ → Request ℕ
exec_in n = record {
  op = "exec";
  exec = some record { timeout_sec = pos n; rest = 1 };
  job = none;
  rest = 2;
}

exec_normalized : normalize_timeouts 0 (some (exec_in 0)) ≡ checked (exec_in 60)
unfolding normalize_timeouts normalize resolve_timeout
exec_normalized = refl

normalize-normalize_example :
    Budgeted 0 (exec_in 0) (exec_in 60)
    × (normalize_timeouts 0 (some (exec_in 60)) ≡ checked (exec_in 60))
normalize-normalize_example = normalize-normalize 0 (exec_in 0) (exec_in 60) exec_normalized
