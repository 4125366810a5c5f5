-- ===== src/Broker/Policy.antt =====
-- internal/broker/policy.go: the grants in memory, their updates and the decisions. What hashes the
-- grants and what a write of the file returns come in as parameters.
pub mod Updates
pub mod Tests
use Prim.Native.String.{len}
use rdev.Base.{
  ℕ, String, Bool, true, false, not, ◌&&◌, ◌||◌, Option, none, some, List, [], ◌∷◌, same, ltb,
  if◌then◌else◌, Dict, lookup, insert, erase, or_else, is_nil, is_some,
}

-- Why a grant is refused: it is invalid, or the store's error, by number; an uncertain commit is one
-- that may have reached the disk.
pub data PolicyError : Type 0 where
  invalid_grant : PolicyError
  not_written uncertain : ℕ → PolicyError

abbrev pub is_uncertain : PolicyError → Bool
is_uncertain invalid_grant = false
is_uncertain (not_written n) = false
is_uncertain (uncertain n) = true

abbrev pub Grants : Type 0
Grants = Dict (Dict Bool)

pub record Policy : Type 0 where
  pub grants : Grants
  pub path : String
  pub digest : String
  pub failed : Option PolicyError

pub data Reason : Type 0 where
  denied_by_default granted storage_unavailable : Reason

pub record Decision : Type 0 where
  pub allow : Bool
  pub reason : Reason
  pub policy_digest : String
  pub capability : String
  pub host : String

-- p.grants[owner][operation].
abbrev pub grant_of : Grants → String → String → Bool
grant_of grants owner operation =
    or_else false (lookup operation (or_else [] (lookup owner grants)))

-- The copy of the grants with one more, or one less.
unfoldable pub next_grants : Grants → String → String → Bool → Grants
next_grants grants owner operation true =
    insert owner (insert operation true (or_else [] (lookup owner grants))) grants
next_grants grants owner operation false =
    let rest = erase operation (or_else [] (lookup owner grants)) in
    if is_nil rest then erase owner grants else insert owner rest grants

unfoldable pub decision : Policy → Bool → String → String → Decision
decision p allow capability host = record {
  allow = if is_some p.failed then false else allow;
  reason =
      if is_some p.failed
      then storage_unavailable
      else if allow
      then granted
      else denied_by_default;
  policy_digest = p.digest;
  capability = capability;
  host = host;
}

unfoldable pub decide : Policy → String → String → Decision
decide p owner operation = decision p (grant_of p.grants owner operation) "" ""

unfoldable pub capability_for_operation : String → String
capability_for_operation op =
    if same op "mutation.status" || same op "operation_status"
    then "mutation.read"
    else if same op "job.events"
    then "job"
    else if same op "exec"
    then "exec"
    else if same op "read_file" || same op "list"
    then "file.read"
    else if same op "write_file" || same op "edit_file" || same op "edit_rollback"
    then "file.write"
    else if same op "job_start"
        || same op "job_list"
        || same op "job_status"
        || same op "job_logs"
        || same op "job_stop"
        || same op "job_wait"
        || same op "job_rm"
    then "job"
    else if same op "sync.push" || same op "sync.pull" || same op "sync.delete"
    then "sync"
    else if same op "secret.set"
        || same op "secret.delete"
        || same op "secret.list"
        || same op "secret.use"
        || same op "secret.set_from_file"
    then "secret"
    else if same op "fleet.inventory.import"
        || same op "fleet.inventory.update"
        || same op "fleet.inventory.list"
        || same op "policy.inspect"
    then "broker.admin"
    else if same op "fleet.plan"
        || same op "fleet.execute"
        || same op "fleet.approve"
        || same op "fleet.status"
        || same op "fleet.results"
        || same op "fleet.list"
        || same op "fleet.pause"
        || same op "fleet.resume"
        || same op "fleet.cancel"
        || same op "fleet.retry"
        || same op "fleet.reconcile"
    then "fleet"
    else op

module _ (policy_digest : Grants → String) (write : String → Grants → Option PolicyError) where
  abbrev publish : Policy → Grants → Policy
  publish p next = record p { grants = next; digest = policy_digest next }

  -- The end of `update`, on what `p.write` returns; without a path nothing is written.
  abbrev pub commit : Policy → Grants → Option PolicyError → Option PolicyError × Policy
  commit p next none = (none, publish p next)
  commit p next (some e) = (some e, if is_uncertain e then record p { failed = some e } else p)

  abbrev pub update_open : Policy → Grants → Option PolicyError → Option PolicyError × Policy
  update_open p next (some e) = (some e, p)
  update_open p next none = commit p next (if same p.path "" then none else write p.path next)

  unfoldable pub update : Policy → String → String → Bool → Option PolicyError × Policy
  update p owner operation grant =
      if same owner "" || ltb 512 (len owner) || same operation "" || ltb 2048 (len operation)
      then (some invalid_grant, p)
      else update_open p (next_grants p.grants owner operation grant) p.failed
