-- ===== src/Broker/Policy/Tests.antt =====
-- Decisions of a policy.
use rdev.Base.{
  String, ◌≡◌, refl, true, ◌&&◌, Option, none, some, [], ◌∷◌, same, if◌then◌else◌, lookup,
}
use rdev.Broker.Policy.{
  Policy, PolicyError, uncertain, not_written, Grants, update, decide, decision,
}
use rdev.Broker.Policy.Updates.{decide-update, decide-update_refused}

abbrev no_digest : Grants → String
no_digest m = ""

abbrev disk_lost : String → Grants → Option PolicyError
disk_lost path m = some (uncertain 5)

-- A policy in memory only, and one with a file.
abbrev in_memory : Policy
in_memory = record { grants = []; path = ""; digest = ""; failed = none }

abbrev on_disk : Policy
on_disk = record { grants = []; path = "policy.json"; digest = ""; failed = none }

granted_in_memory : (update no_digest disk_lost in_memory "anna" "exec" true).0 ≡ none
unfolding update
granted_in_memory = refl

lost_on_disk : (update no_digest disk_lost on_disk "anna" "exec" true).0 ≡ some (uncertain 5)
unfolding update
lost_on_disk = refl

decide-update_example :
    (decide (update no_digest disk_lost in_memory "anna" "exec" true).1 "anna" "exec").allow ≡ (
      if same "anna" "anna" && same "exec" "exec"
      then true
      else (decide in_memory "anna" "exec").allow)
decide-update_example =
    decide-update no_digest disk_lost in_memory "anna" "exec" true granted_in_memory "anna" "exec"

-- A write that fails without doubt leaves the policy as it was, with the grant that it had.
abbrev disk_full : String → Grants → Option PolicyError
disk_full path m = some (not_written 28)

abbrev ben_may_list : Policy
ben_may_list = record on_disk { grants = ("ben", ("list", true) ∷ []) ∷ [] }

full_disk : (update no_digest disk_full ben_may_list "anna" "exec" true).0 ≡ some (not_written 28)
unfolding update
full_disk = refl

ben_lists :
    (decide (update no_digest disk_full ben_may_list "anna" "exec" true).1 "ben" "list").allow
    ≡ true
unfolding update decide decision lookup
ben_lists = refl

decide-update_refused_example : (decide ben_may_list "ben" "list").allow ≡ true
decide-update_refused_example =
    decide-update_refused no_digest disk_full ben_may_list "anna" "exec" true (not_written 28)
      full_disk "ben" "list" ben_lists
