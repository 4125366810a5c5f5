-- ===== src/Broker/Approval/Tests.antt =====
-- Approvals of one request.
use rdev.Base.{ℕ, ◌+◌, ◌<◌, String, ◌≡◌, ◌≢◌, ◌↔◌, refl, none, [], ◌∷◌, arith, lookup, insert}
use rdev.Base.Int.{pos, pos_part}
use rdev.Broker.Approval.{Approval, new_approval, validate_approval, consume, drop_expired}
use rdev.Broker.Approval.Binding.{validate-new_approval}
use rdev.Broker.Approval.SingleUse.{Attempt, attempt, attempts, consume_once}

-- A digest that tells operations apart.
abbrev by_operation : String → String → String → String
by_operation owner operation target = operation

abbrev anna_may_write : Approval
anna_may_write = record { token = "8f21"; digest = "write"; owner = "anna"; expires_at = 90 }

abbrev issued : String
issued = "8f21"

abbrev anna : String
anna = "anna"

abbrev write : String
write = "write"

validate-new_approval_example :
    (validate_approval by_operation anna_may_write issued anna write "build1" 70 ≡ none) ↔ (
      (issued ≡ issued)
      × (issued ≢ "")
      × (anna ≡ anna)
      × (write ≡ write)
      × (70 < 60 + pos_part (pos 30)))
unfolding new_approval
validate-new_approval_example =
    validate-new_approval by_operation issued anna write "build1" (pos 30) 60 anna_may_write refl
      issued anna write "build1" 70

abbrev at_time : ℕ → Attempt
at_time now = record {
  approval = anna_may_write;
  token = "8f21";
  owner = "anna";
  operation = "write";
  target = "build1";
  now = now;
}

first_use : (attempt by_operation [] (at_time 70)).0 ≡ none
unfolding consume validate_approval drop_expired lookup insert
first_use = refl

consume_once_example :
    (attempt by_operation
      (attempts by_operation (attempt by_operation [] (at_time 70)).1 (at_time 75 ∷ []))
      (at_time 80)).0
    ≢ none
consume_once_example =
    consume_once by_operation [] (at_time 70) (at_time 80) (at_time 75 ∷ []) first_use refl
      (omega arith, omega arith)
