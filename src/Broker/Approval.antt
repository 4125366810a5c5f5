-- ===== src/Broker/Approval.antt =====
-- internal/broker/approval.go: approvals, and the store of the tokens that are used. The digest of
-- a request, SHA-256 of its JSON, is a parameter; times are nanoseconds.
pub mod Binding
pub mod SingleUse
pub mod Tests
use rdev.Base.{
  ℕ, ◌+◌, ◌≤◌, String, Bool, true, false, not, ◌&&◌, ◌||◌, Option, none, some, List, [], ◌∷◌, ◌⊎◌,
  inl, inr, same, ltb, leb, if◌then◌else◌, Dict, lookup, insert, is_some,
}
use rdev.Base.Int.{ℤ, pos, pos_part, ltb_ℤ}

pub record Approval : Type 0 where
  pub token : String
  pub digest : String
  pub owner : String
  pub expires_at : ℕ

pub data ApprovalError : Type 0 where
  bad_ttl no_random token_mismatch other_request expired already_used : ApprovalError

-- The loop over `s.used`: the tokens that have expired go.
unfoldable pub drop_expired : ℕ → Dict ℕ → Dict ℕ
drop_expired now [] = []
drop_expired now ((token, expiry) ∷ used) =
    let rest = drop_expired now used in
    if not (ltb now expiry) then rest else (token, expiry) ∷ rest

-- `Consume` behind the validation.
abbrev pub record_use :
    Option ApprovalError → Dict ℕ → String → ℕ → ℕ → Option ApprovalError × Dict ℕ
record_use (some e) used token expiry now = (some e, used)
record_use none used token expiry now =
    if is_some (lookup token used)
    then (some already_used, used)
    else (none, insert token expiry (drop_expired now used))

module _ (approval_digest : String → String → String → String) where
  -- `random` is the token in hexadecimal, when `rand.Read` did not fail. Ten minutes are 6 · 10^11.
  unfoldable pub new_approval :
      Option String → String → String → String → ℤ → ℕ → ApprovalError ⊎ Approval
  new_approval random owner operation target ttl now =
      if not (ltb_ℤ (pos 0) ttl) || ltb_ℤ (pos 600000000000) ttl then inl bad_ttl else elim random [
        | none ↦ inl no_random
        | some token ↦ inr record {
          token = token;
          digest = approval_digest owner operation target;
          owner = owner;
          expires_at = now + pos_part ttl;
        }
      ]

  -- `none` is the nil error.
  unfoldable pub validate_approval :
      Approval → String → String → String → String → ℕ → Option ApprovalError
  validate_approval a token owner operation target now =
      if same token "" || not (same token a.token)
      then some token_mismatch
      else if not (same a.owner owner)
          || not (same a.digest (approval_digest owner operation target))
      then some other_request
      else if not (ltb now a.expires_at)
      then some expired
      else none

  unfoldable pub consume :
      Dict ℕ → Approval → String → String → String → String → ℕ → Option ApprovalError × Dict ℕ
  consume used a token owner operation target now =
      record_use (validate_approval a token owner operation target now) used token a.expires_at now
