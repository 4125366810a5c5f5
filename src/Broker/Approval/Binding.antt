-- ===== src/Broker/Approval/Binding.antt =====
-- Which requests an approval is good for, and how long.
use rdev.Base.{ℕ, ◌+◌, ◌≤◌, ◌<◌, String, ◌≡◌, ◌≢◌, ◌↔◌, inr, none, some, arith, same_iff}
use rdev.Base.Int.{ℤ, pos, negsuc, pos_part}
use rdev.Broker.Approval.{Approval, new_approval, validate_approval}

module _ (digest : String → String → String → String) where
  new_approval-fields :
      (token owner operation target : String) (ttl : ℤ) (now : ℕ) (a : Approval)
      → new_approval digest (some token) owner operation target ttl now ≡ inr a
      → (a.token ≡ token)
        × (a.digest ≡ digest owner operation target)
        × (a.owner ≡ owner)
        × (a.expires_at ≡ now + pos_part ttl)
        × (0 < pos_part ttl)
        × (pos_part ttl ≤ 600000000000)
  unfolding new_approval
  new_approval-fields token owner operation target (pos n) now a h = ground arith
  new_approval-fields token owner operation target (negsuc n) now a h = ground arith

  -- An approval that `new_approval` issued validates a request just when the token is the one
  -- issued and not empty, the owner is the same, the digest of the request is that of the one
  -- approved, and the time to live has not passed.
  pub validate-new_approval :
      (token owner operation target : String) (ttl : ℤ) (now : ℕ) (a : Approval)
      → new_approval digest (some token) owner operation target ttl now ≡ inr a
      → (token' owner' operation' target' : String) (now' : ℕ)
      → (validate_approval digest a token' owner' operation' target' now' ≡ none) ↔ (
          (token' ≡ token)
          × (token ≢ "")
          × (owner' ≡ owner)
          × (digest owner' operation' target' ≡ digest owner operation target)
          × (now' < now + pos_part ttl))
  unfolding validate_approval
  validate-new_approval token owner operation target ttl now a h token' owner' operation' target'
        now' =
      let (t, d, o, e, _, _) = new_approval-fields token owner operation target ttl now a h in
      ground (
        arith,
        same_iff token' "",
        same_iff token' a.token,
        same_iff a.owner owner',
        same_iff a.digest (digest owner' operation' target'),
      )
