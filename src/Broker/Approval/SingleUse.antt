-- ===== src/Broker/Approval/SingleUse.antt =====
-- How often an approval is used, over attempts at times that do not go back.
use rdev.Base.{
  ℕ, ◌≤◌, ◌<◌, String, ◌≡◌, ◌≢◌, refl, sym, ◌∙◌, ◌⊎◌, inl, inr, Option, none, some, List, [], ◌∷◌,
  arith, same, same_iff, Dict, lookup, lookup-insert, lookup-insert_self, ap, Option-cases,
  Bool-cases, ltb,
}
use rdev.Broker.Approval.{
  Approval, ApprovalError, validate_approval, drop_expired, record_use, consume,
}

lookup-drop_expired :
    (now expiry : ℕ) (token : String) (used : Dict ℕ)
    → now < expiry
    → lookup token used ≡ some expiry
    → lookup token (drop_expired now used) ≡ some expiry
unfolding lookup drop_expired
lookup-drop_expired now expiry token [] lt h = h
lookup-drop_expired now expiry token ((k, e) ∷ used) lt h =
    ground (arith, lookup-drop_expired now expiry token used lt)

record_use-lookup :
    (r : Option ApprovalError) (used : Dict ℕ) (k token : String) (e expiry now : ℕ)
    → now < expiry
    → lookup token used ≡ some expiry
    → lookup token (record_use r used k e now).1 ≡ some expiry
record_use-lookup (some bad) used k token e expiry now lt h = h
record_use-lookup none used k token e expiry now lt h = ground (
  arith,
  same_iff k token,
  lookup-insert k token e (drop_expired now used),
  lookup-drop_expired now expiry token used lt h,
)

record_use_ok :
    (r : Option ApprovalError) (used : Dict ℕ) (k : String) (e now : ℕ)
    → (record_use r used k e now).0 ≡ none
    → (r ≡ none) × (lookup k used ≡ none) × (lookup k (record_use r used k e now).1 ≡ some e)
record_use_ok (some bad) used k e now h = ground arith
record_use_ok none used k e now h = elim (Option-cases (lookup k used)) [
  | inl free ↦ rw free (refl, refl, lookup-insert_self k e (drop_expired now used))
  | inr (t, taken) ↦ ground arith
]

-- A call of `Consume`.
pub record Attempt : Type 0 where
  pub approval : Approval
  pub token : String
  pub owner : String
  pub operation : String
  pub target : String
  pub now : ℕ

module _ (digest : String → String → String → String) where
  abbrev pub attempt : Dict ℕ → Attempt → Option ApprovalError × Dict ℕ
  attempt used x = consume digest used x.approval x.token x.owner x.operation x.target x.now

  -- The store behind attempts, the first one first.
  abbrev pub attempts : Dict ℕ → List Attempt → Dict ℕ
  attempts used [] = used
  attempts used (x ∷ xs) = attempts (attempt used x).1 xs

  -- The clock does not go back, from `start` through the attempts to `end`.
  abbrev pub Forward : ℕ → List Attempt → ℕ → Type 0
  Forward start [] end = start ≤ end
  Forward start (x ∷ xs) end = start ≤ x.now × Forward x.now xs end

  -- The token is on record, or its approval has expired.
  abbrev Spent : String → ℕ → ℕ → Dict ℕ → Type 0
  Spent token expiry now used = (lookup token used ≡ some expiry) ⊎ (expiry ≤ now)

  attempt-lookup :
      (x : Attempt) (token : String) (expiry : ℕ) (used : Dict ℕ)
      → x.now < expiry
      → lookup token used ≡ some expiry
      → lookup token (attempt used x).1 ≡ some expiry
  unfolding consume
  attempt-lookup x token expiry used lt h =
      record_use-lookup
        (validate_approval digest x.approval x.token x.owner x.operation x.target x.now) used
        x.token token x.approval.expires_at expiry x.now lt h

  attempt-Spent :
      (x : Attempt) (token : String) (expiry now : ℕ) (used : Dict ℕ)
      → now ≤ x.now
      → Spent token expiry now used
      → Spent token expiry x.now (attempt used x).1
  attempt-Spent x token expiry now used le (inr late) = inr (omega arith)
  attempt-Spent x token expiry now used le (inl h) = elim (Bool-cases (ltb x.now expiry)) [
    | inl lt ↦ inl (attempt-lookup x token expiry used (ground arith) h)
    | inr late ↦ inr (ground arith)
  ]

  attempts-Spent :
      (xs : List Attempt) (token : String) (expiry start end : ℕ) (used : Dict ℕ)
      → Forward start xs end
      → Spent token expiry start used
      → Spent token expiry end (attempts used xs)
  attempts-Spent [] token expiry start end used le (inl h) = inl h
  attempts-Spent [] token expiry start end used le (inr late) = inr (omega arith)
  attempts-Spent (x ∷ xs) token expiry start end used (le, go) h =
      attempts-Spent xs token expiry x.now end (attempt used x).1 go
        (attempt-Spent x token expiry start used le h)

  valid_approval :
      (x : Attempt)
      → validate_approval digest x.approval x.token x.owner x.operation x.target x.now ≡ none
      → (x.token ≡ x.approval.token) × (x.now < x.approval.expires_at)
  unfolding validate_approval
  valid_approval x h = ground (arith, same_iff x.token x.approval.token)

  -- What an attempt that succeeds says.
  attempt_ok :
      (x : Attempt) (used : Dict ℕ)
      → (attempt used x).0 ≡ none
      → (x.token ≡ x.approval.token)
        × (x.now < x.approval.expires_at)
        × (lookup x.token used ≡ none)
        × (lookup x.token (attempt used x).1 ≡ some x.approval.expires_at)
  unfolding consume
  attempt_ok x used ok =
      let v = validate_approval digest x.approval x.token x.owner x.operation x.target x.now in
      let (valid, free, recorded) = record_use_ok v used x.token x.approval.expires_at x.now ok in
      let (token, early) = valid_approval x valid in (token, early, free, recorded)

  -- When an attempt to consume an approval succeeds, no later attempt with the same approval
  -- does, whatever attempts come between, while the clock does not go back from one attempt to
  -- the next.
  pub consume_once :
      (used : Dict ℕ) (x y : Attempt) (xs : List Attempt)
      → (attempt used x).0 ≡ none
      → y.approval ≡ x.approval
      → Forward x.now xs y.now
      → (attempt (attempts (attempt used x).1 xs) y).0 ≢ none
  consume_once used x y xs ok same go again =
      let (token, early, free, recorded) = attempt_ok x used ok in
      let (token', early', free', recorded') =
        attempt_ok y (attempts (attempt used x).1 xs) again in
      let spent =
        attempts-Spent xs x.token x.approval.expires_at x.now y.now (attempt used x).1 go
          (inl recorded) in
      let key : y.token ≡ x.token = token' ∙ ap (λ (a : Approval). a.token) same ∙ sym token in
      let expiry : y.approval.expires_at ≡ x.approval.expires_at =
        ap (λ (a : Approval). a.expires_at) same in
      elim spent [
        | inl h ↦ ground (arith, rw key at free')
        | inr late ↦ omega (arith, expiry, early', late)
      ]
