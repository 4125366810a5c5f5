-- ===== src/Storage/Policy/Loading.antt =====
-- Policies that are loaded, and overrides that leave everything as it is.
use rdev.Base.{
  ℕ, ◌≡◌, refl, sym, ◌∙◌, ap, true, false, Option, none, some, List, arith, same, Option-cases, inl,
  inr, subst,
}
use rdev.Base.Int.{ℤ, pos}
use rdev.Storage.Policy.{
  PolicyEnv, ScopePolicy, StoragePolicy, resolved, validate_policy, merge_policy, resolve,
  with_seconds, decoded_policy, load_policy, contents, whole_seconds, merge_scope,
}
use rdev.Storage.Policy.Resolving.{SoundPolicy, validate_policy_iff, Narrower, resolve_succeeds}

module _ {F : Type 0} (env : PolicyEnv F) where
  -- The seconds of a scope with a duration are the duration's.
  pub record Canonical (s : ScopePolicy F) : Type 0 where
    pub seconds :
        (d : ℤ)
        → same s.retention "" ≡ false
        → env.parse_duration s.retention ≡ some d
        → s.retention_sec ≡ whole_seconds d

  with_seconds-Canonical : (s t : ScopePolicy F) → with_seconds env s ≡ some t → Canonical t
  with_seconds-Canonical s t h = record {
    seconds = λ d e p. elim (Option-cases (env.parse_duration s.retention)) [
      | inl n ↦ ground arith
      | inr (d', q) ↦ ground arith
    ];
  }

  decoded_policy-resolved :
      (p q : StoragePolicy F)
      → decoded_policy env p ≡ resolved q
      → (with_seconds env p.local ≡ some q.local)
        × (with_seconds env p.remote_state ≡ some q.remote_state)
        × (validate_policy env q ≡ none)
  unfolding decoded_policy
  decoded_policy-resolved p q h = elim (Option-cases (with_seconds env p.local)) [
    | inl n ↦ ground arith
    | inr (l, a) ↦ elim (Option-cases (with_seconds env p.remote_state)) [
      | inl n ↦ ground arith
      | inr (r, b) ↦ (ground arith, ground arith, ground arith)
    ]
  ]

  -- A policy that `Load` reads from the contents of a file is sound, and the retention seconds of
  -- each of its two scopes are those of the scope's duration where it has one that parses.
  pub load_policy-Canonical :
      (decode : StoragePolicy F → List ℕ → Option (StoragePolicy F)) (defaults q : StoragePolicy F)
      (b : List ℕ)
      → load_policy env decode defaults (contents b) ≡ resolved q
      → SoundPolicy env q × Canonical q.local × Canonical q.remote_state
  unfolding load_policy
  load_policy-Canonical decode defaults q b h = elim (Option-cases (decode defaults b)) [
    | inl n ↦ ground arith
    | inr (p, e) ↦
        let (x, y, z) = decoded_policy-resolved p q (ground arith) in
        (
          (validate_policy_iff env q).0 z,
          with_seconds-Canonical p.local q.local x,
          with_seconds-Canonical p.remote_state q.remote_state y,
        )
  ]

-- The override whose fields are zero.
abbrev pub no_scope : {F : Type 0} → F → ScopePolicy F
no_scope z = record {
  max_bytes = pos 0;
  retention_sec = pos 0;
  retention = "";
  keep_last_jobs = pos 0;
  high_watermark = z;
  low_watermark = z;
  min_free_bytes = pos 0;
}

abbrev pub no_override : {F : Type 0} → F → StoragePolicy F
no_override z = record {
  local = no_scope z;
  remote_state = no_scope z;
  per_job = record { max_stdout_bytes = pos 0; max_stderr_bytes = pos 0; on_log_limit = "" };
  cleanup = record {
    interval_sec = pos 0;
    max_delete_bytes = pos 0;
    max_delete_jobs = pos 0;
    max_scan_jobs = pos 0;
    dry_run = false;
  };
}

merge-no_override :
    {F : Type 0} (env : PolicyEnv F) (g : StoragePolicy F) (z : F)
    → env.is_zero z ≡ true
    → merge_policy env g (no_override z) ≡ g
unfolding merge_policy merge_scope
merge-no_override env g z e = rw e refl

-- A sound policy resolved with the override whose fields are all zero is the policy itself, where
-- the test for zero holds of that override's watermarks.
pub resolve-no_override :
    {F : Type 0} (env : PolicyEnv F) (g : StoragePolicy F) (z : F)
    → env.is_zero z ≡ true
    → SoundPolicy env g
    → resolve env g (no_override z) ≡ resolved g
resolve-no_override env g z e v =
    let m : merge_policy env g (no_override z) ≡ g = merge-no_override env g z e in
    resolve_succeeds env g (no_override z) (subst (λ q. SoundPolicy env q) (sym m) v) (
      subst (λ q. Narrower g q) (sym m)
        (record {
          local_bytes = omega arith;
          remote_bytes = omega arith;
          stdout_bytes = omega arith;
          stderr_bytes = omega arith;
          delete_bytes = omega arith;
          delete_jobs = omega arith;
          scan_jobs = omega arith;
        }))
    ∙ ap resolved m
