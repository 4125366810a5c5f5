-- ===== src/Storage/Policy/Tests.antt =====
-- The storage policy at concrete limits, with watermarks in percent.
use rdev.Base.{
  ℕ, ◌≡◌, ◌↔◌, refl, false, Option, none, some, List, [], ltb, ◌==◌, same, if◌then◌else◌,
}
use rdev.Base.Int.{pos}
use rdev.Storage.Policy.{
  PolicyEnv, StoragePolicy, resolved, default_policy, validate_policy, validate_scope,
  validate_limits, merge_policy, resolve, load_policy, decoded_policy, contents,
}
use rdev.Storage.Policy.Resolving.{SoundPolicy, Narrower, validate_policy_iff, resolve_iff}
use rdev.Storage.Policy.Loading.{Canonical, no_override, load_policy-Canonical, resolve-no_override}

abbrev percent : PolicyEnv ℕ
percent = record {
  is_nan = λ x. false;
  is_inf = λ x. false;
  is_zero = λ x. x == 0;
  above_zero = λ x. ltb 0 x;
  above_one = λ x. ltb 100 x;
  above = λ x y. ltb y x;
  parse_duration = λ s. if same s "168h" then some (pos 604800000000000) else none;
}

abbrev defaults : StoragePolicy ℕ
defaults = default_policy 85 70

-- A project that keeps half of the bytes.
abbrev halved : StoragePolicy ℕ
halved = record (no_override 0) {
  local = record (no_override 0).local { max_bytes = pos 536870912 };
}

abbrev smaller : StoragePolicy ℕ
smaller = merge_policy percent defaults halved

validate_policy_iff_example :
    (validate_policy percent defaults ≡ none) ↔ SoundPolicy percent defaults
validate_policy_iff_example = validate_policy_iff percent defaults

resolve_iff_example : (resolve percent defaults halved ≡ resolved smaller) ↔ (
    (smaller ≡ merge_policy percent defaults halved)
    × SoundPolicy percent smaller
    × Narrower defaults halved)
resolve_iff_example = resolve_iff percent defaults halved smaller

abbrev decode_defaults : StoragePolicy ℕ → List ℕ → Option (StoragePolicy ℕ)
decode_defaults p b = some p

defaults-loaded : load_policy percent decode_defaults defaults (contents []) ≡ resolved defaults
unfolding load_policy decoded_policy default_policy validate_policy validate_scope validate_limits
defaults-loaded = refl

load_policy-Canonical_example :
    SoundPolicy percent defaults
    × Canonical percent defaults.local
    × Canonical percent defaults.remote_state
load_policy-Canonical_example =
    load_policy-Canonical percent decode_defaults defaults defaults [] defaults-loaded

defaults_sound : SoundPolicy percent defaults
unfolding default_policy validate_policy validate_scope validate_limits
defaults_sound = (validate_policy_iff percent defaults).0 refl

resolve-no_override_example : resolve percent defaults (no_override 0) ≡ resolved defaults
resolve-no_override_example = resolve-no_override percent defaults 0 refl defaults_sound
