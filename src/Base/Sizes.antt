-- ===== src/Base/Sizes.antt =====
-- How many entries a dictionary has.
use Prim.Native.Nat.{◌+◌, ◌≤◌}
use Prim.Native.String.{String}
use mathlib.Core.Path.{◌≡◌}
use mathlib.Core.List.{[], ◌∷◌}
use native.Mathlib.Omega.{arith}
use rdev.Base.Tests.{same_iff, if◌then◌else◌}
use rdev.Base.Lists.{length}
use rdev.Base.Maps.{Dict, lookup, insert, erase, is_some}

module _ {ℓ} {V : Type ℓ} where
  pub length-insert :
      (k : String) (v : V) (m : Dict V)
      → length (insert k v m) ≡ (if is_some (lookup k m) then length m else length m + 1)
  unfolding lookup insert
  length-insert k v [] = omega arith
  length-insert k v ((j, w) ∷ m) = ground (arith, same_iff j k, length-insert k v m)

  pub length-erase-le : (k : String) (m : Dict V) → length (erase k m) ≤ length m
  unfolding erase
  length-erase-le k [] = omega arith
  length-erase-le k ((j, w) ∷ m) = ground (arith, same_iff j k, length-erase-le k m)
