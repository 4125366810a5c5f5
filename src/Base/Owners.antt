-- ===== src/Base/Owners.antt =====
-- Membership and distinctness in lists of texts.
use Prim.Native.Nat.{ℕ, zero, suc, ◌<◌, ◌≤◌}
use Prim.Native.String.{String}
use mathlib.Core.Path.{◌≡◌, refl}
use mathlib.Core.Bool.{Bool, true, false, ◌||◌}
use mathlib.Core.List.{List, [], ◌∷◌, ◌++◌}
use native.Mathlib.Omega.{arith}
use rdev.Base.Tests.{same, same_iff, if◌then◌else◌}
use rdev.Base.Lists.{length, get_or, remove_at, drop}

abbrev pub contains : String → List String → Bool
contains o [] = false
contains o (x ∷ xs) = same x o || contains o xs

abbrev pub Distinct : List String → Type 0
Distinct [] = Unit {0}
Distinct (x ∷ xs) = (contains x xs ≡ false) × Distinct xs

pub contains-append :
    (o y : String) (xs : List String) → contains o (xs ++ y ∷ []) ≡ (contains o xs || same y o)
contains-append o y [] = ground arith
contains-append o y (x ∷ xs) = ground (arith, contains-append o y xs)

pub contains-get_or :
    (xs : List String) (i : ℕ) → i < length xs → contains (get_or xs i "") xs ≡ true
contains-get_or [] i h = elim h [ ]
contains-get_or (x ∷ xs) zero h = ground (arith, same_iff x x)
contains-get_or (x ∷ xs) (suc i) h = ground (arith, contains-get_or xs i)

pub contains-remove_at :
    (o : String) (xs : List String) (i : ℕ)
    → Distinct xs
    → i < length xs
    → contains o (remove_at xs i) ≡ (if same (get_or xs i "") o then false else contains o xs)
contains-remove_at o [] i d h = elim h [ ]
contains-remove_at o (x ∷ xs) zero d h = ground (arith, same_iff x o)
contains-remove_at o (x ∷ xs) (suc i) d h = ground (
  arith,
  contains-remove_at o xs i d.1,
  same_iff x o,
  same_iff (get_or xs i "") o,
  contains-get_or xs i,
)

pub remove_at-Distinct :
    (xs : List String) (i : ℕ) → Distinct xs → i < length xs → Distinct (remove_at xs i)
remove_at-Distinct [] i d h = elim h [ ]
remove_at-Distinct (x ∷ xs) zero d h = d.1
remove_at-Distinct (x ∷ xs) (suc i) d h =
    (ground (arith, contains-remove_at x xs i d.1), remove_at-Distinct xs i d.1 (omega arith))

pub append-Distinct :
    (y : String) (xs : List String) → Distinct xs → contains y xs ≡ false → Distinct (xs ++ y ∷ [])
append-Distinct y [] d h = (refl, tt)
append-Distinct y (x ∷ xs) d h = (
  ground (arith, contains-append x y xs, same_iff x y, same_iff y x),
  append-Distinct y xs d.1 (ground arith),
)

pub drop-remove_at : (xs : List String) (i : ℕ) → drop i (remove_at xs i) ≡ drop (suc i) xs
drop-remove_at [] zero = refl
drop-remove_at [] (suc i) = refl
drop-remove_at (x ∷ xs) zero = refl
drop-remove_at (x ∷ xs) (suc i) = drop-remove_at xs i

pub drop-get_or :
    (xs : List String) (i : ℕ) → i < length xs → drop i xs ≡ get_or xs i "" ∷ drop (suc i) xs
drop-get_or [] i h = elim h [ ]
drop-get_or (x ∷ xs) zero h = refl
drop-get_or (x ∷ xs) (suc i) h = drop-get_or xs i (omega arith)

pub drop_end : (xs : List String) (i : ℕ) → length xs ≤ i → drop i xs ≡ []
drop_end [] zero h = refl
drop_end [] (suc i) h = refl
drop_end (x ∷ xs) zero h = absurd (omega arith)
drop_end (x ∷ xs) (suc i) h = drop_end xs i (omega arith)

pub drop-Distinct : (xs : List String) (i : ℕ) → Distinct xs → Distinct (drop i xs)
drop-Distinct [] zero d = d
drop-Distinct [] (suc i) d = tt
drop-Distinct (x ∷ xs) zero d = d
drop-Distinct (x ∷ xs) (suc i) d = drop-Distinct xs i d.1
