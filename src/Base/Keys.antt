-- ===== src/Base/Keys.antt =====
-- The keys and the values of a dictionary, and sums over the values.
use Prim.Native.Nat.{ℕ, ◌+◌}
use Prim.Native.String.{String}
use mathlib.Core.Path.{◌≡◌, refl, ap, sym, subst}
use mathlib.Core.Logic.{inl, inr}
use mathlib.Core.Bool.{true, false}
use mathlib.Core.Option.{Option, none, some}
use mathlib.Core.List.{List, [], ◌∷◌, ◌++◌}
use native.Mathlib.Omega.{arith}
use rdev.Base.Tests.{same, same_iff, if-elim, Bool-cases}
use rdev.Base.Maps.{Dict, lookup, insert, erase, is_some, lookup-erase}
use rdev.Base.Owners.{contains, Distinct}

module _ {ℓ} {V : Type ℓ} where
  abbrev pub keys : Dict V → List String
  keys [] = []
  keys ((k, _) ∷ m) = k ∷ keys m

  pub contains-keys : (k : String) (m : Dict V) → contains k (keys m) ≡ is_some (lookup k m)
  unfolding lookup
  contains-keys k [] = refl
  contains-keys k ((j, v) ∷ m) = ground (arith, same_iff j k, contains-keys k m)

  pub keys-insert_old :
      (k : String) (v : V) (m : Dict V) → is_some (lookup k m) ≡ true → keys (insert k v m) ≡ keys m
  unfolding lookup insert
  keys-insert_old k v [] h = cc
  keys-insert_old k v ((j, w) ∷ m) h = elim (Bool-cases (same j k)) [
    | inl y ↦ rw y (ap (λ i. i ∷ keys m) (sym ((same_iff j k).0 y)))
    | inr n ↦ rw n (ap (λ ks. j ∷ ks) (keys-insert_old k v m (rw n at h)))
  ]

  pub keys-insert_new :
      (k : String) (v : V) (m : Dict V)
      → is_some (lookup k m) ≡ false
      → keys (insert k v m) ≡ keys m ++ k ∷ []
  unfolding lookup insert
  keys-insert_new k v [] h = refl
  keys-insert_new k v ((j, w) ∷ m) h = elim (Bool-cases (same j k)) [
    | inl y ↦ ground arith
    | inr n ↦ rw n (ap (λ ks. j ∷ ks) (keys-insert_new k v m (rw n at h)))
  ]

  pub erase-absent : (k : String) (m : Dict V) → contains k (keys m) ≡ false → erase k m ≡ m
  unfolding erase
  erase-absent k [] h = refl
  erase-absent k ((j, w) ∷ m) h = elim (Bool-cases (same j k)) [
    | inl y ↦ ground arith
    | inr n ↦ rw n (ap (λ ks. (j, w) ∷ ks) (erase-absent k m (ground arith)))
  ]

  pub erase-Distinct : (k : String) (m : Dict V) → Distinct (keys m) → Distinct (keys (erase k m))
  unfolding erase
  erase-Distinct k [] d = tt
  erase-Distinct k ((j, w) ∷ m) d =
      if-elim (λ (n : Dict V). Distinct (keys n)) (same j k) (λ y. erase-Distinct k m d.1)
        (λ n. (
          ground (arith, contains-keys j (erase k m), contains-keys j m, lookup-erase k j m, d.0),
          erase-Distinct k m d.1,
        ))

  abbrev pub Values {κ} : (V → Type κ) → Dict V → Type κ
  Values P [] = Unit
  Values P ((_, v) ∷ m) = P v × Values P m

  pub insert-Values {κ} :
      (P : V → Type κ) (k : String) (v : V) (m : Dict V)
      → P v
      → Values P m
      → Values P (insert k v m)
  unfolding insert
  insert-Values P k v [] h a = (h, tt)
  insert-Values P k v ((j, w) ∷ m) h a =
      if-elim (Values P) (same j k) (λ y. (h, a.1)) (λ n. (a.0, insert-Values P k v m h a.1))

  pub erase-Values {κ} :
      (P : V → Type κ) (k : String) (m : Dict V) → Values P m → Values P (erase k m)
  unfolding erase
  erase-Values P k [] a = tt
  erase-Values P k ((j, w) ∷ m) a =
      if-elim (Values P) (same j k) (λ y. erase-Values P k m a.1)
        (λ n. (a.0, erase-Values P k m a.1))

  pub lookup-Values {κ} :
      (P : V → Type κ) (k : String) (m : Dict V) (v : V) → lookup k m ≡ some v → Values P m → P v
  unfolding lookup
  lookup-Values P k [] v h a = cc
  lookup-Values P k ((j, w) ∷ m) v h a = elim (Bool-cases (same j k)) [
    | inl y ↦ let e : w ≡ v = ground arith in subst P e a.0
    | inr n ↦ lookup-Values P k m v (rw n at h) a.1
  ]

  -- Sums over the values.
  unfoldable pub sum_by : (V → ℕ) → Dict V → ℕ
  sum_by f [] = 0
  sum_by f ((_, v) ∷ m) = f v + sum_by f m

  abbrev pub value_or_zero : (V → ℕ) → Option V → ℕ
  value_or_zero f none = 0
  value_or_zero f (some v) = f v

  pub sum_by-insert :
      (f : V → ℕ) (k : String) (v : V) (m : Dict V)
      → sum_by f (insert k v m) + value_or_zero f (lookup k m) ≡ sum_by f m + f v
  unfolding sum_by insert lookup
  sum_by-insert f k v [] = omega arith
  sum_by-insert f k v ((j, w) ∷ m) = elim (Bool-cases (same j k)) [
    | inl y ↦ rw y (omega arith)
    | inr n ↦ rw n (omega (arith, sum_by-insert f k v m))
  ]

  pub sum_by-erase :
      (f : V → ℕ) (k : String) (m : Dict V)
      → Distinct (keys m)
      → sum_by f (erase k m) + value_or_zero f (lookup k m) ≡ sum_by f m
  unfolding sum_by erase lookup
  sum_by-erase f k [] d = omega arith
  sum_by-erase f k ((j, w) ∷ m) d = elim (Bool-cases (same j k)) [
    | inl y ↦
        let e : j ≡ k = (same_iff j k).0 y in
        rw y (rw (erase-absent k m (subst (λ i. contains i (keys m) ≡ false) e d.0)) (omega arith))
    | inr n ↦ rw n (omega (arith, sum_by-erase f k m d.1))
  ]
