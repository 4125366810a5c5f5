-- ===== src/FileEdit/RoundTrips.antt =====
-- What is printed and read again: numbers, the header of a hunk, and digests in hexadecimal.
use rdev.Base.{
  ℕ, zero, suc, ◌+◌, ◌*◌, ◌/◌, ◌%◌, ◌≤◌, ◌<◌, ◌≡◌, refl, ap, ◌∙◌, true, false, ◌&&◌, some, [], ◌∷◌,
  ◌++◌, arith, length, All, ltb, leb, is_nil, Bool-cases, inl, inr,
}
use rdev.FileEdit.Bytes.{
  Bytes, digits, digits_value, decimal_digits, decimal, hex_encode, hex_decode, drop_prefix,
  starts_with, nibble, hex_digit, hex_pair,
}
use rdev.FileEdit.Slices.{same_bytes_iff}
use rdev.FileEdit.Lines.{edited, max_bytes, well_digested}
use rdev.FileEdit.Patch.{group, optional_group, number_of, parse_header}
use rdev.FileEdit.Diff.{print_header}
use rdev.FileEdit.Apply.{digest}

abbrev Digit : ℕ → Type 0
Digit x = 48 ≤ x × x ≤ 57

decimal_digits-Digit :
    (fuel n : ℕ) (after : Bytes) → All Digit after → All Digit (decimal_digits fuel n after)
unfolding decimal_digits
decimal_digits-Digit zero n after h = h
decimal_digits-Digit (suc fuel) n after h = elim (Bool-cases (ltb n 10)) [
  | inl y ↦ rw y ((omega arith, ground arith), h)
  | inr m ↦
      rw m
        (decimal_digits-Digit fuel (n / 10) ((48 + n % 10) ∷ after) ((omega arith, omega arith), h))
]

decimal_digits-value :
    (fuel n : ℕ) (after : Bytes)
    → n < fuel
    → digits_value 0 (decimal_digits fuel n after) ≡ digits_value n after
unfolding decimal_digits digits_value
decimal_digits-value zero n after h = ground arith
decimal_digits-value (suc fuel) n after h = elim (Bool-cases (ltb n 10)) [
  | inl y ↦ rw y (ap (λ k. digits_value k after) (omega arith))
  | inr m ↦ rw m (
      decimal_digits-value fuel (n / 10) ((48 + n % 10) ∷ after) (ground arith)
      ∙ ap (λ k. digits_value k after) (omega arith))
]

decimal_digits-not_nil :
    (fuel n : ℕ) (after : Bytes)
    → 1 ≤ fuel + length after
    → is_nil (decimal_digits fuel n after) ≡ false
unfolding decimal_digits
decimal_digits-not_nil zero n [] h = ground arith
decimal_digits-not_nil zero n (x ∷ xs) h = refl
decimal_digits-not_nil (suc fuel) n after h = elim (Bool-cases (ltb n 10)) [
  | inl y ↦ rw y refl
  | inr m ↦ rw m (decimal_digits-not_nil fuel (n / 10) ((48 + n % 10) ∷ after) (omega arith))
]

Digit-test : (d : ℕ) → Digit d → (leb 48 d && leb d 57) ≡ true
Digit-test d h = ground arith

decimal_value : (n : ℕ) → digits_value 0 (decimal n) ≡ n
unfolding digits_value
decimal_value n = decimal_digits-value (suc n) n [] (omega arith)

digits-append :
    (ds rest : Bytes) → All Digit ds → digits rest ≡ ([], rest) → digits (ds ++ rest) ≡ (ds, rest)
unfolding digits
digits-append [] rest h e = e
digits-append (d ∷ ds) rest h e = rw (digits-append ds rest h.1 e) (rw (Digit-test d h.0) refl)

number_of-lem :
    (b : Bytes) (n : ℕ)
    → is_nil b ≡ false
    → digits_value 0 b ≡ n
    → n ≤ max_bytes
    → number_of b ≡ edited n
unfolding number_of
number_of-lem [] n h e l = cc
number_of-lem (x ∷ xs) n h e l = rw e (ground arith)

number_of-decimal : (n : ℕ) → n ≤ max_bytes → number_of (decimal n) ≡ edited n
number_of-decimal n l =
    number_of-lem (decimal n) n (decimal_digits-not_nil (suc n) n [] (omega arith))
      (decimal_value n) l

group-decimal :
    (n : ℕ) (rest : Bytes)
    → digits rest ≡ ([], rest)
    → group (decimal n ++ rest) ≡ some (decimal n, rest)
unfolding group
group-decimal n rest e =
    rw (digits-append (decimal n) rest (decimal_digits-Digit (suc n) n [] tt) e)
      (rw (decimal_digits-not_nil (suc n) n [] (omega arith)) refl)

optional_group-decimal :
    (n : ℕ) (rest : Bytes)
    → digits rest ≡ ([], rest)
    → optional_group (44 ∷ (decimal n ++ rest)) ≡ (decimal n, rest)
unfolding optional_group drop_prefix
optional_group-decimal n rest e =
    rw (digits-append (decimal n) rest (decimal_digits-Digit (suc n) n [] tt) e)
      (rw (decimal_digits-not_nil (suc n) n [] (omega arith)) refl)

-- The header of a hunk that the preview prints is read back by the parser of patches as the same
-- four numbers, where none is above `max_bytes`.
pub parse_header-print_header :
    (a b c d : ℕ)
    → a ≤ max_bytes
    → b ≤ max_bytes
    → c ≤ max_bytes
    → d ≤ max_bytes
    → parse_header (print_header a b c d)
      ≡ edited record { old_start = a; old_count = b; new_start = c; new_count = d }
unfolding parse_header print_header drop_prefix digits starts_with
parse_header-print_header a b c d h i j k =
    rw
      (
        group-decimal a
            (44
              ∷ (decimal b ++ (32 ∷ 43 ∷ (decimal c ++ (44 ∷ (decimal d ++ (32 ∷ 64 ∷ 64 ∷ [])))))))
            refl,
        optional_group-decimal b
            (32 ∷ 43 ∷ (decimal c ++ (44 ∷ (decimal d ++ (32 ∷ 64 ∷ 64 ∷ []))))) refl,
        group-decimal c (44 ∷ (decimal d ++ (32 ∷ 64 ∷ 64 ∷ []))) refl,
        optional_group-decimal d (32 ∷ 64 ∷ 64 ∷ []) refl,
        number_of-decimal a h,
        number_of-decimal b i,
        number_of-decimal c j,
        number_of-decimal d k,
      )
      refl

abbrev pub IsByte : ℕ → Type 0
IsByte x = x < 256

nibble-hex_digit : (n : ℕ) → n < 16 → nibble (hex_digit n) ≡ some n
unfolding nibble hex_digit
nibble-hex_digit n h = ground arith

pub hex_decode-hex_encode : (d : Bytes) → All IsByte d → hex_decode (hex_encode d) ≡ some d
unfolding hex_decode hex_encode
hex_decode-hex_encode [] h = refl
hex_decode-hex_encode (x ∷ xs) h =
    ap (λ o. hex_pair o (nibble (hex_digit (x % 16))) (hex_decode (hex_encode xs)))
      (nibble-hex_digit (x / 16) (omega (arith, h)))
    ∙ ap (λ o. hex_pair (some (x / 16)) o (hex_decode (hex_encode xs)))
        (nibble-hex_digit (x % 16) (omega arith))
    ∙ ap (λ o. hex_pair (some (x / 16)) (some (x % 16)) o) (hex_decode-hex_encode xs h.1)
    ∙ ap (λ n. some (n ∷ xs)) (omega arith)

length-hex_encode : (d : Bytes) → length (hex_encode d) ≡ 2 * length d
unfolding hex_encode
length-hex_encode [] = refl
length-hex_encode (x ∷ xs) = omega (arith, length-hex_encode xs)

-- Where the digest function gives 32 bytes, what `digest` prints of any text passes the test that
-- `Validate` makes of a base digest: decoded and printed again it is the same 64 characters.
pub well_digested-digest :
    (sha256 : Bytes → Bytes) (b : Bytes)
    → length (sha256 b) ≡ 32
    → All IsByte (sha256 b)
    → well_digested (digest sha256 b) ≡ true
unfolding well_digested digest
well_digested-digest sha256 b l h = rw (hex_decode-hex_encode (sha256 b) h) (
    ground (
      arith,
      length-hex_encode (sha256 b),
      l,
      same_bytes_iff (hex_encode (sha256 b)) (hex_encode (sha256 b)),
    ))
