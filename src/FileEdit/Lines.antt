-- ===== src/FileEdit/Lines.antt =====
-- internal/fileedit/edit.go: the parameters of an edit, its validation and the boundaries of lines.
-- internal/proto/proto.go: the parameters' types.
use rdev.Base.{
  ℕ, ◌≡◌, refl, suc, ◌+◌, String, Bool, true, false, not, ◌&&◌, ◌||◌, Option, none, some, List, [],
  ◌∷◌, ltb, ◌==◌, same, is_some, is_nil, if◌then◌else◌, length,
}
use rdev.Base.Int.{ℤ, pos, negsuc, ltb_ℤ}
use rdev.FileEdit.Bytes.{Bytes, same_bytes, is_text, hex_decode, hex_encode}

pub record LineEdit : Type 0 where
  pub start_line : ℤ
  pub end_line : ℤ
  pub expected : Option Bytes
  pub replacement : Bytes

pub record EditParams : Type 0 where
  pub path : Bytes
  pub kind : String
  pub base_digest : Bytes
  pub content : Option Bytes
  pub patch : Bytes
  pub lines : List LineEdit
  pub search : Bytes
  pub replacement : Bytes
  pub replace_all : Bool

-- The error codes that the package fails with.
pub data EditCode : Type 0 where
  invalid_request limit_exceeded edit_conflict edit_text edit_mismatch edit_overlap : EditCode

-- A value or an error.
pub data Edited {ℓ} (A : Type ℓ) : Type ℓ where
  edited : A → Edited A
  failed : EditCode → Edited A

infixl 5 ◌>>=◌ ◌>>◌
abbrev pub ◌>>=◌ {ℓ κ} : {A : Type ℓ} {B : Type κ} → Edited A → (A → Edited B) → Edited B
edited a >>= f = f a
failed c >>= f = failed c

abbrev pub ◌>>◌ {ℓ} : {B : Type ℓ} → Edited (Unit {0}) → Edited B → Edited B
m >> k = m >>= λ _. k

-- A guard of the code: `return nil, failure(code)` where the test holds.
abbrev pub fail_if : Bool → EditCode → Edited (Unit {0})
fail_if true code = failed code
fail_if false code = edited tt

-- An optional value, with the failure where there is none.
abbrev pub or_fail {ℓ} : {A : Type ℓ} → EditCode → Option A → Edited A
or_fail code none = failed code
or_fail code (some a) = edited a

pub bind-edited {ℓ κ} :
    {A : Type ℓ} {B : Type κ} (m : Edited A) (f : A → Edited B) {b : B}
    → (m >>= f) ≡ edited b
    → (a : A) × (m ≡ edited a) × (f a ≡ edited b)
bind-edited (edited a) f h = (a, refl, h)
bind-edited (failed c) f h = cc

abbrev pub max_bytes : ℕ
max_bytes = 4194304

abbrev pub max_edits : ℕ
max_edits = 128

abbrev pub zero_ℤ : ℤ → Bool
zero_ℤ (pos n) = n == 0
zero_ℤ (negsuc n) = false

abbrev pub size_of : Option Bytes → ℕ
size_of none = 0
size_of (some b) = length b

-- The digest is its own bytes in lower-case hexadecimal.
unfoldable pub well_digested : Bytes → Bool
well_digested digest =
    length digest == 64
    && elim (hex_decode digest) [ none ↦ false | some d ↦ same_bytes (hex_encode d) digest ]

-- The loop over the line edits.
unfoldable pub validate_lines : ℕ → List LineEdit → Option EditCode
validate_lines total [] = none
validate_lines total (e ∷ es) =
    let total' = total + length e.replacement + size_of e.expected in
    let rest = validate_lines total' es in
    if ltb_ℤ e.start_line (pos 1)
      || ltb_ℤ e.end_line (pos 0)
      || not (zero_ℤ e.end_line) && ltb_ℤ e.end_line e.start_line
    then some invalid_request
    else if ltb max_bytes total'
    then some limit_exceeded
    else rest

abbrev pub no_search : EditParams → Bool
no_search p = is_nil p.search && is_nil p.replacement && not p.replace_all

unfoldable pub validate_kind : EditParams → Option EditCode
validate_kind p =
    if same p.kind "replace"
    then if not (is_some p.content)
        || not (is_nil p.patch)
        || not (is_nil p.lines)
        || not (no_search p)
      then some invalid_request
      else if ltb max_bytes (size_of p.content)
      then some limit_exceeded
      else none
    else if same p.kind "patch"
    then if is_some p.content || is_nil p.patch || not (is_nil p.lines) || not (no_search p)
      then some invalid_request
      else if ltb max_bytes (length p.patch)
      then some limit_exceeded
      else none
    else if same p.kind "lines"
    then if is_some p.content || not (is_nil p.patch) || is_nil p.lines || not (no_search p)
      then some invalid_request
      else if ltb max_edits (length p.lines)
      then some limit_exceeded
      else validate_lines 0 p.lines
    else if same p.kind "search"
    then if is_some p.content
        || not (is_nil p.patch)
        || not (is_nil p.lines)
        || is_nil p.search
        || not (is_text p.search)
        || not (is_text p.replacement)
      then some invalid_request
      else if ltb max_bytes (length p.search + length p.replacement)
      then some limit_exceeded
      else none
    else some invalid_request

-- `Validate`: `none` is the nil error.
unfoldable pub validate_edit : Option EditParams → Option EditCode
validate_edit none = some invalid_request
validate_edit (some p) =
    if is_nil p.path || not (well_digested p.base_digest)
    then some invalid_request
    else validate_kind p

-- The boundaries behind the first `n` bytes, of which the last boundary is `last`.
unfoldable pub boundaries_from : ℕ → ℕ → Bytes → List ℕ
boundaries_from last n [] = if last == n then [] else n ∷ []
boundaries_from last n (x ∷ xs) =
    let broken = boundaries_from (suc n) (suc n) xs in
    let whole = boundaries_from last (suc n) xs in if x == 10 then suc n ∷ broken else whole

unfoldable pub boundaries : Bytes → List ℕ
boundaries b = 0 ∷ boundaries_from 0 0 b
