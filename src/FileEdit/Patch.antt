-- ===== src/FileEdit/Patch.antt =====
-- internal/fileedit/patch.go: a unified diff of one file, read against the lines of the base.
pub mod Fuel
use rdev.Base.{
  ℕ, zero, suc, ◌+◌, ◌-◌, Bool, true, false, not, ◌&&◌, ◌||◌, Option, none, some, List, [], ◌∷◌,
  ◌++◌, ltb, leb, ◌==◌, if◌then◌else◌, length, is_nil, get_or,
}
use rdev.FileEdit.Bytes.{
  Bytes, slice, same_bytes, starts_with, is_text, split_after, trim_newline, ends_line, digits,
  digits_value, drop_prefix,
}
use rdev.FileEdit.Lines.{
  Edited, edited, failed, ◌>>=◌, ◌>>◌, fail_if, or_fail, EditCode, invalid_request, limit_exceeded,
  edit_text, edit_mismatch, max_bytes, max_edits,
}

pub record Splice : Type 0 where
  pub start : ℕ
  pub stop : ℕ
  pub replacement : Bytes

-- A group of the header's expression that may be absent, which is `[]` then.
unfoldable pub optional_group : Bytes → Bytes × Bytes
optional_group b = elim (drop_prefix (44 ∷ []) b) [
  | none ↦ ([], b)
  | some rest ↦ let (v, after) = digits rest in if is_nil v then ([], b) else (v, after)
]

unfoldable pub group : Bytes → Option (Bytes × Bytes)
group b = let (v, after) = digits b in if is_nil v then none else some (v, after)

pub record Header : Type 0 where
  pub old_start : ℕ
  pub old_count : ℕ
  pub new_start : ℕ
  pub new_count : ℕ

-- An absent number is 1. What `Atoi` finds out of range is above `max_bytes` too.
unfoldable pub number_of : Bytes → Edited ℕ
number_of [] = edited 1
number_of (x ∷ xs) =
    let n = digits_value 0 (x ∷ xs) in if ltb max_bytes n then failed invalid_request else edited n

-- The expression `header`, "@@ -a,b +c,d @@ text", and its numbers.
unfoldable pub parse_header : Bytes → Edited Header
unfolding optional_group group number_of
parse_header b = do
  b₁ ← or_fail invalid_request (drop_prefix (64 ∷ 64 ∷ 32 ∷ 45 ∷ []) b)
  m₁ ← or_fail invalid_request (group b₁)
  let m₂ = optional_group m₁.1
  b₂ ← or_fail invalid_request (drop_prefix (32 ∷ 43 ∷ []) m₂.1)
  m₃ ← or_fail invalid_request (group b₂)
  let m₄ = optional_group m₃.1
  b₃ ← or_fail invalid_request (drop_prefix (32 ∷ 64 ∷ 64 ∷ []) m₄.1)
  fail_if (not (is_nil b₃) && not (starts_with (32 ∷ []) b₃)) invalid_request
  n₁ ← number_of m₁.0
  n₂ ← number_of m₂.0
  n₃ ← number_of m₃.0
  n₄ ← number_of m₄.0
  edited record { old_start = n₁; old_count = n₂; new_start = n₃; new_count = n₄ }

-- The old and the new text of a hunk, with the numbers of their lines.
pub record HunkText : Type 0 where
  pub old_text : Bytes
  pub new_text : Bytes
  pub old_n : ℕ
  pub new_n : ℕ

abbrev pub no_text : HunkText
no_text = record { old_text = []; new_text = []; old_n = 0; new_n = 0 }

-- "\ No newline at end of file\n"
abbrev pub no_newline : Bytes
no_newline =
    92 ∷ 32 ∷ 78 ∷ 111 ∷ 32 ∷ 110 ∷ 101 ∷ 119 ∷ 108 ∷ 105 ∷ 110 ∷ 101 ∷ 32 ∷ 97 ∷ 116 ∷ 32 ∷ 101
    ∷ 110 ∷ 100 ∷ 32 ∷ 111 ∷ 102 ∷ 32 ∷ 102 ∷ 105 ∷ 108 ∷ 101 ∷ 10 ∷ []

-- A line of a hunk, which a mark says to be the last and unended.
unfoldable pub add_line : HunkText → Bool → Bytes → Edited HunkText
add_line h unended [] = failed invalid_request
add_line h unended (p ∷ []) = failed invalid_request
add_line h unended (p ∷ x ∷ xs) =
    let body = if unended then trim_newline (x ∷ xs) else x ∷ xs in
    if not (p == 32) && not (p == 45) && not (p == 43)
    then failed invalid_request
    else edited record {
      old_text = if p == 43 then h.old_text else h.old_text ++ body;
      new_text = if p == 45 then h.new_text else h.new_text ++ body;
      old_n = if p == 43 then h.old_n else h.old_n + 1;
      new_n = if p == 45 then h.new_n else h.new_n + 1;
    }

-- "@@ "
abbrev pub is_header : Bytes → Bool
is_header line = starts_with (64 ∷ 64 ∷ 32 ∷ []) line

-- The loop over the lines of a hunk, and the lines behind it.
unfoldable pub hunk_lines : HunkText → List Bytes → Edited (HunkText × List Bytes)
hunk_lines h [] = edited (h, [])
hunk_lines h (line ∷ []) =
    if is_header line
    then edited (h, line ∷ [])
    else (do h' ← add_line h false line; edited (h', []))
hunk_lines h (line ∷ next ∷ lines) =
    let onward = λ (h' : HunkText). hunk_lines h' (next ∷ lines) in
    let beyond = λ (h' : HunkText). hunk_lines h' lines in
    let unended = same_bytes next no_newline in
    if is_header line
    then edited (h, line ∷ next ∷ lines)
    else (do h' ← add_line h unended line; if unended then beyond h' else onward h')

-- What the loop over the hunks keeps: `delta` is `inserted - deleted`, and the last splice is first.
pub record Hunks : Type 0 where
  pub edits : List Splice
  pub inserted : ℕ
  pub deleted : ℕ
  pub last_end : ℕ

-- The index of a range's first line; one of no lines stands behind the line that it names.
abbrev pub index_of : ℕ → ℕ → ℕ
index_of start count = if count == 0 then start else start - 1

unfoldable pub misplaced : List ℕ → Hunks → Header → Bool
misplaced offsets s m =
    let old_index = index_of m.old_start m.old_count in
    let new_index = index_of m.new_start m.new_count in
    not (m.old_count == 0) && m.old_start == 0
    || not (m.new_count == 0) && m.new_start == 0
    || not (new_index + s.deleted == old_index + s.inserted)
    || ltb old_index s.last_end
    || leb (length offsets) old_index
    || ltb (length offsets - 1 - old_index) m.old_count

-- One hunk, behind its header's line.
unfoldable pub parse_hunk :
    Bytes → List ℕ → Hunks → Header → List Bytes → Edited (Hunks × List Bytes)
parse_hunk base offsets s m lines = do
  fail_if (misplaced offsets s m) edit_mismatch
  r ← hunk_lines no_text lines
  let h = r.0
  fail_if (not (h.old_n == m.old_count) || not (h.new_n == m.new_count) || h.old_n + h.new_n == 0)
      invalid_request
  let old_index = index_of m.old_start m.old_count
  let start = get_or offsets old_index 0
  let stop = get_or offsets (old_index + m.old_count) 0
  fail_if (not (same_bytes h.old_text (slice start stop base))) edit_mismatch
  fail_if (leb max_edits (length s.edits)) limit_exceeded
  edited (
    record {
      edits = record { start = start; stop = stop; replacement = h.new_text } ∷ s.edits;
      inserted = s.inserted + m.new_count;
      deleted = s.deleted + m.old_count;
      last_end = old_index + m.old_count;
    },
    r.1,
  )

-- The loop over the hunks; each takes its header's line at least, so the number of lines is fuel
-- enough.
unfoldable pub parse_hunks : ℕ → Bytes → List ℕ → Hunks → List Bytes → Edited Hunks
parse_hunks fuel base offsets s [] = edited s
parse_hunks zero base offsets s (line ∷ lines) = failed limit_exceeded
parse_hunks (suc fuel) base offsets s (line ∷ lines) =
    let onward = λ (r : Hunks × List Bytes). parse_hunks fuel base offsets r.0 r.1 in
    do m ← parse_header (trim_newline line); r ← parse_hunk base offsets s m lines; onward r

-- `lines[:len(lines)-1]`
unfoldable pub without_last {ℓ} : {A : Type ℓ} → List A → List A
without_last [] = []
without_last (x ∷ []) = []
without_last (x ∷ y ∷ xs) = x ∷ without_last (y ∷ xs)

-- The lines behind the names of the files, "--- " and "+++ ".
unfoldable pub hunks_of : List Bytes → Edited (List Bytes)
hunks_of [] = edited []
hunks_of (line ∷ lines) =
    if starts_with (45 ∷ 45 ∷ 45 ∷ 32 ∷ []) line
    then elim lines [
      | [] ↦ failed invalid_request
      | second ∷ rest ↦
          if is_nil rest || not (starts_with (43 ∷ 43 ∷ 43 ∷ 32 ∷ []) second)
          then failed invalid_request
          else edited rest
    ]
    else edited (line ∷ lines)

unfoldable pub reversed {ℓ} : {A : Type ℓ} → List A → List A → List A
reversed [] ys = ys
reversed (x ∷ xs) ys = reversed xs (x ∷ ys)

abbrev pub no_hunks : Hunks
no_hunks = record { edits = []; inserted = 0; deleted = 0; last_end = 0 }

unfoldable pub parse_patch : Bytes → List ℕ → Bytes → Edited (List Splice)
parse_patch base offsets patch = do
  fail_if (not (is_text patch)) edit_text
  fail_if (not (ends_line patch)) invalid_request
  lines ← hunks_of (without_last (split_after patch))
  s ← parse_hunks (length lines) base offsets no_hunks lines
  fail_if (is_nil s.edits) invalid_request
  edited (reversed s.edits [])
