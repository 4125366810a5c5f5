-- ===== src/FileEdit/Apply.antt =====
-- internal/fileedit/edit.go: `Apply`. The SHA-256 of the package crypto/sha256 is the parameter `sha256`.
pub mod Splicing
pub mod Inside
pub mod Outcomes
pub mod Stale
use rdev.Base.{
  ℕ, zero, suc, ◌+◌, ◌-◌, String, Bool, true, false, not, ◌&&◌, ◌||◌, Option, none, some, List, [],
  ◌∷◌, ◌++◌, ltb, leb, ◌==◌, same, if◌then◌else◌, length, get_or, take, drop,
}
use rdev.Base.Int.{ℤ, pos_part}
use rdev.FileEdit.Bytes.{Bytes, slice, same_bytes, is_text, hex_encode, count, replace_first}
use rdev.FileEdit.Lines.{
  LineEdit, EditParams, Edited, edited, failed, ◌>>=◌, ◌>>◌, fail_if, or_fail, EditCode,
  limit_exceeded, edit_conflict, edit_text, edit_mismatch, edit_overlap, max_bytes, zero_ℤ,
  validate_edit, boundaries,
}
use rdev.FileEdit.Patch.{Splice, parse_patch}

abbrev pub matches : Option Bytes → Bytes → Bool
matches none b = true
matches (some expected) b = same_bytes expected b

-- The splice of a line edit, whose numbers `validate_edit` has found to be positive.
unfoldable pub line_splice : Bytes → List ℕ → LineEdit → Edited Splice
line_splice base offsets e =
    let first = pos_part e.start_line in
    let last = pos_part e.end_line in
    let start = get_or offsets (first - 1) 0 in
    let stop = if last == 0 then start else get_or offsets last 0 in
    if ltb (length offsets) first || leb (length offsets) last
    then failed edit_mismatch
    else if matches e.expected (slice start stop base)
    then edited record { start = start; stop = stop; replacement = e.replacement }
    else failed edit_mismatch

unfoldable pub line_splices : Bytes → List ℕ → List LineEdit → Edited (List Splice)
line_splices base offsets [] = edited []
line_splices base offsets (e ∷ es) = do
  s ← line_splice base offsets e
  ss ← line_splices base offsets es
  edited (s ∷ ss)

-- The order of `sort.Slice`, here by insertion; two splices of one place fail whatever their order.
abbrev pub earlier : Splice → Splice → Bool
earlier a b = if a.start == b.start then ltb a.stop b.stop else ltb a.start b.start

unfoldable pub sort_in : Splice → List Splice → List Splice
sort_in s [] = s ∷ []
sort_in s (t ∷ ts) = let rest = sort_in s ts in if earlier t s then t ∷ rest else s ∷ t ∷ ts

unfoldable pub sort_splices : List Splice → List Splice
sort_splices [] = []
sort_splices (s ∷ ss) = sort_in s (sort_splices ss)

abbrev pub overlaps : Option Splice → Splice → Bool
overlaps none e = false
overlaps (some previous) e = ltb e.start previous.stop || e.start == previous.start

-- The size of the result, with the checks of each splice against the one before.
unfoldable pub spliced_size : ℕ → Option Splice → List Splice → Edited ℕ
spliced_size size previous [] = edited size
spliced_size size previous (e ∷ es) = do
  fail_if (not (is_text e.replacement)) edit_text
  fail_if (overlaps previous e) edit_overlap
  let size' = size + length e.replacement - (e.stop - e.start)
  fail_if (ltb max_bytes size') limit_exceeded
  spliced_size size' (some e) es

-- What is written from `position` on.
unfoldable pub splice_all : Bytes → ℕ → List Splice → Bytes
splice_all base position [] = drop position base
splice_all base position (e ∷ es) =
    slice position e.start base ++ (e.replacement ++ splice_all base e.stop es)

unfoldable pub apply_search : Bytes → EditParams → Edited Bytes
apply_search base p =
    let n = count p.search base in
    let out = replace_first (if p.replace_all then n else 1) p.search p.replacement base in
    if n == 0
    then failed edit_mismatch
    else if ltb max_bytes (length out)
    then failed limit_exceeded
    else edited out

unfoldable pub apply_splices : Bytes → List Splice → Edited Bytes
apply_splices base edits =
    let sorted = sort_splices edits in
    do size ← spliced_size (length base) none sorted; edited (splice_all base 0 sorted)

unfoldable pub splices_of : Bytes → EditParams → Edited (List Splice)
splices_of base p =
    if same p.kind "patch"
    then parse_patch base (boundaries base) p.patch
    else line_splices base (boundaries base) p.lines

unfoldable pub apply_content : Option Bytes → Edited Bytes
apply_content content = do
  c ← or_fail edit_text content
  fail_if (not (is_text c)) edit_text
  edited c

module _ (sha256 : Bytes → Bytes) where
  -- `Digest`
  unfoldable pub digest : Bytes → Bytes
  digest b = hex_encode (sha256 b)

  -- `Apply`. A valid replacement has a content.
  unfoldable pub apply : Bytes → EditParams → Edited Bytes
  apply base p = elim (validate_edit (some p)) [
    | some code ↦ failed code
    | none ↦
        if ltb max_bytes (length base)
        then failed limit_exceeded
        else if not (same_bytes (digest base) p.base_digest)
        then failed edit_conflict
        else if not (is_text base)
        then failed edit_text
        else if same p.kind "replace"
        then apply_content p.content
        else if same p.kind "search"
        then apply_search base p
        else (do ss ← splices_of base p; apply_splices base ss)
  ]
