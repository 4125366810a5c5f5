-- ===== src/FileEdit/Apply/Inside.antt =====
-- Where the splices of line edits and of patches lie.
use rdev.Base.{
  ℕ, zero, suc, ◌+◌, ◌-◌, ◌≤◌, ◌<◌, ◌≡◌, sym, ap, true, false, not, ◌&&◌, ◌||◌, none, some, List,
  [], ◌∷◌, arith, length, All, leb, ◌==◌, get_or, ◌⊎◌, inl, inr, Bool-cases, same, same_iff,
  if-elim, is_nil,
}
use rdev.Base.Int.{ℤ, pos, negsuc, pos_part, ltb_ℤ}
use rdev.FileEdit.Bytes.{Bytes, slice, same_bytes, trim_newline, is_text, ends_line, split_after}
use rdev.FileEdit.Boundaries.{boundaries-Rising, Rising-get_le}
use rdev.FileEdit.Lines.{
  LineEdit, EditParams, edited, fail_if, bind-edited, validate_lines, validate_kind, validate_edit,
  boundaries, zero_ℤ, size_of,
}
use rdev.FileEdit.Patch.{
  Splice, Header, Hunks, misplaced, index_of, hunk_lines, no_text, parse_header, parse_hunk,
  parse_hunks, parse_patch, reversed, no_hunks, hunks_of, without_last,
}
use rdev.FileEdit.Apply.{line_splice, line_splices, sort_in, sort_splices, earlier, splices_of}
use rdev.FileEdit.Apply.Splicing.{Inside}

-- A line edit whose numbers are in order.
abbrev ValidLine : LineEdit → Type 0
ValidLine e =
    1 ≤ pos_part e.start_line
    × ((pos_part e.end_line ≡ 0) ⊎ (pos_part e.start_line ≤ pos_part e.end_line))

line-valid :
    (s e : ℤ)
    → (ltb_ℤ s (pos 1) || ltb_ℤ e (pos 0) || not (zero_ℤ e) && ltb_ℤ e s) ≡ false
    → 1 ≤ pos_part s × ((pos_part e ≡ 0) ⊎ (pos_part s ≤ pos_part e))
line-valid (pos s) (pos e) h = ground arith
line-valid (pos s) (negsuc e) h = ground arith
line-valid (negsuc s) e h = ground arith

validate_lines-Valid :
    (es : List LineEdit) (total : ℕ) → validate_lines total es ≡ none → All ValidLine es
unfolding validate_lines
validate_lines-Valid [] total h = tt
validate_lines-Valid (e ∷ es) total h = (
  line-valid e.start_line e.end_line (ground arith),
  validate_lines-Valid es (total + length e.replacement + size_of e.expected) (ground arith),
)

line_splice-Inside :
    (base : Bytes) (e : LineEdit) (s : Splice)
    → ValidLine e
    → line_splice base (boundaries base) e ≡ edited s
    → Inside (length base) s
unfolding line_splice
line_splice-Inside base e s v h =
    let offsets = boundaries base in
    let first = pos_part e.start_line in
    let last = pos_part e.end_line in
    let a : first ≤ length offsets = ground arith in
    let b : last < length offsets = ground arith in
    let r = boundaries-Rising base in
    let g =
      Rising-get_le 0 (length base) offsets (first - 1) (first - 1) r (omega arith)
        (omega (arith, v)) in
    elim (Bool-cases (last == 0)) [
      | inl y ↦ ground (arith, g)
      | inr n ↦
          let k = Rising-get_le 0 (length base) offsets (first - 1) last r (ground (arith, v)) b in
          ground (arith, k)
    ]

line_splices-Inside :
    (base : Bytes) (es : List LineEdit) (ss : List Splice)
    → All ValidLine es
    → line_splices base (boundaries base) es ≡ edited ss
    → All (Inside (length base)) ss
unfolding line_splices
line_splices-Inside base [] [] v h = tt
line_splices-Inside base [] (s ∷ ss) v h = cc
line_splices-Inside base (e ∷ es) ss v h =
    let (s, a, k) = bind-edited (line_splice base (boundaries base) e) _ h in
    let (rest, b, l) = bind-edited (line_splices base (boundaries base) es) _ k in
    let eq : s ∷ rest ≡ ss = ground arith in
    rw (sym eq) (line_splice-Inside base e s v.0 a, line_splices-Inside base es rest v.1 b)

parse_hunk-Inside :
    (base : Bytes) (s : Hunks) (m : Header) (lines : List Bytes) (r : Hunks × List Bytes)
    → All (Inside (length base)) s.edits
    → parse_hunk base (boundaries base) s m lines ≡ edited r
    → All (Inside (length base)) r.0.edits
unfolding parse_hunk misplaced
parse_hunk-Inside base s m lines r v h =
    let i = index_of m.old_start m.old_count in
    let offsets = boundaries base in
    let (_, a, h₁) = bind-edited (fail_if (misplaced offsets s m) _) _ h in
    let (t, b, h₂) = bind-edited (hunk_lines no_text lines) _ h₁ in
    let (_, c, h₃) =
      bind-edited
        (fail_if
          (not (t.0.old_n == m.old_count)
            || not (t.0.new_n == m.new_count)
            || t.0.old_n + t.0.new_n == 0)
          _)
        _ h₂ in
    let (_, d, h₄) =
      bind-edited
        (fail_if
          (not (
            same_bytes t.0.old_text
              (slice (get_or offsets i 0) (get_or offsets (i + m.old_count) 0) base)))
          _)
        _ h₃ in
    let (_, e, h₅) = bind-edited (fail_if (leb 128 (length s.edits)) _) _ h₄ in
    let k =
      Rising-get_le 0 (length base) offsets i (i + m.old_count) (boundaries-Rising base)
        (omega arith) (ground arith) in
    let eq : Splice = record {
      start = get_or offsets i 0;
      stop = get_or offsets (i + m.old_count) 0;
      replacement = t.0.new_text;
    } in
    let w : eq ∷ s.edits ≡ r.0.edits = ground arith in rw (sym w) (k, v)

parse_hunks-Inside :
    (fuel : ℕ) (base : Bytes) (s t : Hunks) (lines : List Bytes)
    → All (Inside (length base)) s.edits
    → parse_hunks fuel base (boundaries base) s lines ≡ edited t
    → All (Inside (length base)) t.edits
unfolding parse_hunks
parse_hunks-Inside fuel base s t [] v h = let e : s ≡ t = ground arith in rw (sym e) v
parse_hunks-Inside zero base s t (line ∷ lines) v h = cc
parse_hunks-Inside (suc fuel) base s t (line ∷ lines) v h =
    let (m, a, k) = bind-edited (parse_header (trim_newline line)) _ h in
    let (r, b, l) = bind-edited (parse_hunk base (boundaries base) s m lines) _ k in
    parse_hunks-Inside fuel base r.0 t r.1 (parse_hunk-Inside base s m lines r v b) l

reversed-Inside :
    (n : ℕ) (xs ys : List Splice)
    → All (Inside n) xs
    → All (Inside n) ys
    → All (Inside n) (reversed xs ys)
unfolding reversed
reversed-Inside n [] ys v w = w
reversed-Inside n (x ∷ xs) ys v w = reversed-Inside n xs (x ∷ ys) v.1 (v.0, w)

parse_patch-Inside :
    (base patch : Bytes) (ss : List Splice)
    → parse_patch base (boundaries base) patch ≡ edited ss
    → All (Inside (length base)) ss
unfolding parse_patch
parse_patch-Inside base patch ss h =
    let (_, a, h₁) = bind-edited (fail_if (not (is_text patch)) _) _ h in
    let (_, b, h₂) = bind-edited (fail_if (not (ends_line patch)) _) _ h₁ in
    let (lines, c, h₃) = bind-edited (hunks_of (without_last (split_after patch))) _ h₂ in
    let (t, d, h₄) =
      bind-edited (parse_hunks (length lines) base (boundaries base) no_hunks lines) _ h₃ in
    let (_, e, h₅) = bind-edited (fail_if (is_nil t.edits) _) _ h₄ in
    let w : reversed t.edits [] ≡ ss = ground arith in
    rw (sym w) (
      reversed-Inside (length base) t.edits []
        (parse_hunks-Inside (length lines) base no_hunks t lines tt d) tt)

sort_in-Inside :
    (n : ℕ) (s : Splice) (ts : List Splice)
    → Inside n s
    → All (Inside n) ts
    → All (Inside n) (sort_in s ts)
unfolding sort_in
sort_in-Inside n s [] v w = (v, tt)
sort_in-Inside n s (t ∷ ts) v w =
    if-elim (All (Inside n)) (earlier t s) (λ y. (w.0, sort_in-Inside n s ts v w.1)) (λ m. (v, w))

pub sort_splices-Inside :
    (n : ℕ) (ss : List Splice) → All (Inside n) ss → All (Inside n) (sort_splices ss)
unfolding sort_splices
sort_splices-Inside n [] v = tt
sort_splices-Inside n (s ∷ ss) v =
    sort_in-Inside n s (sort_splices ss) v.0 (sort_splices-Inside n ss v.1)

-- The line edits of valid parameters.
valid_lines :
    (p : EditParams)
    → validate_edit (some p) ≡ none
    → same p.kind "lines" ≡ true
    → All ValidLine p.lines
unfolding validate_edit validate_kind
valid_lines p h k =
    let e : p.kind ≡ "lines" = (same_iff p.kind "lines").0 k in
    let r : same p.kind "replace" ≡ false = ap (λ s. same s "replace") e in
    let q : same p.kind "patch" ≡ false = ap (λ s. same s "patch") e in
    validate_lines-Valid p.lines 0 (ground arith)

is_lines :
    (p : EditParams)
    → validate_edit (some p) ≡ none
    → same p.kind "patch" ≡ false
    → same p.kind "replace" ≡ false
    → same p.kind "search" ≡ false
    → same p.kind "lines" ≡ true
unfolding validate_edit validate_kind
is_lines p v a b c = ground arith

pub splices_of-Inside :
    (base : Bytes) (p : EditParams) (ss : List Splice)
    → validate_edit (some p) ≡ none
    → same p.kind "replace" ≡ false
    → same p.kind "search" ≡ false
    → splices_of base p ≡ edited ss
    → All (Inside (length base)) ss
unfolding splices_of
splices_of-Inside base p ss v r s h = elim (Bool-cases (same p.kind "patch")) [
  | inl y ↦ parse_patch-Inside base p.patch ss (rw y at h)
  | inr n ↦ line_splices-Inside base p.lines ss (valid_lines p v (is_lines p v n r s)) (rw n at h)
]
