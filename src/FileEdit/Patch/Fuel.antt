-- ===== src/FileEdit/Patch/Fuel.antt =====
-- The fuel of the loop over the hunks of a patch.
use rdev.Base.{
  ℕ, zero, suc, ◌+◌, ◌≤◌, ◌≡◌, refl, subst, false, not, ◌||◌, List, [], ◌∷◌, arith, length,
  if◌then◌else◌, leb, ◌==◌, get_or, if-elim,
}
use rdev.FileEdit.Bytes.{Bytes, slice, same_bytes, trim_newline}
use rdev.FileEdit.Lines.{Edited, edited, failed, ◌>>=◌, fail_if, bind-edited}
use rdev.FileEdit.Patch.{
  Header, HunkText, Hunks, is_header, no_newline, add_line, misplaced, index_of, hunk_lines,
  no_text, parse_header, parse_hunk, parse_hunks,
}

-- The lines that are left are no more than before.
abbrev Shorter : ℕ → Edited (HunkText × List Bytes) → Type 0
Shorter n (failed c) = Unit {0}
Shorter n (edited (h, rest)) = length rest ≤ n

Shorter-weaker : (n m : ℕ) (r : Edited (HunkText × List Bytes)) → n ≤ m → Shorter n r → Shorter m r
Shorter-weaker n m (failed c) h s = tt
Shorter-weaker n m (edited (h, rest)) le s = omega arith

hunk_lines-Shorter :
    (h : HunkText) (lines : List Bytes) → Shorter (length lines) (hunk_lines h lines)
unfolding hunk_lines
hunk_lines-Shorter h [] = omega arith
hunk_lines-Shorter h (line ∷ []) =
    if-elim (Shorter 1) (is_header line) (λ y. omega arith)
      (λ n. elim (add_line h false line) as (λ r. Shorter 1 (r >>= λ h'. edited (h', []))) [
        | failed c ↦ tt
        | edited h' ↦ omega arith
      ])
hunk_lines-Shorter h (line ∷ next ∷ lines) =
    let n = length (line ∷ next ∷ lines) in
    let unended = same_bytes next no_newline in
    if-elim (Shorter n) (is_header line) (λ y. omega arith)
      (λ m.
        elim (add_line h unended line)
          as (λ r.
            Shorter n
              (r >>= λ h'. if unended then hunk_lines h' lines else hunk_lines h' (next ∷ lines))) [
                | failed c ↦ tt
                | edited h' ↦
                    if-elim (Shorter n) unended
                      (λ y.
                        Shorter-weaker (length lines) n (hunk_lines h' lines) (omega arith)
                          (hunk_lines-Shorter h' lines))
                      (λ k.
                        Shorter-weaker (length (next ∷ lines)) n (hunk_lines h' (next ∷ lines))
                          (omega arith) (hunk_lines-Shorter h' (next ∷ lines)))
              ])

parse_hunk-shorter :
    (base : Bytes) (offsets : List ℕ) (s : Hunks) (m : Header) (lines : List Bytes)
    (r : Hunks × List Bytes)
    → parse_hunk base offsets s m lines ≡ edited r
    → length r.1 ≤ length lines
unfolding parse_hunk
parse_hunk-shorter base offsets s m lines r h =
    let i = index_of m.old_start m.old_count in
    let (_, a, h₁) = bind-edited (fail_if (misplaced offsets s m) _) _ h in
    let (t, b, h₂) = bind-edited (hunk_lines no_text lines) _ h₁ in
    let (_, c, h₃) =
      bind-edited
        (fail_if
          (not (t.0.old_n == m.old_count)
            || not (t.0.new_n == m.new_count)
            || t.0.old_n + t.0.new_n == 0)
          _)
        _ h₂ in
    let (_, d, h₄) =
      bind-edited
        (fail_if
          (not (
            same_bytes t.0.old_text
              (slice (get_or offsets i 0) (get_or offsets (i + m.old_count) 0) base)))
          _)
        _ h₃ in
    let (_, e, h₅) = bind-edited (fail_if (leb 128 (length s.edits)) _) _ h₄ in
    let k : Shorter (length lines) (edited t) =
      subst (Shorter (length lines)) b (hunk_lines-Shorter no_text lines) in
    let w : t.1 ≡ r.1 = ground arith in subst (λ (x : List Bytes). length x ≤ length lines) w k

after_hunk :
    (f g : Hunks × List Bytes → Edited Hunks) (e : Edited (Hunks × List Bytes))
    → ((r : Hunks × List Bytes) → e ≡ edited r → f r ≡ g r)
    → (e >>= f) ≡ (e >>= g)
after_hunk f g (failed c) h = refl
after_hunk f g (edited r) h = h r refl

-- The loop over the hunks of a patch ends within as many rounds as there are lines: with any two
-- fuels of at least that number it gives the same.
pub parse_hunks_enough :
    (n m : ℕ) (base : Bytes) (offsets : List ℕ) (s : Hunks) (lines : List Bytes)
    → length lines ≤ n
    → length lines ≤ m
    → parse_hunks n base offsets s lines ≡ parse_hunks m base offsets s lines
unfolding parse_hunks
parse_hunks_enough zero zero base offsets s [] h k = refl
parse_hunks_enough zero (suc m) base offsets s [] h k = refl
parse_hunks_enough (suc n) zero base offsets s [] h k = refl
parse_hunks_enough (suc n) (suc m) base offsets s [] h k = refl
parse_hunks_enough zero m base offsets s (line ∷ lines) h k = ground arith
parse_hunks_enough (suc n) zero base offsets s (line ∷ lines) h k = ground arith
parse_hunks_enough (suc n) (suc m) base offsets s (line ∷ lines) h k =
    elim (parse_header (trim_newline line))
      as (λ e.
        (e >>= λ t. parse_hunk base offsets s t lines >>= λ r. parse_hunks n base offsets r.0 r.1)
        ≡ (e >>= λ t.
            parse_hunk base offsets s t lines >>= λ r. parse_hunks m base offsets r.0 r.1)) [
              | failed c ↦ refl
              | edited t ↦
                  after_hunk (λ r. parse_hunks n base offsets r.0 r.1)
                    (λ r. parse_hunks m base offsets r.0 r.1) (parse_hunk base offsets s t lines)
                    (λ r e.
                      let l = parse_hunk-shorter base offsets s t lines r e in
                      parse_hunks_enough n m base offsets r.0 r.1 (omega (arith, l))
                        (omega (arith, l)))
            ]
