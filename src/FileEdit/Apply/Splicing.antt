-- ===== src/FileEdit/Apply/Splicing.antt =====
-- What the loop that writes the splices makes of the base.
use rdev.Base.{
  ℕ, ◌+◌, ◌-◌, ◌≤◌, ◌≡◌, refl, sym, ap, ◌∙◌, true, false, Option, none, some, List, [], ◌∷◌, ◌++◌,
  arith, length, take, drop, All, length-append,
}
use rdev.FileEdit.Bytes.{Bytes, slice, is_text}
use rdev.FileEdit.Slices.{
  length-take, length-drop, length-slice, take-append, drop-append, take-take, drop-take,
}
use rdev.FileEdit.Lines.{edited, max_bytes}
use rdev.FileEdit.Patch.{Splice}
use rdev.FileEdit.Apply.{overlaps, spliced_size, splice_all}

-- The splice lies inside of a text of `n` bytes.
abbrev pub Inside : ℕ → Splice → Type 0
Inside n s = s.start ≤ s.stop × s.stop ≤ n

-- The splices lie behind each other from `position` on.
abbrev pub Ordered : ℕ → List Splice → Type 0
Ordered position [] = Unit {0}
Ordered position (e ∷ es) = position ≤ e.start × Ordered e.stop es

abbrev pub stop_of : Option Splice → ℕ
stop_of none = 0
stop_of (some s) = s.stop

overlaps-stop :
    (previous : Option Splice) (e : Splice)
    → overlaps previous e ≡ false
    → stop_of previous ≤ e.start
overlaps-stop none e h = omega arith
overlaps-stop (some s) e h = ground arith

length-splice_all-nil :
    (base : Bytes) (position : ℕ) → length (splice_all base position []) ≡ length base - position
unfolding splice_all
length-splice_all-nil base position = length-drop position base

length-splice_all :
    (base : Bytes) (position : ℕ) (e : Splice) (es : List Splice)
    → length (splice_all base position (e ∷ es))
      ≡ length (slice position e.start base)
        + (length e.replacement + length (splice_all base e.stop es))
unfolding splice_all
length-splice_all base position e es =
    length-append (slice position e.start base) (e.replacement ++ splice_all base e.stop es)
    ∙ ap (λ n. length (slice position e.start base) + n)
        (length-append e.replacement (splice_all base e.stop es))

-- The size that the checks add up is the size of what is written.
pub spliced_size_lem :
    (base : Bytes) (es : List Splice) (size n : ℕ) (previous : Option Splice)
    → All (Inside (length base)) es
    → stop_of previous ≤ length base
    → length base ≤ size + stop_of previous
    → spliced_size size previous es ≡ edited n
    → (Ordered (stop_of previous) es)
      × (n + length base ≡ size + stop_of previous + length (splice_all base (stop_of previous) es))
      × (size ≤ max_bytes → n ≤ max_bytes)
unfolding spliced_size
spliced_size_lem base [] size n previous inside low room h =
    let e : size ≡ n = ground arith in
    (tt, omega (arith, e, length-splice_all-nil base (stop_of previous)), λ k. omega (arith, e))
spliced_size_lem base (e ∷ es) size n previous inside low room h =
    let t : is_text e.replacement ≡ true = ground arith in
    let o : overlaps previous e ≡ false = ground arith in
    let size' = size + length e.replacement - (e.stop - e.start) in
    let b : size' ≤ max_bytes = ground arith in
    let s = overlaps-stop previous e o in
    let (ordered, sum, small) =
      spliced_size_lem base es size' n (some e) inside.1 inside.0.1 (omega (arith, inside.0, s))
        (ground arith) in
    (
      (s, ordered),
      omega (
        arith,
        sum,
        length-splice_all base (stop_of previous) e es,
        inside.0,
        s,
        length-slice (stop_of previous) e.start base s (omega (arith, inside.0)),
      ),
      λ k. small b,
    )

-- One splice alone.
abbrev pub replace_range : Bytes → Splice → Bytes
replace_range b s = take s.start b ++ (s.replacement ++ drop s.stop b)

-- The splices one by one, the last of them first.
abbrev pub replace_ranges : Bytes → List Splice → Bytes
replace_ranges base [] = base
replace_ranges base (s ∷ ss) = replace_range (replace_ranges base ss) s

-- The bytes before the first splice stay.
replace_ranges-take :
    (base : Bytes) (n : ℕ) (es : List Splice)
    → All (Inside (length base)) es
    → Ordered n es
    → n ≤ length base
    → (n ≤ length (replace_ranges base es)) × (take n (replace_ranges base es) ≡ take n base)
replace_ranges-take base n [] inside o h = (h, refl)
replace_ranges-take base n (e ∷ es) inside o h =
    let rest = replace_ranges base es in
    let (long, same_start) = replace_ranges-take base e.stop es inside.1 o.1 inside.0.1 in
    let l : length (take e.start rest) ≡ e.start =
      length-take e.start rest (omega (arith, inside.0, long)) in
    (
      omega (arith, length-append (take e.start rest) (e.replacement ++ drop e.stop rest), l, o.0),
      take-append n (take e.start rest) (e.replacement ++ drop e.stop rest) (omega (arith, l, o.0))
          ∙ take-take n e.start rest o.0
          ∙ sym (take-take n e.stop rest (omega (arith, o.0, inside.0)))
          ∙ ap (take n) same_start
          ∙ take-take n e.stop base (omega (arith, o.0, inside.0)),
    )

-- What is written from `position` on is what the splices one by one leave there.
pub splice_all-replace_ranges :
    (base : Bytes) (position : ℕ) (es : List Splice)
    → All (Inside (length base)) es
    → Ordered position es
    → splice_all base position es ≡ drop position (replace_ranges base es)
unfolding splice_all
splice_all-replace_ranges base position [] inside o = refl
splice_all-replace_ranges base position (e ∷ es) inside o =
    let rest = replace_ranges base es in
    let (long, same_start) = replace_ranges-take base e.stop es inside.1 o.1 inside.0.1 in
    let l : length (take e.start rest) ≡ e.start =
      length-take e.start rest (omega (arith, inside.0, long)) in
    let head : take e.start rest ≡ take e.start base =
      sym (take-take e.start e.stop rest inside.0.0)
      ∙ ap (take e.start) same_start
      ∙ take-take e.start e.stop base inside.0.0 in
    ap (λ b. slice position e.start base ++ (e.replacement ++ b))
      (splice_all-replace_ranges base e.stop es inside.1 o.1)
    ∙ ap (λ b. b ++ (e.replacement ++ drop e.stop rest))
        (sym (drop-take position e.start base) ∙ ap (drop position) (sym head))
    ∙ sym (
        drop-append position (take e.start rest) (e.replacement ++ drop e.stop rest)
          (omega (arith, l, o.0)))
