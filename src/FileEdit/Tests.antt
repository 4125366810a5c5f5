-- ===== src/FileEdit/Tests.antt =====
-- Tests of the edits at a text of three lines.
use rdev.Base.{
  ℕ, zero, suc, ◌≤◌, ◌<◌, ◌≡◌, refl, true, false, some, none, List, [], ◌∷◌, length, All, arith,
}
use rdev.Base.Int.{pos}
use rdev.FileEdit.Bytes.{
  Bytes, hex_encode, hex_decode, is_text, utf8_from, follows, has_zero, same_bytes, nibble,
  hex_digit,
}
use rdev.FileEdit.Lines.{
  EditParams, edited, failed, edit_conflict, validate_edit, validate_kind, validate_lines,
  well_digested, boundaries, boundaries_from, max_bytes,
}
use rdev.FileEdit.Patch.{Splice, no_hunks, parse_hunks, parse_header}
use rdev.FileEdit.Patch.Fuel.{parse_hunks_enough}
use rdev.FileEdit.Apply.{
  apply, digest, line_splice, line_splices, splices_of, sort_splices, sort_in, spliced_size,
  splice_all, apply_splices,
}
use rdev.FileEdit.Apply.Splicing.{Inside, Ordered, replace_ranges}
use rdev.FileEdit.Apply.Outcomes.{apply_in_order, apply_bounded}
use rdev.FileEdit.Apply.Stale.{apply_stale}
use rdev.FileEdit.Diff.{print_header}
use rdev.FileEdit.Diff.{unified_diff, diff_lines, drop_empty_last}
use rdev.FileEdit.Diff.Bounded.{limited, whole_diff, unified_diff-limited}
use rdev.Base.{◌≢◌, ap, get_or, ◌%◌}
use rdev.FileEdit.Bytes.{split_after}
use rdev.FileEdit.RoundTrips.{parse_header-print_header, well_digested-digest}

-- "a\nb\nc\n" and "a\nB\nc\n"
abbrev three_lines : Bytes
three_lines = 97 ∷ 10 ∷ 98 ∷ 10 ∷ 99 ∷ 10 ∷ []

abbrev edited_lines : Bytes
edited_lines = 97 ∷ 10 ∷ 66 ∷ 10 ∷ 99 ∷ 10 ∷ []

abbrev zeros : ℕ → ℕ → Bytes
zeros x zero = []
zeros x (suc n) = x ∷ zeros x n

-- A digest of 32 zeros, and how it is printed.
abbrev no_sha : Bytes → Bytes
no_sha b = zeros 0 32

abbrev second_line : EditParams
second_line = record {
  path = 97 ∷ [];
  kind = "lines";
  base_digest = zeros 48 64;
  content = none;
  patch = [];
  lines =
      record {
        start_line = pos 2;
        end_line = pos 2;
        expected = some (98 ∷ 10 ∷ []);
        replacement = 66 ∷ 10 ∷ [];
      }
      ∷ [];
  search = [];
  replacement = [];
  replace_all = false;
}

second_line-applied : apply no_sha three_lines second_line ≡ edited edited_lines
unfolding apply digest hex_encode hex_decode nibble hex_digit is_text utf8_from follows has_zero
    same_bytes validate_edit validate_kind validate_lines well_digested boundaries boundaries_from
    line_splice line_splices splices_of sort_splices sort_in spliced_size splice_all apply_splices
second_line-applied = refl

zeros-bytes : (n : ℕ) → All (λ x. x < 256) (zeros 0 n)
zeros-bytes zero = tt
zeros-bytes (suc n) = (omega arith, zeros-bytes n)

-- A digest that tells texts of different lengths apart, and an edit of the three lines.
abbrev short_sha : Bytes → Bytes
short_sha b = length b % 256 ∷ zeros 0 31

abbrev second_line_of_six : EditParams
second_line_of_six = record second_line { base_digest = 48 ∷ 54 ∷ zeros 48 62 }

second_line_of_six-applied : apply short_sha three_lines second_line_of_six ≡ edited edited_lines
unfolding apply digest hex_encode hex_decode nibble hex_digit is_text utf8_from follows has_zero
    same_bytes validate_edit validate_kind validate_lines well_digested boundaries boundaries_from
    line_splice line_splices splices_of sort_splices sort_in spliced_size splice_all apply_splices
second_line_of_six-applied = refl

-- The first two of the three lines.
abbrev two_lines : Bytes
two_lines = 97 ∷ 10 ∷ 98 ∷ 10 ∷ []

apply_stale_example : apply short_sha two_lines second_line_of_six ≡ failed edit_conflict
apply_stale_example =
    apply_stale short_sha three_lines two_lines second_line_of_six edited_lines
      (omega arith, zeros-bytes 31) (omega arith, zeros-bytes 31)
      (λ e. omega (arith, ap (λ (d : Bytes). get_or d 0 0) e)) second_line_of_six-applied

apply_bounded_example : length edited_lines ≤ max_bytes
apply_bounded_example =
    apply_bounded no_sha three_lines second_line edited_lines second_line-applied

apply_in_order_example :
    (ss : List Splice) × (splices_of three_lines second_line ≡ edited ss)
    × (All (Inside (length three_lines)) (sort_splices ss))
    × (Ordered 0 (sort_splices ss))
    × (edited_lines ≡ replace_ranges three_lines (sort_splices ss))
apply_in_order_example =
    apply_in_order no_sha three_lines second_line edited_lines second_line-applied refl refl

parse_header-print_header_example :
    parse_header (print_header 1 3 1 3)
    ≡ edited record { old_start = 1; old_count = 3; new_start = 1; new_count = 3 }
parse_header-print_header_example =
    parse_header-print_header 1 3 1 3 (omega arith) (omega arith) (omega arith) (omega arith)

well_digested-digest_example : well_digested (digest no_sha three_lines) ≡ true
well_digested-digest_example = well_digested-digest no_sha three_lines refl (zeros-bytes 32)

-- " a\n" behind a header
abbrev one_hunk : List Bytes
one_hunk = print_header 1 1 1 1 ∷ (32 ∷ 97 ∷ 10 ∷ []) ∷ []

parse_hunks_enough_example :
    parse_hunks 5 three_lines (boundaries three_lines) no_hunks one_hunk
    ≡ parse_hunks 2 three_lines (boundaries three_lines) no_hunks one_hunk
parse_hunks_enough_example =
    parse_hunks_enough 5 2 three_lines (boundaries three_lines) no_hunks one_hunk (omega arith)
      (omega arith)

lines_differ : diff_lines three_lines ≢ diff_lines edited_lines
unfolding diff_lines split_after drop_empty_last
lines_differ e = omega (arith, ap (λ (ls : List Bytes). get_or (get_or ls 1 []) 0 0) e)

unified_diff-limited_example :
    unified_diff three_lines edited_lines ≡ limited (whole_diff three_lines edited_lines)
unified_diff-limited_example = unified_diff-limited three_lines edited_lines lines_differ
