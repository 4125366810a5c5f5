-- ===== src/FileEdit/Diff/Bounded.antt =====
-- A preview against the whole diff.
use rdev.Base.{
  ℕ, zero, suc, ◌+◌, ◌-◌, ◌≤◌, ◌<◌, ◌≡◌, ◌≢◌, refl, ap, ◌∙◌, true, false, not, ◌&&◌, List, [], ◌∷◌,
  ◌++◌, arith, length, take, drop, if◌then◌else◌, if-elim, ltb, leb, ◌⊎◌, inl, inr, length-append,
  get_or, Bool-cases,
}
use mathlib.Core.List.{append-nil}
use rdev.FileEdit.Bytes.{Bytes}
use rdev.FileEdit.Slices.{length-drop, same_bytes_iff, take-append, append_assoc}
use rdev.FileEdit.Patch.{reversed}
use rdev.FileEdit.Diff.{
  DiffFrame, max_diff_bytes, truncated, diff_lines, diff_line, common, diff_frame, diff_round,
  diff_rounds, print_header, unified_diff,
}

-- What is in common is no longer than either.
common_le : (ls ms : List Bytes) → (common ls ms ≤ length ls) × (common ls ms ≤ length ms)
unfolding common
common_le [] ms = (omega arith, omega arith)
common_le (l ∷ ls) [] = (omega arith, omega arith)
common_le (l ∷ ls) (m ∷ ms) = let (a, b) = common_le ls ms in (ground (arith, a), ground (arith, b))

common-all : (ls ms : List Bytes) → common ls ms ≡ length ls → common ls ms ≡ length ms → ls ≡ ms
unfolding common
common-all [] [] h k = refl
common-all [] (m ∷ ms) h k = ground arith
common-all (l ∷ ls) [] h k = ground arith
common-all (l ∷ ls) (m ∷ ms) h k =
    let e : l ≡ m = (same_bytes_iff l m).0 (ground arith) in
    let r : ls ≡ ms = common-all ls ms (ground arith) (ground arith) in
    ap (λ x. x ∷ ls) e ∙ ap (λ xs. m ∷ xs) r

length-reversed : (xs ys : List Bytes) → length (reversed xs ys) ≡ length xs + length ys
unfolding reversed
length-reversed [] ys = omega arith
length-reversed (x ∷ xs) ys = omega (arith, length-reversed xs (x ∷ ys))

-- A frame whose ends lie behind the lines that change, one of them behind the common start.
pub record Framed (f : DiffFrame) : Type 0 where
  pub old_in : length f.old_lines - f.suffix ≤ f.old_end
  pub new_in : length f.new_lines - f.suffix ≤ f.new_end
  pub ahead : (f.prefix < f.old_end) ⊎ (f.prefix < f.new_end)

-- An index that goes on below `n`.
abbrev moved : ℕ → ℕ → ℕ
moved i n = if ltb i n then i + 1 else i

moved_le : (i n : ℕ) → i ≤ moved i n
moved_le i n = ground arith

moved_lt : (i n : ℕ) → leb n (moved i n) ≡ false → (moved i n ≡ i + 1) × (i < n)
moved_lt i n h = ground arith

diff_round-moves :
    (f : DiffFrame) (i j : ℕ)
    → Framed f
    → (not (ltb i f.old_end) && not (ltb j f.new_end)) ≡ false
    → (f.old_end - (diff_round f i j).1) + (f.new_end - (diff_round f i j).2)
      < (f.old_end - i) + (f.new_end - j)
unfolding diff_round
diff_round-moves f i j v h =
    let n = length f.old_lines - f.suffix in
    let m = length f.new_lines - f.suffix in
    let s : (i < f.old_end) ⊎ (j < f.new_end) = ground arith in
    if-elim
      (λ (r : Bytes × ℕ × ℕ).
        (f.old_end - r.1) + (f.new_end - r.2) < (f.old_end - i) + (f.new_end - j))
      (leb n (moved i n) && leb m (moved j m)) (λ y. omega (arith, s))
      (λ k. elim (Bool-cases (leb n (moved i n))) [
        | inl y ↦
            let (a, b) = moved_lt j m (ground arith) in omega (arith, a, b, v.new_in, moved_le i n)
        | inr z ↦ let (a, b) = moved_lt i n z in omega (arith, a, b, v.old_in, moved_le j m)
      ])

-- What the loop writes from `i` and `j` on where nothing is cut.
pub whole_rounds : ℕ → DiffFrame → ℕ → ℕ → Bytes
whole_rounds zero f i j = []
whole_rounds (suc fuel) f i j =
    let r = diff_round f i j in
    let shared = diff_line 32 (get_or f.old_lines i []) ++ whole_rounds fuel f (i + 1) (j + 1) in
    let changed = r.0 ++ whole_rounds fuel f r.1 r.2 in
    if not (ltb i f.old_end) && not (ltb j f.new_end)
    then []
    else if ltb i f.prefix && ltb j f.prefix
    then shared
    else changed

-- The preview where nothing is cut.
pub whole_diff : Bytes → Bytes → Bytes
whole_diff before after =
    let f = diff_frame before after in
    let start = f.prefix - 3 in
    print_header (start + 1) (f.old_end - start) (start + 1) (f.new_end - start)
    ++ (10 ∷ whole_rounds (f.old_end + f.new_end + 1) f start start)

-- A text of at most `max_diff_bytes` bytes, or its first `max_diff_bytes` with the mark of the end.
pub limited : Bytes → Bytes
limited b = if ltb max_diff_bytes (length b) then take max_diff_bytes b ++ truncated else b

limited-short : (b : Bytes) → length b ≤ max_diff_bytes → b ≡ limited b
unfolding limited
limited-short b h =
    if-elim (λ (x : Bytes). b ≡ x) (ltb max_diff_bytes (length b)) (λ y. absurd (ground arith))
      (λ n. refl)

limited-long :
    (b c : Bytes)
    → max_diff_bytes < length b
    → take max_diff_bytes b ++ truncated ≡ limited (b ++ c)
unfolding limited
limited-long b c h =
    let e : ltb max_diff_bytes (length (b ++ c)) ≡ true = ground (arith, length-append b c) in
    rw (e, take-append max_diff_bytes b c (omega arith)) refl

next_ahead :
    (f : DiffFrame) (i j : ℕ)
    → Framed f
    → (ltb i f.prefix && ltb j f.prefix) ≡ true
    → (i + 1 < f.old_end) ⊎ (j + 1 < f.new_end)
next_ahead f i j v y = ground (arith, v.ahead)

diff_rounds-limited :
    (fuel : ℕ) (f : DiffFrame) (i j : ℕ) (b : Bytes)
    → Framed f
    → (length b ≤ max_diff_bytes) ⊎ ((i < f.old_end) ⊎ (j < f.new_end))
    → (f.old_end - i) + (f.new_end - j) < fuel
    → diff_rounds fuel f i j b ≡ limited (b ++ whole_rounds fuel f i j)
unfolding diff_rounds whole_rounds
diff_rounds-limited zero f i j b v p m = ground arith
diff_rounds-limited (suc fuel) f i j b v p m =
    let r = diff_round f i j in
    let b' = b ++ r.0 in
    let line = diff_line 32 (get_or f.old_lines i []) in
    elim (Bool-cases (not (ltb i f.old_end) && not (ltb j f.new_end))) [
      | inl y ↦ rw (y, append-nil) (limited-short b (ground (arith, p)))
      | inr n ↦ elim (Bool-cases (ltb i f.prefix && ltb j f.prefix)) [
        | inl y ↦
            rw (n, y)
              (diff_rounds-limited fuel f (i + 1) (j + 1) (b ++ line) v (inr (next_ahead f i j v y))
                  (ground arith)
                ∙ ap limited (append_assoc b line (whole_rounds fuel f (i + 1) (j + 1))))
        | inr k ↦ elim (Bool-cases (ltb max_diff_bytes (length b'))) [
          | inl c ↦
              rw (n, k, c)
                (limited-long b' (whole_rounds fuel f r.1 r.2) (ground arith)
                  ∙ ap limited (append_assoc b r.0 (whole_rounds fuel f r.1 r.2)))
          | inr l ↦
              rw (n, k, l)
                (diff_rounds-limited fuel f r.1 r.2 b' v (inl (ground arith))
                    (omega (arith, diff_round-moves f i j v n))
                  ∙ ap limited (append_assoc b r.0 (whole_rounds fuel f r.1 r.2)))
        ]
      ]
    ]

-- Lines that differ leave a line behind the common start.
lines_ahead :
    (ls ms : List Bytes) → ls ≢ ms → (common ls ms < length ls) ⊎ (common ls ms < length ms)
lines_ahead ls ms ne = elim (Bool-cases (ltb (common ls ms) (length ls))) [
  | inl y ↦ inl (ground arith)
  | inr n ↦ elim (Bool-cases (ltb (common ls ms) (length ms))) [
    | inl y ↦ inr (ground arith)
    | inr k ↦
        let (a, b) = common_le ls ms in
        elim (ne (common-all ls ms (ground (arith, a)) (ground (arith, b)))) [ ]
  ]
]

diff_frame-Framed :
    (before after : Bytes) → diff_lines before ≢ diff_lines after → Framed (diff_frame before after)
unfolding diff_frame
diff_frame-Framed before after ne =
    let ls = diff_lines before in
    let ms = diff_lines after in
    let prefix = common ls ms in
    let l = drop prefix ls in
    let m = drop prefix ms in
    let (a, b) = common_le ls ms in
    let (c, d) = common_le (reversed l []) (reversed m []) in
    let rl = length-reversed l [] in
    let rm = length-reversed m [] in
    let dl = length-drop prefix ls in
    let dm = length-drop prefix ms in
    let s = lines_ahead ls ms ne in
    record {
      old_in = omega arith;
      new_in = omega arith;
      ahead = elim s [
        | inl x ↦ inl (omega (arith, a, c, rl, dl, x))
        | inr x ↦ inr (omega (arith, b, d, rm, dm, x))
      ];
    }

-- The preview of two texts whose lines differ is the whole diff where this has at most
-- `max_diff_bytes` bytes; otherwise it is the first `max_diff_bytes` bytes of the whole diff and
-- behind them the mark that it was cut.
pub unified_diff-limited :
    (before after : Bytes)
    → diff_lines before ≢ diff_lines after
    → unified_diff before after ≡ limited (whole_diff before after)
unfolding unified_diff whole_diff
unified_diff-limited before after ne =
    let f = diff_frame before after in
    let start = f.prefix - 3 in
    let v = diff_frame-Framed before after ne in
    let header = print_header (start + 1) (f.old_end - start) (start + 1) (f.new_end - start) in
    diff_rounds-limited (f.old_end + f.new_end + 1) f start start (header ++ 10 ∷ []) v
      (inr (ground (arith, v.ahead))) (omega arith)
    ∙ ap limited
        (append_assoc header (10 ∷ []) (whole_rounds (f.old_end + f.new_end + 1) f start start))
