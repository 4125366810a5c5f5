-- ===== src/FileEdit/Diff.antt =====
-- internal/fileedit/diff.go: the preview of an edit.
pub mod Bounded
use rdev.Base.{
  ℕ, zero, suc, ◌+◌, ◌-◌, min, max, not, ◌&&◌, List, [], ◌∷◌, ◌++◌, ltb, leb, if◌then◌else◌, length,
  is_nil, get_or, take, drop,
}
use rdev.FileEdit.Bytes.{Bytes, same_bytes, split_after, ends_line, decimal}
use rdev.FileEdit.Patch.{reversed}

-- `128 << 10`
abbrev pub max_diff_bytes : ℕ
max_diff_bytes = 131072

-- `SplitAfter` without its last part where that is empty.
unfoldable pub drop_empty_last : List Bytes → List Bytes
drop_empty_last [] = []
drop_empty_last (line ∷ []) = if is_nil line then [] else line ∷ []
drop_empty_last (line ∷ next ∷ lines) = line ∷ drop_empty_last (next ∷ lines)

unfoldable pub diff_lines : Bytes → List Bytes
diff_lines s = if is_nil s then [] else drop_empty_last (split_after s)

-- `writeDiffLine`
unfoldable pub diff_line : ℕ → Bytes → Bytes
diff_line prefix line = prefix ∷ line ++ (if ends_line line then [] else 10 ∷ [])

-- How many lines two texts have in common at their start.
unfoldable pub common : List Bytes → List Bytes → ℕ
common [] ms = 0
common (l ∷ ls) [] = 0
common (l ∷ ls) (m ∷ ms) = let rest = common ls ms in if same_bytes l m then rest + 1 else 0

-- The lines from `i` up to `end`.
unfoldable pub diff_range : ℕ → List Bytes → ℕ → ℕ → Bytes
diff_range zero lines i prefix = []
diff_range (suc n) lines i prefix =
    diff_line prefix (get_or lines i []) ++ diff_range n lines (suc i) prefix

-- The bounds of the loop of `UnifiedDiff`.
pub record DiffFrame : Type 0 where
  pub old_lines : List Bytes
  pub new_lines : List Bytes
  pub prefix : ℕ
  pub suffix : ℕ
  pub old_end : ℕ
  pub new_end : ℕ

unfoldable pub diff_frame : Bytes → Bytes → DiffFrame
diff_frame before after =
    let old_lines = diff_lines before in
    let new_lines = diff_lines after in
    let prefix = common old_lines new_lines in
    let suffix =
      common (reversed (drop prefix old_lines) []) (reversed (drop prefix new_lines) []) in
    record {
      old_lines = old_lines;
      new_lines = new_lines;
      prefix = prefix;
      suffix = suffix;
      old_end = min (length old_lines) (length old_lines - suffix + 3);
      new_end = min (length new_lines) (length new_lines - suffix + 3);
    }

-- "\n... diff truncated ...\n"
abbrev pub truncated : Bytes
truncated =
    10 ∷ 46 ∷ 46 ∷ 46 ∷ 32 ∷ 100 ∷ 105 ∷ 102 ∷ 102 ∷ 32 ∷ 116 ∷ 114 ∷ 117 ∷ 110 ∷ 99 ∷ 97 ∷ 116
    ∷ 101 ∷ 100 ∷ 32 ∷ 46 ∷ 46 ∷ 46 ∷ 10 ∷ []

-- What a round of the loop behind the common start writes, and where it leaves `i` and `j`.
unfoldable pub diff_round : DiffFrame → ℕ → ℕ → Bytes × ℕ × ℕ
diff_round f i j =
    let old_changed = length f.old_lines - f.suffix in
    let new_changed = length f.new_lines - f.suffix in
    let removed = if ltb i old_changed then diff_line 45 (get_or f.old_lines i []) else [] in
    let added = if ltb j new_changed then diff_line 43 (get_or f.new_lines j []) else [] in
    let i' = if ltb i old_changed then i + 1 else i in
    let j' = if ltb j new_changed then j + 1 else j in
    let both = min (f.old_end - i') (f.new_end - j') in
    if leb old_changed i' && leb new_changed j'
    then (
      removed
          ++ added
          ++ diff_range both f.old_lines i' 32
          ++ diff_range (f.old_end - i' - both) f.old_lines (i' + both) 32
          ++ diff_range (f.new_end - j' - both) f.new_lines (j' + both) 32,
      max i' f.old_end,
      max j' f.new_end,
    )
    else (removed ++ added, i', j')

-- The loop: each round moves `i` or `j`.
unfoldable pub diff_rounds : ℕ → DiffFrame → ℕ → ℕ → Bytes → Bytes
diff_rounds zero f i j b = b
diff_rounds (suc fuel) f i j b =
    let r = diff_round f i j in
    let b' = b ++ r.0 in
    let shared = diff_rounds fuel f (i + 1) (j + 1) (b ++ diff_line 32 (get_or f.old_lines i [])) in
    let changed = diff_rounds fuel f r.1 r.2 b' in
    if not (ltb i f.old_end) && not (ltb j f.new_end)
    then b
    else if ltb i f.prefix && ltb j f.prefix
    then shared
    else if ltb max_diff_bytes (length b')
    then take max_diff_bytes b' ++ truncated
    else changed

-- "@@ -%d,%d +%d,%d @@"
unfoldable pub print_header : ℕ → ℕ → ℕ → ℕ → Bytes
print_header a b c d =
    64
    ∷ 64
    ∷ 32
    ∷ 45
    ∷ (decimal a
        ++ (44
            ∷ (decimal b ++ (32 ∷ 43 ∷ (decimal c ++ (44 ∷ (decimal d ++ (32 ∷ 64 ∷ 64 ∷ []))))))))

unfoldable pub unified_diff : Bytes → Bytes → Bytes
unified_diff before after =
    let f = diff_frame before after in
    let start = f.prefix - 3 in
    diff_rounds (f.old_end + f.new_end + 1) f start start
      (print_header (start + 1) (f.old_end - start) (start + 1) (f.new_end - start) ++ 10 ∷ [])
