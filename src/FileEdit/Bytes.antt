-- ===== src/FileEdit/Bytes.antt =====
-- Bytes, as the packages bytes, strings, unicode/utf8, encoding/hex and strconv treat them for
-- internal/fileedit. A byte is a number below 256.
use rdev.Base.{
  ℕ, zero, suc, ◌+◌, ◌-◌, ◌*◌, ◌/◌, ◌%◌, Bool, true, false, not, ◌&&◌, ◌||◌, Option, none, some,
  List, [], ◌∷◌, ◌++◌, ltb, leb, ◌==◌, if◌then◌else◌, length, take, drop,
}

abbrev pub Bytes : Type 0
Bytes = List ℕ

-- `b[start:end]`
abbrev pub slice : ℕ → ℕ → Bytes → Bytes
slice start stop b = take (stop - start) (drop start b)

unfoldable pub same_bytes : Bytes → Bytes → Bool
same_bytes [] [] = true
same_bytes [] (_ ∷ _) = false
same_bytes (_ ∷ _) [] = false
same_bytes (x ∷ xs) (y ∷ ys) = x == y && same_bytes xs ys

-- `HasPrefix` of `b`
unfoldable pub starts_with : Bytes → Bytes → Bool
starts_with [] b = true
starts_with (p ∷ ps) [] = false
starts_with (p ∷ ps) (x ∷ xs) = p == x && starts_with ps xs

-- `b` without a prefix that it has.
unfoldable pub drop_prefix : Bytes → Bytes → Option Bytes
drop_prefix [] b = some b
drop_prefix (p ∷ ps) [] = none
drop_prefix (p ∷ ps) (x ∷ xs) = let rest = drop_prefix ps xs in if p == x then rest else none

abbrev between : ℕ → ℕ → ℕ → Bool
between low high x = leb low x && leb x high

-- The ranges of the bytes that follow a first byte in UTF-8.
unfoldable pub follows : ℕ → Option (List (ℕ × ℕ))
follows x =
    let t : ℕ × ℕ = (128, 191) in
    if ltb x 128
    then some []
    else if between 194 223 x
    then some (t ∷ [])
    else if x == 224
    then some ((160, 191) ∷ t ∷ [])
    else if x == 237
    then some ((128, 159) ∷ t ∷ [])
    else if between 225 239 x
    then some (t ∷ t ∷ [])
    else if x == 240
    then some ((144, 191) ∷ t ∷ t ∷ [])
    else if between 241 243 x
    then some (t ∷ t ∷ t ∷ [])
    else if x == 244
    then some ((128, 143) ∷ t ∷ t ∷ [])
    else none

-- `utf8.Valid` of the rest of a text, inside a character that wants bytes of the given ranges.
unfoldable pub utf8_from : List (ℕ × ℕ) → Bytes → Bool
utf8_from [] [] = true
utf8_from (_ ∷ _) [] = false
utf8_from [] (x ∷ xs) = elim (follows x) [ none ↦ false | some rs ↦ utf8_from rs xs ]
utf8_from ((low, high) ∷ rs) (x ∷ xs) = leb low x && leb x high && utf8_from rs xs

unfoldable pub has_zero : Bytes → Bool
has_zero [] = false
has_zero (x ∷ xs) = x == 0 || has_zero xs

-- `text`
unfoldable pub is_text : Bytes → Bool
is_text b = utf8_from [] b && not (has_zero b)

-- `hex.DecodeString`
unfoldable pub nibble : ℕ → Option ℕ
nibble x =
    if between 48 57 x
    then some (x - 48)
    else if between 97 102 x
    then some (x - 87)
    else if between 65 70 x
    then some (x - 55)
    else none

abbrev pub hex_pair : Option ℕ → Option ℕ → Option Bytes → Option Bytes
hex_pair (some a) (some b) (some rest) = some ((16 * a + b) ∷ rest)
hex_pair (some a) (some b) none = none
hex_pair (some a) none rest = none
hex_pair none b rest = none

unfoldable pub hex_decode : Bytes → Option Bytes
hex_decode [] = some []
hex_decode (x ∷ []) = none
hex_decode (x ∷ y ∷ xs) = hex_pair (nibble x) (nibble y) (hex_decode xs)

-- `hex.EncodeToString`
unfoldable pub hex_digit : ℕ → ℕ
hex_digit n = if ltb n 10 then n + 48 else n + 87

unfoldable pub hex_encode : Bytes → Bytes
hex_encode [] = []
hex_encode (x ∷ xs) = hex_digit (x / 16) ∷ hex_digit (x % 16) ∷ hex_encode xs

-- `bytes.Count` of a pattern that is not empty, from a place `skip` bytes before the next one that
-- is looked at.
unfoldable pub count_from : ℕ → Bytes → Bytes → ℕ
count_from skip pattern [] = 0
count_from (suc skip) pattern (x ∷ xs) = count_from skip pattern xs
count_from zero pattern (x ∷ xs) =
    let found = count_from (length pattern - 1) pattern xs in
    let missed = count_from 0 pattern xs in
    if starts_with pattern (x ∷ xs) then found + 1 else missed

abbrev pub count : Bytes → Bytes → ℕ
count pattern b = count_from 0 pattern b

-- `bytes.Replace` of the first `n` places of a pattern that is not empty.
unfoldable pub replace_from : ℕ → ℕ → Bytes → Bytes → Bytes → Bytes
replace_from skip n pattern new [] = []
replace_from (suc skip) n pattern new (x ∷ xs) = replace_from skip n pattern new xs
replace_from zero zero pattern new (x ∷ xs) = x ∷ xs
replace_from zero (suc n) pattern new (x ∷ xs) =
    let found = replace_from (length pattern - 1) n pattern new xs in
    let missed = replace_from 0 (suc n) pattern new xs in
    if starts_with pattern (x ∷ xs) then new ++ found else x ∷ missed

abbrev pub replace_first : ℕ → Bytes → Bytes → Bytes → Bytes
replace_first n pattern new b = replace_from 0 n pattern new b

-- `strings.SplitAfter(b, "\n")`
abbrev onto_first : ℕ → List Bytes → List Bytes
onto_first x [] = (x ∷ []) ∷ []
onto_first x (line ∷ lines) = (x ∷ line) ∷ lines

unfoldable pub split_after : Bytes → List Bytes
split_after [] = [] ∷ []
split_after (x ∷ xs) =
    let rest = split_after xs in if x == 10 then (x ∷ []) ∷ rest else onto_first x rest

-- `strings.TrimSuffix(b, "\n")`
unfoldable pub trim_newline : Bytes → Bytes
trim_newline [] = []
trim_newline (x ∷ []) = if x == 10 then [] else x ∷ []
trim_newline (x ∷ y ∷ xs) = x ∷ trim_newline (y ∷ xs)

-- `strings.HasSuffix(b, "\n")`
unfoldable pub ends_line : Bytes → Bool
ends_line [] = false
ends_line (x ∷ []) = x == 10
ends_line (x ∷ y ∷ xs) = ends_line (y ∷ xs)

-- The digits at the start of `b`, and what follows them.
unfoldable pub digits : Bytes → Bytes × Bytes
digits [] = ([], [])
digits (x ∷ xs) =
    let rest = digits xs in if leb 48 x && leb x 57 then (x ∷ rest.0, rest.1) else ([], x ∷ xs)

-- `strconv.Atoi` of digits, before it looks at the range.
unfoldable pub digits_value : ℕ → Bytes → ℕ
digits_value n [] = n
digits_value n (x ∷ xs) = digits_value (10 * n + (x - 48)) xs

-- `%d`: as many digits as `fuel` allows, before the digits `after`.
unfoldable pub decimal_digits : ℕ → ℕ → Bytes → Bytes
decimal_digits zero n after = after
decimal_digits (suc fuel) n after =
    let more = decimal_digits fuel (n / 10) ((48 + n % 10) ∷ after) in
    if ltb n 10 then (48 + n) ∷ after else more

abbrev pub decimal : ℕ → Bytes
decimal n = decimal_digits (suc n) n []
