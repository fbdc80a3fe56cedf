-- ===== src/Prelude/Text.antt =====
-- Texts as bytes: the tests on characters, splitting, and the standard library's integer parsers.
use Prim.Native.Nat.{ℕ, ◌+◌, ◌*◌, ◌-◌, ◌^◌}
use mathlib.Core.Bool.{Bool, true, false, ◌&&◌, ◌||◌}
use mathlib.Core.List.{List, [], ◌∷◌, ◌++◌}
use mathlib.Core.Option.{Option, none, some}
use nixos_test.Prelude.Tests.{ltb, leb, ◌==◌, if◌then◌else◌}
use nixos_test.Prelude.Words.{Bytes, bytes_eq}
use nixos_test.Prelude.Int.{ℤ, pos, sub_ℕ}
use Prim.Native.Char.{code}
use Prim.Native.String.{String}

-- The bytes of a literal in ASCII.
abbrev pub codes : String → Bytes
codes String.[] = []
codes (String.◌∷◌ c s) = code c ∷ codes s

-- `is_ascii_digit`, `is_ascii_graphic`
abbrev pub is_digit : ℕ → Bool
is_digit b = leb 48 b && leb b 57

abbrev pub is_graphic : ℕ → Bool
is_graphic b = leb 33 b && leb b 126

abbrev pub all : (ℕ → Bool) → Bytes → Bool
all p [] = true
all p (b ∷ bytes) = p b && all p bytes

-- The value of digits in base ten, behind those already read.
unfoldable pub number_from : ℕ → Bytes → ℕ
number_from acc [] = acc
number_from acc (b ∷ bytes) = number_from (acc * 10 + (b - 48)) bytes

-- Digits, at least one.
unfoldable pub magnitude : Bytes → Option ℕ
magnitude [] = none
magnitude (b ∷ bytes) = if all is_digit (b ∷ bytes) then some (number_from 0 (b ∷ bytes)) else none

unfoldable pub below : ℕ → Option ℕ → Option ℕ
below bound none = none
below bound (some n) = if ltb n bound then some n else none

-- `text.parse::<u64>()`: a `+` may stand in front.
unfoldable pub parse_u64 : Bytes → Option ℕ
parse_u64 [] = none
parse_u64 (b ∷ bytes) =
    below (2 ^ 64) (if b == b'+' then magnitude bytes else magnitude (b ∷ bytes))

unfoldable pub negative : Option ℕ → Option ℤ
negative none = none
negative (some n) = some (sub_ℕ 0 n)

unfoldable pub positive : Option ℕ → Option ℤ
positive none = none
positive (some n) = some (pos n)

-- `text.parse::<i64>()`: either sign may stand in front.
unfoldable pub parse_i64 : Bytes → Option ℤ
parse_i64 [] = none
parse_i64 (b ∷ bytes) =
    if b == b'-'
    then negative (below (2 ^ 63 + 1) (magnitude bytes))
    else positive (below (2 ^ 63) (if b == b'+' then magnitude bytes else magnitude (b ∷ bytes)))

-- `text.split(separator)`, with the piece that is being read.
unfoldable pub split_from : ℕ → Bytes → Bytes → List Bytes
split_from separator piece [] = piece ∷ []
split_from separator piece (b ∷ bytes) =
    if b == separator
    then piece ∷ split_from separator [] bytes
    else split_from separator (piece ++ (b ∷ [])) bytes

unfoldable pub split_on : ℕ → Bytes → List Bytes
split_on separator text = split_from separator [] text

unfoldable pub before_cut : ℕ → Option (Bytes × Bytes) → Option (Bytes × Bytes)
before_cut b none = none
before_cut b (some (head, tail)) = some (b ∷ head, tail)

-- `text.split_once(separator)`
unfoldable pub split_once : ℕ → Bytes → Option (Bytes × Bytes)
split_once separator [] = none
split_once separator (b ∷ bytes) =
    let rest = split_once separator bytes in
    if b == separator then some ([], bytes) else before_cut b rest

-- `list.contains(&text)`
unfoldable pub member : Bytes → List Bytes → Bool
member text [] = false
member text (t ∷ texts) = bytes_eq t text || member text texts

-- `list.is_empty()`
abbrev pub is_nil {ℓ} : {A : Type ℓ} → List A → Bool
is_nil [] = true
is_nil (x ∷ xs) = false

unfoldable pub nonempty_texts : List Bytes → List Bytes
nonempty_texts [] = []
nonempty_texts (t ∷ texts) = if is_nil t then nonempty_texts texts else t ∷ nonempty_texts texts

-- `text.strip_prefix(prefix)`
unfoldable pub strip_prefix : Bytes → Bytes → Option Bytes
strip_prefix [] text = some text
strip_prefix (p ∷ ps) [] = none
strip_prefix (p ∷ ps) (b ∷ text) = if p == b then strip_prefix ps text else none

unfoldable pub is_some {ℓ} : {A : Type ℓ} → Option A → Bool
is_some none = false
is_some (some a) = true

abbrev pub starts_with : Bytes → Bytes → Bool
starts_with text prefix = is_some (strip_prefix prefix text)

-- `text.contains(part)`
unfoldable pub contains_text : Bytes → Bytes → Bool
contains_text [] part = is_nil part
contains_text (b ∷ text) part = starts_with (b ∷ text) part || contains_text text part

-- The white space of ASCII.
abbrev pub is_space : ℕ → Bool
is_space b = b == 32 || (leb 9 b && leb b 13)

-- `text.split_whitespace()`, with the word that is being read.
unfoldable pub words_from : Bytes → Bytes → List Bytes
words_from word [] = nonempty_texts (word ∷ [])
words_from word (b ∷ text) =
    if is_space b
    then nonempty_texts (word ∷ []) ++ words_from [] text
    else words_from (word ++ (b ∷ [])) text

unfoldable pub split_whitespace : Bytes → List Bytes
split_whitespace text = words_from [] text

-- `text.trim()`, of ASCII
unfoldable pub trim_start : Bytes → Bytes
trim_start [] = []
trim_start (b ∷ text) = if is_space b then trim_start text else b ∷ text

unfoldable pub keep_end : ℕ → Bytes → Bytes
keep_end b [] = if is_space b then [] else b ∷ []
keep_end b (c ∷ text) = b ∷ c ∷ text

unfoldable pub trim_end : Bytes → Bytes
trim_end [] = []
trim_end (b ∷ text) = keep_end b (trim_end text)

unfoldable pub trim : Bytes → Bytes
trim text = trim_end (trim_start text)

-- The carriage return before a line's end belongs to the end.
unfoldable pub without_cr : Bytes → Bytes
without_cr [] = []
without_cr (b ∷ []) = if b == 13 then [] else b ∷ []
without_cr (b ∷ c ∷ line) = b ∷ without_cr (c ∷ line)

unfoldable pub end_lines : List Bytes → List Bytes
end_lines [] = []
end_lines (line ∷ []) = if is_nil line then [] else line ∷ []
end_lines (line ∷ next ∷ lines) = without_cr line ∷ end_lines (next ∷ lines)

-- `text.lines()`: what stands behind the last line break is a line if it is not empty.
unfoldable pub lines : Bytes → List Bytes
lines text = end_lines (split_on 10 text)
