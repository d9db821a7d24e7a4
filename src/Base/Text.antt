-- ===== src/Base/Text.antt =====
-- The operations of Rust's `str` and `u8` that the repository calls, on the bytes of a text.
use Prim.Native.Nat.{ℕ, zero, suc, ◌+◌, ◌/◌, ◌%◌}
use Prim.Native.Char.{code}
use Prim.Native.String.{String}
use mathlib.Core.Bool.{Bool, true, false, ◌&&◌, ◌||◌}
use mathlib.Core.List.{[], ◌∷◌, ◌++◌, reverse}
use mathlib.Core.Option.{Option, none, some}
use wp_knowledge.Base.Tests.{leb, ◌==◌, if◌then◌else◌}
use wp_knowledge.Base.Model.{Bytes}

-- The bytes of an ASCII literal.
abbrev pub codes : String → Bytes
codes String.[] = []
codes (String.◌∷◌ c s) = code c ∷ codes s

abbrev pub between : ℕ → ℕ → ℕ → Bool
between lo hi c = leb lo c && leb c hi

unfoldable pub is_ascii_alphabetic : ℕ → Bool
is_ascii_alphabetic c = between b'a' b'z' c || between b'A' b'Z' c

unfoldable pub is_ascii_alphanumeric : ℕ → Bool
unfolding is_ascii_alphabetic
is_ascii_alphanumeric c = is_ascii_alphabetic c || between b'0' b'9' c

-- Space, tab, line feed, form feed and carriage return.
unfoldable pub is_ascii_whitespace : ℕ → Bool
is_ascii_whitespace c = c == 32 || c == 9 || c == 10 || c == 12 || c == 13

unfoldable pub to_ascii_lowercase : ℕ → ℕ
to_ascii_lowercase c = if between b'A' b'Z' c then c + 32 else c

-- How many bytes the white space character takes with which a text begins, 0 if it begins with none.
unfoldable pub whitespace_len : Bytes → ℕ
whitespace_len [] = 0
whitespace_len (a ∷ []) = if between 9 13 a || a == 32 then 1 else 0
whitespace_len (a ∷ b ∷ []) =
    if between 9 13 a || a == 32 then 1 else if a == 0xC2 && (b == 0x85 || b == 0xA0) then 2 else 0
whitespace_len (a ∷ b ∷ c ∷ _) =
    if between 9 13 a || a == 32
    then 1
    else if a == 0xC2 && (b == 0x85 || b == 0xA0)
    then 2
    else if a == 0xE1 && b == 0x9A && c == 0x80
    then 3
    else if a == 0xE2 && b == 0x80 && (between 0x80 0x8A c || c == 0xA8 || c == 0xA9 || c == 0xAF)
    then 3
    else if a == 0xE2 && b == 0x81 && c == 0x9F
    then 3
    else if a == 0xE3 && b == 0x80 && c == 0x80
    then 3
    else 0

-- The same for a text that is read from its end.
unfoldable pub whitespace_len_back : Bytes → ℕ
unfolding whitespace_len
whitespace_len_back [] = 0
whitespace_len_back (a ∷ []) = whitespace_len (a ∷ [])
whitespace_len_back (b ∷ a ∷ []) =
    if between 9 13 b || b == 32 then 1 else if a == 0xC2 then whitespace_len (a ∷ b ∷ []) else 0
whitespace_len_back (c ∷ b ∷ a ∷ _) =
    if between 9 13 c || c == 32
    then 1
    else if b == 0xC2
    then whitespace_len (b ∷ c ∷ [])
    else if leb 0xE1 a
    then whitespace_len (a ∷ b ∷ c ∷ [])
    else 0

-- The number counts the bytes of a character that are still to be passed.
unfoldable pub trim_by : (Bytes → ℕ) → ℕ → Bytes → Bytes
trim_by len skip [] = []
trim_by len (suc skip) (b ∷ s) = trim_by len skip s
trim_by len zero (b ∷ s) = elim (len (b ∷ s)) [ zero ↦ b ∷ s | suc k ↦ trim_by len k s ]

unfoldable pub trim_start : Bytes → Bytes
unfolding trim_by whitespace_len
trim_start s = trim_by whitespace_len 0 s

unfoldable pub trim_end : Bytes → Bytes
unfolding trim_by whitespace_len_back
trim_end s = reverse (trim_by whitespace_len_back 0 (reverse s))

unfoldable pub trim : Bytes → Bytes
unfolding trim_start trim_end
trim s = trim_end (trim_start s)

-- `String::push` of the character with the code `b`, below 256, and of a byte `b as char`.
unfoldable pub push_char : ℕ → Bytes
push_char b = if leb 128 b then (0xC0 + b / 64) ∷ (0x80 + b % 64) ∷ [] else b ∷ []

-- What is left behind a prefix.
unfoldable pub strip_prefix : Bytes → Bytes → Option Bytes
strip_prefix [] s = some s
strip_prefix (p ∷ ps) [] = none
strip_prefix (p ∷ ps) (b ∷ s) = if p == b then strip_prefix ps s else none

unfoldable pub strip_prefix_ignore_case : Bytes → Bytes → Option Bytes
unfolding to_ascii_lowercase
strip_prefix_ignore_case [] s = some s
strip_prefix_ignore_case (p ∷ ps) [] = none
strip_prefix_ignore_case (p ∷ ps) (b ∷ s) =
    if to_ascii_lowercase p == to_ascii_lowercase b then strip_prefix_ignore_case ps s else none

-- The part before the first `sep`, the whole text if there is none.
unfoldable pub before : ℕ → Bytes → Bytes
before sep [] = []
before sep (b ∷ s) = if b == sep then [] else b ∷ before sep s

unfoldable pub starts_with : Bytes → Bytes → Bool
starts_with [] s = true
starts_with (p ∷ ps) [] = false
starts_with (p ∷ ps) (b ∷ s) = if p == b then starts_with ps s else false

-- `to_string` of a number; the first argument is fuel, of which the number itself is enough.
unfoldable pub decimal_from : ℕ → ℕ → Bytes
decimal_from zero n = (n % 10 + b'0') ∷ []
decimal_from (suc fuel) n =
    let rest = decimal_from fuel (n / 10) in
    if leb n 9 then (n + b'0') ∷ [] else rest ++ ((n % 10 + b'0') ∷ [])

unfoldable pub decimal : ℕ → Bytes
unfolding decimal_from
decimal n = decimal_from n n
