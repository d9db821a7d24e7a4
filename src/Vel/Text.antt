-- ===== src/Vel/Text.antt =====
-- `src/vel.rs`: the operations of `str` that the parser uses. A text is the list of its characters.
use wp_knowledge.Base.{
  ℕ, ◌+◌, ◌-◌, ◌*◌, Bool, false, ◌&&◌, ◌||◌, List, [], ◌∷◌, Option, none, some, ◌==◌, leb,
  if◌then◌else◌, Bytes,
}

-- The characters of the class White_Space of Unicode.
unfoldable pub is_whitespace : ℕ → Bool
is_whitespace c =
    (leb 9 c && leb c 13)
    || c == 0x20
    || c == 0x85
    || c == 0xA0
    || c == 0x1680
    || (leb 0x2000 c && leb c 0x200A)
    || c == 0x2028
    || c == 0x2029
    || c == 0x202F
    || c == 0x205F
    || c == 0x3000

unfoldable pub trim_start : Bytes → Bytes
unfolding is_whitespace
trim_start [] = []
trim_start (c ∷ s) = if is_whitespace c then trim_start s else c ∷ s

unfoldable pub trim_end : Bytes → Bytes
unfolding is_whitespace
trim_end [] = []
trim_end (c ∷ s) = elim (trim_end s) [
  | [] ↦ if is_whitespace c then [] else c ∷ []
  | x ∷ t ↦ c ∷ x ∷ t
]

unfoldable pub trim : Bytes → Bytes
unfolding trim_start trim_end
trim s = trim_start (trim_end s)

-- The lines with no newline; a carriage return before it is left to `trim`.
unfoldable pub lines : Bytes → List Bytes
lines [] = []
lines (c ∷ s) =
    if c == b'\n'
    then [] ∷ lines s
    else elim (lines s) [ [] ↦ (c ∷ []) ∷ [] | l ∷ ls ↦ (c ∷ l) ∷ ls ]

unfoldable pub split_once : ℕ → Bytes → Option (Bytes × Bytes)
split_once c [] = none
split_once c (x ∷ s) =
    if x == c
    then some ([], s)
    else elim (split_once c s) [ none ↦ none | some (a, b) ↦ some (x ∷ a, b) ]

-- At the last `c`.
unfoldable pub rsplit_once : ℕ → Bytes → Option (Bytes × Bytes)
rsplit_once c [] = none
rsplit_once c (x ∷ s) = elim (rsplit_once c s) [
  | some (a, b) ↦ some (x ∷ a, b)
  | none ↦ if x == c then some ([], s) else none
]

unfoldable pub split : ℕ → Bytes → List Bytes
split c [] = [] ∷ []
split c (x ∷ s) =
    if x == c
    then [] ∷ split c s
    else elim (split c s) [ [] ↦ (x ∷ []) ∷ [] | l ∷ ls ↦ (x ∷ l) ∷ ls ]

unfoldable pub starts : ℕ → Bytes → Bool
starts c [] = false
starts c (x ∷ s) = x == c

unfoldable pub digits_value : ℕ → Bytes → Option ℕ
digits_value acc [] = some acc
digits_value acc (c ∷ s) =
    if leb b'0' c && leb c b'9' then digits_value (acc * 10 + (c - b'0')) s else none

abbrev pub bounded_by : ℕ → Option ℕ → Option ℕ
bounded_by top none = none
bounded_by top (some n) = if leb n top then some n else none

-- `str::parse` for a number below 2^64: a plus may stand before the digits.
unfoldable pub parse_u64 : Bytes → Option ℕ
unfolding digits_value
parse_u64 [] = none
parse_u64 (c ∷ []) = if c == b'+' then none else digits_value 0 (c ∷ [])
parse_u64 (c ∷ d ∷ s) =
    bounded_by 18_446_744_073_709_551_615 (digits_value 0 (if c == b'+' then d ∷ s else c ∷ d ∷ s))
