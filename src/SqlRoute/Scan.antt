-- ===== src/SqlRoute/Scan.antt =====
-- `src/sql_route.rs`: the scans that pass over literals and comments. The source moves an index; here
-- the text that is left is the argument, beside the index, the byte before it, and the number of bytes
-- of a literal or comment that are still to be passed.
use wp_knowledge.Base.{
  ℕ, zero, suc, ◌+◌, Bool, true, false, not, ◌&&◌, ◌||◌, [], ◌∷◌, Option, none, some, ◌==◌,
  if◌then◌else◌, Bytes, drop,
}
use wp_knowledge.Base.Text.{is_ascii_alphanumeric, strip_prefix_ignore_case}

unfoldable pub is_ident_byte : ℕ → Bool
unfolding is_ascii_alphanumeric
is_ident_byte byte = byte == b'_' || is_ascii_alphanumeric byte

abbrev pub quote : ℕ
quote = b'\''

abbrev pub double_quote : ℕ
double_quote = b'"'

abbrev pub backtick : ℕ
backtick = b'`'

abbrev pub bracket : ℕ
bracket = b'['

abbrev pub close_bracket : ℕ
close_bracket = b']'

abbrev pub newline : ℕ
newline = b'\n'

-- The length of a quoted text behind its opening quote; a doubled quote does not end it.
unfoldable pub quoted_len : ℕ → Bytes → ℕ
quoted_len q [] = 0
quoted_len q (c ∷ []) = 1
quoted_len q (c ∷ d ∷ r) = elim (c == q) [
  | true ↦ elim (d == q) [ true ↦ 2 + quoted_len q r | false ↦ 1 ]
  | false ↦ suc (quoted_len q (d ∷ r))
]

-- Up to the first `t` and with it.
unfoldable pub until_len : ℕ → Bytes → ℕ
until_len t [] = 0
until_len t (c ∷ r) = if c == t then 1 else suc (until_len t r)

-- Up to the end of the line.
unfoldable pub line_len : Bytes → ℕ
line_len [] = 0
line_len (c ∷ r) = if c == newline then 0 else suc (line_len r)

-- Up to the end of a block comment and with it.
unfoldable pub comment_len : Bytes → ℕ
comment_len [] = 0
comment_len (c ∷ []) = 1
comment_len (c ∷ d ∷ r) = if c == b'*' && d == b'/' then 2 else suc (comment_len (d ∷ r))

abbrev pub starts : ℕ → Bytes → Bool
starts b [] = false
starts b (c ∷ r) = c == b

-- The first arms of the `match` in `find_keyword` and `matching_paren`: the length of the literal or
-- comment that begins here, 0 if none does.
unfoldable pub block_len : Bytes → ℕ
unfolding quoted_len until_len line_len comment_len
block_len [] = 0
block_len (b ∷ r) =
    if b == quote || b == double_quote
    then suc (quoted_len b r)
    else if b == backtick
    then suc (until_len backtick r)
    else if b == bracket
    then suc (until_len close_bracket r)
    else if b == b'-' && starts b'-' r
    then suc (suc (line_len (drop 1 r)))
    else if b == b'/' && starts b'*' r
    then suc (suc (comment_len (drop 1 r)))
    else 0

abbrev pub is_none_or_not_ident : Option ℕ → Bool
is_none_or_not_ident none = true
is_none_or_not_ident (some b) = not (is_ident_byte b)

abbrev pub first : Bytes → Option ℕ
first [] = none
first (b ∷ r) = some b

-- The keyword stands here, as a word of its own.
unfoldable pub keyword_here : Bytes → Option ℕ → Bytes → Bool
unfolding is_ident_byte strip_prefix_ignore_case
keyword_here keyword prev s = elim (strip_prefix_ignore_case keyword s) [
  | none ↦ false
  | some next ↦ is_none_or_not_ident prev && is_none_or_not_ident (first next)
]

-- The loop of `find_keyword`.
unfoldable pub find_keyword_from : Bytes → Option ℕ → ℕ → ℕ → Bytes → Option ℕ
find_keyword_from keyword prev idx skip [] = none
find_keyword_from keyword prev idx (suc skip) (b ∷ r) =
    find_keyword_from keyword (some b) (idx + 1) skip r
find_keyword_from keyword prev idx zero (b ∷ r) = elim (block_len (b ∷ r)) [
  | suc n ↦ find_keyword_from keyword (some b) (idx + 1) n r
  | zero ↦ elim (keyword_here keyword prev (b ∷ r)) [
    | true ↦ some idx
    | false ↦ find_keyword_from keyword (some b) (idx + 1) 0 r
  ]
]

unfoldable pub find_keyword : Bytes → Bytes → Option ℕ
unfolding find_keyword_from block_len keyword_here
find_keyword sql keyword = find_keyword_from keyword none 0 0 sql

-- What a byte outside literals and comments does in `matching_paren`.
pub data Paren : Type 0 where
  open_ : Paren
  close : Paren
  plain : Paren

unfoldable pub paren_of : ℕ → Paren
paren_of b = if b == b'(' then Paren.open_ else if b == b')' then Paren.close else Paren.plain

-- The loop of `matching_paren`.
unfoldable pub matching_paren_from : ℕ → ℕ → ℕ → Bytes → Option ℕ
matching_paren_from depth idx skip [] = none
matching_paren_from depth idx (suc skip) (b ∷ r) = matching_paren_from depth (idx + 1) skip r
matching_paren_from depth idx zero (b ∷ r) = elim (block_len (b ∷ r)) [
  | suc n ↦ matching_paren_from depth (idx + 1) n r
  | zero ↦ elim (paren_of b) [
    | Paren.open_ ↦ matching_paren_from (depth + 1) (idx + 1) 0 r
    | Paren.close ↦ elim depth [
      | zero ↦ none
      | suc d ↦ elim d [ zero ↦ some idx | suc e ↦ matching_paren_from (suc e) (idx + 1) 0 r ]
    ]
    | Paren.plain ↦ matching_paren_from depth (idx + 1) 0 r
  ]
]

unfoldable pub matching_paren : Bytes → ℕ → Option ℕ
unfolding matching_paren_from block_len paren_of
matching_paren sql open_pos = matching_paren_from 0 open_pos 0 (drop open_pos sql)
