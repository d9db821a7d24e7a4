-- ===== src/Rewrite/Tokens.antt =====
-- `src/postgres.rs`, `src/mysql.rs`: the scan of `rewrite_sql`, which is the same in both. The source
-- moves an index and writes as it goes; here a token is a byte that is copied, or the name of a
-- parameter, and what is written for each is said by the functions on tokens.
use wp_knowledge.Base.{
  ℕ, zero, suc, Bool, true, false, ◌&&◌, ◌||◌, List, [], ◌∷◌, Option, none, some, ◌==◌,
  if◌then◌else◌, Bytes, take, drop, length, ◌+◌,
}
use wp_knowledge.Base.Text.{is_ascii_alphabetic, is_ascii_alphanumeric, starts_with}
use wp_knowledge.SqlRoute.Scan.{quote, double_quote, newline, quoted_len, starts}

unfoldable pub is_param_start : ℕ → Bool
unfolding is_ascii_alphabetic
is_param_start byte = is_ascii_alphabetic byte || byte == b'_'

unfoldable pub is_param_continue : ℕ → Bool
unfolding is_ascii_alphanumeric
is_param_continue byte = is_ascii_alphanumeric byte || byte == b'_'

unfoldable pub is_dollar_tag_start : ℕ → Bool
unfolding is_ascii_alphabetic
is_dollar_tag_start byte = is_ascii_alphabetic byte || byte == b'_'

unfoldable pub is_dollar_tag_continue : ℕ → Bool
unfolding is_ascii_alphanumeric
is_dollar_tag_continue byte = is_ascii_alphanumeric byte || byte == b'_'

-- The loop of `parse_dollar_quote_tag` behind the first dollar: how far it is behind the second one.
-- The flag says whether this is the first byte.
unfoldable pub tag_tail_len : Bool → Bytes → Option ℕ
unfolding is_dollar_tag_start is_dollar_tag_continue
tag_tail_len at_start [] = none
tag_tail_len at_start (b ∷ r) =
    if b == b'$'
    then some 1
    else if (if at_start then is_dollar_tag_start b else is_dollar_tag_continue b)
    then elim (tag_tail_len false r) [ none ↦ none | some n ↦ some (suc n) ]
    else none

unfoldable pub parse_dollar_quote_tag : Bytes → Option ℕ
unfolding tag_tail_len
parse_dollar_quote_tag [] = none
parse_dollar_quote_tag (b ∷ r) =
    if b == b'$' then elim (tag_tail_len true r) [ none ↦ none | some n ↦ some (suc n) ] else none

-- How long a comment is that ends with the line, the newline included.
unfoldable pub rest_of_line : Bytes → ℕ
rest_of_line [] = 0
rest_of_line (b ∷ r) = if b == newline then 1 else suc (rest_of_line r)

-- How long a comment is that ends with `*/`.
unfoldable pub rest_of_comment : Bytes → ℕ
rest_of_comment [] = 0
rest_of_comment (b ∷ r) = if b == b'*' && starts b'/' r then 2 else suc (rest_of_comment r)

-- How long the text is up to the end of the tag.
unfoldable pub rest_of_dollar : Bytes → Bytes → ℕ
unfolding starts_with
rest_of_dollar tag [] = 0
rest_of_dollar tag (b ∷ r) =
    if starts_with tag (b ∷ r) then length tag else suc (rest_of_dollar tag r)

-- The arms of the `match` that copy more than one byte: how many, 0 if none of them applies.
unfoldable pub copied_len : Bytes → ℕ
unfolding quoted_len rest_of_line rest_of_comment rest_of_dollar parse_dollar_quote_tag
copied_len [] = 0
copied_len (b ∷ r) =
    if b == quote || b == double_quote
    then suc (quoted_len b r)
    else if b == b'-' && starts b'-' r
    then suc (suc (rest_of_line (drop 1 r)))
    else if b == b'/' && starts b'*' r
    then suc (suc (rest_of_comment (drop 1 r)))
    else if b == b'$'
    then elim (parse_dollar_quote_tag (b ∷ r)) [
      | none ↦ 0
      | some n ↦ n + rest_of_dollar (take n (b ∷ r)) (drop n (b ∷ r))
    ]
    else if b == b':' && starts b':' r
    then 2
    else 0

unfoldable pub name_len : Bytes → ℕ
unfolding is_param_continue
name_len [] = 0
name_len (b ∷ r) = if is_param_continue b then suc (name_len r) else 0

-- The last part of the arm for a colon: the length of the name with its colon, 0 if there is none.
unfoldable pub param_len : Bytes → ℕ
unfolding is_param_start name_len
param_len [] = 0
param_len (a ∷ []) = 0
param_len (a ∷ b ∷ r) = if a == b':' && is_param_start b then suc (suc (name_len r)) else 0

pub data Token : Type 0 where
  byte : ℕ → Token
  param : Bytes → Token

-- How many bytes are still to be copied, or to be passed as part of a name.
pub data Mode : Type 0 where
  copy : ℕ → Mode
  pass : ℕ → Mode

unfoldable pub tokens_from : Mode → Bytes → List Token
tokens_from m [] = []
tokens_from (Mode.copy (suc n)) (b ∷ r) = Token.byte b ∷ tokens_from (Mode.copy n) r
tokens_from (Mode.pass (suc n)) (b ∷ r) = tokens_from (Mode.pass n) r
tokens_from _ (b ∷ r) = elim (copied_len (b ∷ r)) [
  | suc n ↦ Token.byte b ∷ tokens_from (Mode.copy n) r
  | zero ↦ elim (param_len (b ∷ r)) [
    | zero ↦ Token.byte b ∷ tokens_from (Mode.copy 0) r
    | suc n ↦ Token.param (take (suc n) (b ∷ r)) ∷ tokens_from (Mode.pass n) r
  ]
]

unfoldable pub tokens : Bytes → List Token
unfolding tokens_from copied_len param_len
tokens sql = tokens_from (Mode.copy 0) sql
