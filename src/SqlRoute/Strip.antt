-- ===== src/SqlRoute/Strip.antt =====
-- `src/sql_route.rs`: `strip_provider_prefix`, and the route of a query.
use wp_knowledge.Base.{
  ℕ, zero, suc, Bool, true, false, not, ◌&&◌, ◌||◌, [], ◌∷◌, ◌++◌, Option, none, some, ◌==◌,
  if◌then◌else◌, Bytes, drop, length,
}
use wp_knowledge.Base.Text.{strip_prefix, push_char, before}
use wp_knowledge.SqlRoute.Scan.{
  is_ident_byte, quoted_len, until_len, line_len, comment_len, starts, quote, double_quote,
  backtick, bracket, close_bracket,
}
use wp_knowledge.SqlRoute.Table.{first_table_name}

-- The arms of the `match`: here a backtick is quoted like the other quotes, doubled ones included.
unfoldable pub copied_len : Bytes → ℕ
unfolding quoted_len until_len line_len comment_len
copied_len [] = 0
copied_len (b ∷ r) =
    if b == quote || b == double_quote || b == backtick
    then suc (quoted_len b r)
    else if b == bracket
    then suc (until_len close_bracket r)
    else if b == b'-' && starts b'-' r
    then line_len (b ∷ r)
    else if b == b'/' && starts b'*' r
    then suc (suc (comment_len (drop 1 r)))
    else 0

-- An identifier begins here: the byte before is no part of one, and no dot.
abbrev pub is_boundary : Option ℕ → Bool
is_boundary none = true
is_boundary (some p) = not (is_ident_byte p) && not (p == b'.')

-- What follows the name: a dot, and then an identifier or a quoted one.
unfoldable pub qualifies : Bytes → Bool
unfolding is_ident_byte
qualifies [] = false
qualifies (d ∷ []) = false
qualifies (d ∷ next ∷ _) =
    d == b'.' && (is_ident_byte next || next == double_quote || next == backtick || next == bracket)

unfoldable pub prefix_here : Bytes → Option ℕ → Bytes → Bool
unfolding strip_prefix qualifies
prefix_here name prev s = elim (strip_prefix name s) [
  | none ↦ false
  | some rest ↦ is_boundary prev && qualifies rest
]

-- How many bytes are still to be copied as they are, or to be left out.
pub data Mode : Type 0 where
  copy : ℕ → Mode
  leave_out : ℕ → Mode

-- The loop of `strip_provider_prefix`. A byte outside literals and comments is pushed as the character
-- with its number.
unfoldable pub strip_from : Bytes → Option ℕ → Mode → Bytes → Bytes
strip_from name prev mode [] = []
strip_from name prev (Mode.copy (suc k)) (b ∷ r) = b ∷ strip_from name (some b) (Mode.copy k) r
strip_from name prev (Mode.leave_out (suc k)) (b ∷ r) =
    strip_from name (some b) (Mode.leave_out k) r
strip_from name prev _ (b ∷ r) = elim (copied_len (b ∷ r)) [
  | suc n ↦ b ∷ strip_from name (some b) (Mode.copy n) r
  | zero ↦ elim (prefix_here name prev (b ∷ r)) [
    | true ↦ strip_from name (some b) (Mode.leave_out (length name)) r
    | false ↦ push_char b ++ strip_from name (some b) (Mode.copy 0) r
  ]
]

unfoldable pub strip_provider_prefix : Bytes → Bytes → Bytes
unfolding strip_from copied_len prefix_here push_char
strip_provider_prefix sql [] = sql
strip_provider_prefix sql (c ∷ name) = strip_from (c ∷ name) none (Mode.copy 0) sql

-- `compute_route`; `provider_exists` is the look-up in the registry of the runtime.
unfoldable pub compute_route : (Bytes → Bool) → Bytes → Option (Bytes × Bytes)
unfolding first_table_name strip_provider_prefix before
compute_route provider_exists sql = elim (first_table_name sql) [
  | none ↦ none
  | some table ↦ elim (before b'.' table) [
    | [] ↦ none
    | c ∷ name ↦
        if provider_exists (c ∷ name)
        then some (c ∷ name, strip_provider_prefix sql (c ∷ name))
        else none
  ]
]
