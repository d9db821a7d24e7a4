-- ===== src/SqlRoute/Table.antt =====
-- `src/sql_route.rs`: `first_table_name`, the first table that a query reads from.
use wp_knowledge.Base.{
  ℕ, zero, suc, ◌+◌, ◌-◌, true, false, ◌||◌, [], ◌∷◌, Option, none, some, ◌==◌, if◌then◌else◌,
  Bytes, drop, take, length,
}
use wp_knowledge.Base.Text.{codes, is_ascii_whitespace, trim}
use wp_knowledge.SqlRoute.Scan.{find_keyword, matching_paren, starts}

unfoldable pub ascii_whitespace_len : Bytes → ℕ
unfolding is_ascii_whitespace
ascii_whitespace_len [] = 0
ascii_whitespace_len (b ∷ r) = if is_ascii_whitespace b then suc (ascii_whitespace_len r) else 0

-- The bytes up to the end of a table reference.
unfoldable pub reference_of : Bytes → Bytes
unfolding is_ascii_whitespace
reference_of [] = []
reference_of (b ∷ r) =
    if is_ascii_whitespace b || b == b';' || b == b',' || b == b')' then [] else b ∷ reference_of r

abbrev pub some_table : Bytes → Option Bytes
some_table [] = none
some_table (b ∷ r) = some (b ∷ r)

-- The inside of a parenthesis, `sql[table_start + 1..close_pos]`.
abbrev pub inside : Bytes → ℕ → ℕ → Bytes
inside sql table_start close_pos = take (close_pos - (table_start + 1)) (drop (table_start + 1) sql)

abbrev pub from : Bytes
from = codes "from"

-- The position behind `from` and the white space after it.
unfoldable pub table_start_of : Bytes → Option ℕ
unfolding find_keyword ascii_whitespace_len
table_start_of sql = elim (find_keyword sql from) [
  | none ↦ none
  | some from_pos ↦
      some (from_pos + length from + ascii_whitespace_len (drop (from_pos + length from) sql))
]

-- The recursion into a subquery takes fuel.
unfoldable pub first_table_fuel : ℕ → Bytes → Option Bytes
first_table_fuel zero sql = none
first_table_fuel (suc fuel) sql = elim (table_start_of sql) [
  | none ↦ none
  | some table_start ↦ elim (starts b'(' (drop table_start sql)) [
    | true ↦ elim (matching_paren sql table_start) [
      | none ↦ none
      | some close_pos ↦ first_table_fuel fuel (inside sql table_start close_pos)
    ]
    | false ↦ some_table (trim (reference_of (drop table_start sql)))
  ]
]

unfoldable pub first_table_name : Bytes → Option Bytes
unfolding first_table_fuel table_start_of matching_paren reference_of trim
first_table_name sql = first_table_fuel (suc (length sql)) sql
