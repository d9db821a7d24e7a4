-- ===== src/SqlRoute/Subquery.antt =====
-- `src/sql_route.rs`: the recursion of `first_table_name` into subqueries.
use wp_knowledge.Base.{
  ℕ, zero, suc, ◌+◌, ◌-◌, ◌<◌, ◌≤◌, ◌≡◌, refl, sym, ◌∙◌, true, false, [], ◌∷◌, Option, none, some,
  arith, Bytes, drop, take, length, Option-cases, Bool-cases, inl, inr,
}
use wp_knowledge.Base.Text.{trim}
use wp_knowledge.SqlRoute.Scan.{matching_paren, starts}
use wp_knowledge.SqlRoute.Table.{
  table_start_of, reference_of, some_table, inside, first_table_fuel, first_table_name,
}
use wp_knowledge.SqlRoute.Parens.{matching_paren_lt}

length-take-le : (n : ℕ) (s : Bytes) → length (take n s) ≤ n
length-take-le zero s = omega arith
length-take-le (suc n) [] = omega arith
length-take-le (suc n) (b ∷ s) = omega (arith, length-take-le n s)

length-drop : (n : ℕ) (s : Bytes) → length (drop n s) ≡ length s - n
length-drop zero s = omega arith
length-drop (suc n) [] = omega arith
length-drop (suc n) (b ∷ s) = omega (arith, length-drop n s)

starts-pos : (b : ℕ) (s : Bytes) → starts b s ≡ true → 0 < length s
starts-pos b [] e = cc
starts-pos b (c ∷ s) e = omega arith

inside_lt :
    (sql : Bytes) (table_start close_pos : ℕ)
    → starts b'(' (drop table_start sql) ≡ true
    → matching_paren sql table_start ≡ some close_pos
    → length (inside sql table_start close_pos) < length sql
inside_lt sql ts close s e = omega (
  arith,
  length-take-le (close - (ts + 1)) (drop (ts + 1) sql),
  matching_paren_lt sql ts close e,
  length-drop ts sql,
  starts-pos b'(' (drop ts sql) s,
)

-- One round, with the recursive call as an argument.
abbrev pub table_round : (Bytes → Option Bytes) → Bytes → Option Bytes
table_round rec sql = elim (table_start_of sql) [
  | none ↦ none
  | some table_start ↦ elim (starts b'(' (drop table_start sql)) [
    | true ↦ elim (matching_paren sql table_start) [
      | none ↦ none
      | some close_pos ↦ rec (inside sql table_start close_pos)
    ]
    | false ↦ some_table (trim (reference_of (drop table_start sql)))
  ]
]

round_same :
    (rec rec' : Bytes → Option Bytes) (sql : Bytes)
    → ((s : Bytes) → length s < length sql → rec s ≡ rec' s)
    → table_round rec sql ≡ table_round rec' sql
round_same rec rec' sql same = elim (Option-cases (table_start_of sql)) [
  | inl e ↦ rw (e, table_round) refl
  | inr (ts, e) ↦ elim (Bool-cases (starts b'(' (drop ts sql))) [
    | inr f ↦ ground arith
    | inl f ↦ elim (Option-cases (matching_paren sql ts)) [
      | inl g ↦ ground arith
      | inr (close, g) ↦ ground (arith, same (inside sql ts close) (inside_lt sql ts close f g))
    ]
  ]
]

fuel_step :
    (fuel : ℕ) (sql : Bytes)
    → first_table_fuel (suc fuel) sql ≡ table_round (first_table_fuel fuel) sql
unfolding first_table_fuel
fuel_step fuel sql = refl

-- Fuel above the length of the text is enough: more gives the same.
pub first_table_fuel-eq :
    (f g : ℕ) (sql : Bytes)
    → length sql < f
    → length sql < g
    → first_table_fuel f sql ≡ first_table_fuel g sql
first_table_fuel-eq zero g sql lf lg = absurd (omega arith)
first_table_fuel-eq (suc f) zero sql lf lg = absurd (omega arith)
first_table_fuel-eq (suc f) (suc g) sql lf lg =
    fuel_step f sql
    ∙ round_same (first_table_fuel f) (first_table_fuel g) sql
        (λ s lt. first_table_fuel-eq f g s (omega arith) (omega arith))
    ∙ sym (fuel_step g sql)

name_lem : (sql : Bytes) → first_table_name sql ≡ first_table_fuel (suc (length sql)) sql
unfolding first_table_name
name_lem sql = refl

-- `first_table_name` is the recursion of the source, with no trace of the fuel: the reference behind
-- the first `from`, or what the recursive call finds inside the parenthesis that stands there.
first_table_name-round : (sql : Bytes) → first_table_name sql ≡ table_round first_table_name sql
first_table_name-round sql =
    name_lem sql
    ∙ fuel_step (length sql) sql
    ∙ round_same (first_table_fuel (length sql)) first_table_name sql (λ s lt.
      first_table_fuel-eq (length sql) (suc (length s)) s lt (omega arith) ∙ sym (name_lem s))
