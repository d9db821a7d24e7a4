-- ===== src/Vel/Parse.antt =====
-- `src/vel.rs`: the parser and the substitution. A text is the list of its characters; an error is
-- `none`, its text is left out.
use wp_knowledge.Base.{
  ℕ, zero, suc, Bool, true, false, ◌&&◌, ◌||◌, List, [], ◌∷◌, ◌++◌, Option, none, some, ◌==◌,
  if◌then◌else◌, ite, Bytes, find, insert, take,
}
use wp_knowledge.Base.Model.{ℤ, Bytes-discrete}
use wp_knowledge.Base.Text.{codes, is_ascii_alphabetic, is_ascii_alphanumeric}
use wp_knowledge.Vel.{VarDef, eval}
use wp_knowledge.Vel.Text.{trim, lines, split_once, rsplit_once, split, starts, parse_u64}

unfoldable pub is_name_start : ℕ → Bool
unfolding is_ascii_alphabetic
is_name_start c = is_ascii_alphabetic c || c == b'_'

unfoldable pub is_name_char : ℕ → Bool
unfolding is_ascii_alphanumeric
is_name_char c = is_ascii_alphanumeric c || c == b'_'

unfoldable pub all_name_chars : Bytes → Bool
unfolding is_name_char
all_name_chars [] = true
all_name_chars (c ∷ s) = is_name_char c && all_name_chars s

-- The name behind the dollar, if the left side is one.
unfoldable pub valid_name : Bytes → Option Bytes
unfolding is_name_start all_name_chars
valid_name (d ∷ c ∷ s) =
    if d == b'$' && is_name_start c && all_name_chars (c ∷ s) then some (c ∷ s) else none
valid_name _ = none

-- `()` if only a comment is left.
unfoldable pub validate_tail : Bytes → Bool
unfolding trim starts
validate_tail tail = elim (trim tail) [ [] ↦ true | c ∷ t ↦ c == b'#' ]

unfoldable pub unquoted : Option (Bytes × Bytes) → Option Bytes
unquoted (some (a, [])) = some a
unquoted _ = none

unfoldable pub prefix_arg : Option Bytes → Option Bytes
unfolding rsplit_once unquoted
prefix_arg none = some (codes "p")
prefix_arg (some []) = none
prefix_arg (some (c ∷ a)) = if c == b'"' then unquoted (rsplit_once b'"' a) else none

unfoldable pub phase : Bytes → ℤ → Option ℕ → Option ℕ → Option Bytes → Option VarDef
phase name offset (some period) (some bucket) (some prefix) =
    some (VarDef.phase_bucket name period bucket offset prefix)
phase name offset _ _ _ = none

-- The arms for `phase_now` and `phase_next`, by the number of arguments.
unfoldable pub phase_args : Bytes → ℤ → List Bytes → Option VarDef
unfolding phase parse_u64 prefix_arg
phase_args name offset (p ∷ b ∷ []) =
    phase name offset (parse_u64 p) (parse_u64 b) (prefix_arg none)
phase_args name offset (p ∷ b ∷ x ∷ []) =
    phase name offset (parse_u64 p) (parse_u64 b) (prefix_arg (some x))
phase_args name offset _ = none

unfoldable pub trim_all : List Bytes → List Bytes
unfolding trim
trim_all [] = []
trim_all (s ∷ ss) = trim s ∷ trim_all ss

unfoldable pub args_of : Bytes → List Bytes
unfolding trim_all split
args_of [] = []
args_of (c ∷ s) = trim_all (split b',' (c ∷ s))

unfoldable pub parse_call : Bytes → Bytes → List Bytes → Option VarDef
unfolding phase_args
parse_call name fname args =
    ite (Bytes-discrete fname (codes "phase_now")) (phase_args name (ℤ.pos 0) args)
      (ite (Bytes-discrete fname (codes "phase_next")) (phase_args name (ℤ.pos 1) args) none)

unfoldable pub parse_literal : Bytes → Option (Bytes × Bytes) → Option VarDef
unfolding validate_tail
parse_literal name none = none
parse_literal name (some (value, tail)) =
    if validate_tail tail then some (VarDef.literal name value) else none

unfoldable pub parse_function : Bytes → Bytes → Option VarDef
unfolding split_once rsplit_once validate_tail parse_call args_of trim
parse_function name expr = elim (split_once b'(' expr) [
  | none ↦ none
  | some (before, after) ↦ elim (rsplit_once b')' after) [
    | none ↦ none
    | some (args_raw, tail) ↦
        if validate_tail tail then parse_call name (trim before) (args_of (trim args_raw)) else none
  ]
]

-- The expression has been trimmed.
unfoldable pub parse_expr : Bytes → Bytes → Option VarDef
unfolding parse_literal split_once parse_function
parse_expr name [] = none
parse_expr name (c ∷ s) =
    if c == b'"' then parse_literal name (split_once b'"' s) else parse_function name (c ∷ s)

unfoldable pub mem : Bytes → List Bytes → Bool
mem x [] = false
mem x (y ∷ ys) = ite (Bytes-discrete x y) true (mem x ys)

abbrev pub cons_def : Option VarDef → Option (List VarDef) → Option (List VarDef)
cons_def none ds = none
cons_def (some d) none = none
cons_def (some d) (some ds) = some (d ∷ ds)

unfoldable pub parse_lines : List Bytes → List Bytes → Option (List VarDef)
unfolding trim starts split_once valid_name parse_expr mem
parse_lines seen [] = some []
parse_lines seen (raw ∷ rest) =
    let skipped = parse_lines seen rest in
    elim (trim raw) [
      | [] ↦ skipped
      | c ∷ t ↦ if c == b'#' then skipped else elim (split_once b'=' (c ∷ t)) [
        | none ↦ none
        | some (lhs, rhs) ↦ elim (valid_name (trim lhs)) [
          | none ↦ none
          | some key ↦
              if mem key seen
              then none
              else cons_def (parse_expr key (trim rhs)) (parse_lines (key ∷ seen) rest)
        ]
      ]
    ]

unfoldable pub parse : Bytes → Option (List VarDef)
unfolding parse_lines lines
parse code = parse_lines [] (lines code)

-- How long the name is that the text begins with.
unfoldable pub ident_len : Bytes → ℕ
unfolding is_name_char
ident_len [] = 0
ident_len (c ∷ s) = if is_name_char c then suc (ident_len s) else 0

-- What a placeholder becomes.
unfoldable pub replaced : List (Bytes × Bytes) → Bytes → Bytes
replaced map ident = elim (find Bytes-discrete ident map) [
  | some value ↦ value
  | none ↦ b'$' ∷ ident
]

-- The loop, and how much of a name is still to be passed.
unfoldable pub resolve_from : List (Bytes × Bytes) → ℕ → Bytes → Bytes
unfolding is_name_start ident_len replaced
resolve_from map skip [] = []
resolve_from map (suc n) (c ∷ s) = resolve_from map n s
resolve_from map zero (c ∷ []) = c ∷ []
resolve_from map zero (c ∷ d ∷ s) =
    let plain = resolve_from map zero (d ∷ s) in
    if c == b'$' && is_name_start d
    then replaced map (take (ident_len (d ∷ s)) (d ∷ s))
      ++ resolve_from map (ident_len (d ∷ s)) (d ∷ s)
    else c ∷ plain

unfoldable pub map_of : List (Bytes × Bytes) → List (Bytes × Bytes) → List (Bytes × Bytes)
map_of map [] = map
map_of map ((k, v) ∷ vars) = map_of (insert Bytes-discrete k v map) vars

unfoldable pub resolve_vars : Bytes → List (Bytes × Bytes) → Bytes
unfolding resolve_from map_of
resolve_vars sql [] = sql
resolve_vars sql (x ∷ vars) = resolve_from (map_of [] (x ∷ vars)) 0 sql

module _ (decimal_text : ℕ → Bytes) where
  unfoldable pub eval_code : Bytes → ℕ → Option (List (Bytes × Bytes))
  unfolding parse eval
  eval_code code now_ns = elim (parse code) [
    | none ↦ none
    | some defs ↦ eval decimal_text now_ns defs
  ]

  unfoldable pub render : Bytes → Bytes → ℕ → Option Bytes
  unfolding eval_code resolve_vars trim
  render sql code now_ns = elim (trim code) [
    | [] ↦ some sql
    | c ∷ t ↦ elim (eval_code code now_ns) [
      | none ↦ none
      | some vars ↦ some (resolve_vars sql vars)
    ]
  ]
