-- ===== src/Postgres/Statements.antt =====
-- `src/postgres.rs`: what the statements of a session set.
use wp_knowledge.Base.{
  ℕ, ◌≡◌, ◌≢◌, refl, sym, ap, ◌∙◌, Bool, true, false, ◌&&◌, ◌||◌, List, [], ◌∷◌, ◌++◌, map, Option,
  none, some, leb, ◌==◌, if◌then◌else◌, Bytes, arith, Bool-cases, ite, inl, inr,
}
use wp_knowledge.Base.Model.{Bytes-discrete}
use wp_knowledge.Base.Text.{codes, strip_prefix}
use wp_knowledge.Facade.Specs.{PlanCacheMode, PostgresSessionSpec}
use wp_knowledge.Postgres.{
  PgParam, setting_name, to_sql_value, double_quotes, PostgresSessionConfig, push_setting,
  push_mode, push_jit, push_name, from_spec,
}

abbrev pushed : ℕ → Option (Bytes × Bytes) → Option (Bytes × Bytes)
pushed c none = none
pushed c (some (s, rest)) = some (c ∷ s, rest)

-- A string constant of SQL behind its opening quote: its text, in which two quotes are one and a
-- backslash is itself (`standard_conforming_strings`, the default of Postgres), and what follows the
-- closing quote.
unfoldable pub read_literal : Bytes → Option (Bytes × Bytes)
read_literal [] = none
read_literal (c ∷ []) = if c == b'\'' then some ([], []) else none
read_literal (c ∷ d ∷ s) = elim (c == b'\'') [
  | false ↦ pushed c (read_literal (d ∷ s))
  | true ↦ elim (d == b'\'') [ true ↦ pushed c (read_literal s) | false ↦ some ([], d ∷ s) ]
]

-- A name of small letters and underscores.
unfoldable pub read_word : Bytes → Bytes × Bytes
read_word [] = ([], [])
read_word (c ∷ s) =
    let (word, rest) = read_word s in
    if (leb b'a' c && leb c b'z') || c == b'_' then (c ∷ word, rest) else ([], c ∷ s)

abbrev closed : Bytes → Option (Bytes × Bytes) → Option (Bytes × Bytes)
closed name (some (value, [])) = some (name, value)
closed name _ = none

-- The bare word `default` is not a value: it resets the setting.
unfoldable pub read_bare : Bytes → Bytes × Bytes → Option (Bytes × Bytes)
read_bare name (word, rest) =
    ite (Bytes-discrete word (codes "default")) none (closed name (some (word, rest)))

unfoldable pub read_value : Bytes → Bytes → Option (Bytes × Bytes)
unfolding read_word read_literal read_bare
read_value name [] = none
read_value name (c ∷ s) =
    if c == b'\'' then closed name (read_literal s) else read_bare name (read_word (c ∷ s))

abbrev named_value : Bytes → Option Bytes → Option (Bytes × Bytes)
named_value name none = none
named_value name (some s) = read_value name s

abbrev after_set : Option Bytes → Option (Bytes × Bytes)
after_set none = none
after_set (some s) =
    let (name, rest) = read_word s in named_value name (strip_prefix (codes " = ") rest)

-- The statement `SET name = value` of SQL, the value a name or a string constant, and nothing after it.
unfoldable pub read_set : Bytes → Option (Bytes × Bytes)
unfolding strip_prefix read_word read_value
read_set s = after_set (strip_prefix (codes "SET ") s)

read_literal-plain :
    (c : ℕ) (s : Bytes) → c ≢ b'\'' → read_literal (c ∷ s) ≡ pushed c (read_literal s)
unfolding read_literal
read_literal-plain c [] h = ground arith
read_literal-plain c (d ∷ s) h = ground arith

read_literal-two_quotes :
    (s : Bytes) → read_literal (b'\'' ∷ b'\'' ∷ s) ≡ pushed b'\'' (read_literal s)
unfolding read_literal
read_literal-two_quotes s = refl

-- Whatever the text, it is read back with its quotes doubled, up to the closing quote.
read_literal-double_quotes :
    (s : Bytes) → read_literal (double_quotes s ++ (b'\'' ∷ [])) ≡ some (s, [])
unfolding double_quotes
read_literal-double_quotes [] = unfold read_literal in refl
read_literal-double_quotes (c ∷ s) = elim (Bool-cases (c == b'\'')) [
  | inl quote ↦ rw quote (
      read_literal-two_quotes _
      ∙ ap (pushed b'\'') (read_literal-double_quotes s)
      ∙ ap (λ (d : ℕ). some (d ∷ s, [])) (ground (arith, quote)))
  | inr other ↦ rw other (
      read_literal-plain c _ (λ e. ground (arith, other, e))
      ∙ ap (pushed c) (read_literal-double_quotes s))
]

-- Each setting, as the text that sets it and as what is expected of it.
abbrev IsPaired : PostgresSessionConfig → Type 0
IsPaired config =
    map read_set config.init_statements
    ≡ map (λ (e : PgParam × Bytes). some (setting_name e.0, e.1)) config.expectations

read_set-mode :
    (mode : PlanCacheMode)
    → read_set (codes "SET plan_cache_mode = " ++ to_sql_value mode)
      ≡ some (setting_name PgParam.plan_cache_mode, to_sql_value mode)
unfolding read_set to_sql_value setting_name Bytes-discrete wp_knowledge.Base.ℕ_discrete
read_set-mode PlanCacheMode.auto = refl
read_set-mode PlanCacheMode.force_generic_plan = refl
read_set-mode PlanCacheMode.force_custom_plan = refl

read_set-name :
    (app : Bytes)
    → read_set (codes "SET application_name = '" ++ (double_quotes app ++ codes "'"))
      ≡ some (setting_name PgParam.application_name, app)
unfolding read_set setting_name
read_set-name app = ap (closed (codes "application_name")) (read_literal-double_quotes app)

map-append : {A B : Type 0} (f : A → B) (xs ys : List A) → map f (xs ++ ys) ≡ map f xs ++ map f ys
map-append f [] ys = refl
map-append f (x ∷ xs) ys = ap (λ r. f x ∷ r) (map-append f xs ys)

push_setting-IsPaired :
    (statement : Bytes) (param : PgParam) (value : Bytes) (config : PostgresSessionConfig)
    → read_set statement ≡ some (setting_name param, value)
    → IsPaired config
    → IsPaired (push_setting statement param value config)
unfolding push_setting
push_setting-IsPaired statement param value config e h =
    map-append read_set config.init_statements (statement ∷ [])
    ∙ (λ i. h i ++ (e i ∷ []))
    ∙ sym (
        map-append (λ (x : PgParam × Bytes). some (setting_name x.0, x.1)) config.expectations
          ((param, value) ∷ []))

push_mode-IsPaired :
    (mode : Option PlanCacheMode) (config : PostgresSessionConfig)
    → IsPaired config
    → IsPaired (push_mode mode config)
unfolding push_mode
push_mode-IsPaired none config h = h
push_mode-IsPaired (some mode) config h = push_setting-IsPaired _ _ _ config (read_set-mode mode) h

push_jit-IsPaired :
    (jit : Option Bool) (config : PostgresSessionConfig)
    → IsPaired config
    → IsPaired (push_jit jit config)
unfolding push_jit read_set setting_name Bytes-discrete wp_knowledge.Base.ℕ_discrete
push_jit-IsPaired none config h = h
push_jit-IsPaired (some true) config h =
    push_setting-IsPaired _ PgParam.jit (codes "on") config refl h
push_jit-IsPaired (some false) config h =
    push_setting-IsPaired _ PgParam.jit (codes "off") config refl h

push_name-IsPaired :
    (app : Option Bytes) (config : PostgresSessionConfig)
    → IsPaired config
    → IsPaired (push_name app config)
unfolding push_name
push_name-IsPaired none config h = h
push_name-IsPaired (some app) config h = push_setting-IsPaired _ _ _ config (read_set-name app) h

-- The statements of a session are read, as SQL, as the settings that are expected of the session, one
-- by one and in their order: each sets its parameter to the expected value and is nothing else,
-- whatever characters the name of the application has.
pub map-from_spec :
    (spec : PostgresSessionSpec)
    → map read_set (from_spec spec).init_statements
      ≡ map (λ (e : PgParam × Bytes). some (setting_name e.0, e.1)) (from_spec spec).expectations
unfolding from_spec
map-from_spec spec =
    push_name-IsPaired spec.application_name _
      (push_jit-IsPaired spec.jit _ (push_mode-IsPaired spec.plan_cache_mode _ refl))
