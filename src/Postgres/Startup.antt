-- ===== src/Postgres/Startup.antt =====
-- `src/postgres.rs`: how the start of a provider ends on a server that keeps to SQL.
use wp_knowledge.Base.{
  ◌≡◌, refl, ap, ◌∙◌, List, [], ◌∷◌, ◌++◌, some, ite, inl, inr, Bytes, arith, All,
}
use wp_knowledge.Lru.{Member}
use wp_knowledge.Base.Model.{Bytes-discrete}
use wp_knowledge.Base.Text.{codes}
use wp_knowledge.Runtime.Types.{KnowledgeResult}
use wp_knowledge.Facade.Specs.{PostgresSessionSpec}
use wp_knowledge.Postgres.{
  setting_name, PostgresSessionConfig, from_spec, Answer, Server, statements_of, after_connect,
  mismatch, pool_err, validate_settings, validate_startup, connect,
}
use wp_knowledge.Postgres.Distinct.{Expectation, from_spec-IsDistinct}
use wp_knowledge.Postgres.Statements.{map-from_spec}
use wp_knowledge.Postgres.Applied.{
  Settings, IsTaken, IsRefused, outcomes-cases, after_connect-answered, shown, IsApplied,
  after_connect-IsApplied, after_connect-refused,
}

module _ {W : Type 0} (server : Server W) (honest : Settings server) where
  open honest use {setting, outcome}

  -- The end of the start: the first expectation that the server keeps in another form is the error.
  unfoldable pub verdict : Bytes → List Expectation → KnowledgeResult (Unit {0})
  unfolding mismatch
  verdict name [] = KnowledgeResult.ok tt
  verdict name ((p, v) ∷ es) =
      ite (Bytes-discrete (shown server honest p v) v) (verdict name es)
        (mismatch server name (setting_name p) v (shown server honest p v))

  validate_settings_lem :
      (name : Bytes) (es : List Expectation) (w : W)
      → IsApplied server honest w es
      → (validate_settings server name es w).1 ≡ verdict name es
  unfolding validate_settings verdict
  validate_settings_lem name [] w h = refl
  validate_settings_lem name ((p, v) ∷ es) w h =
      let ih : (validate_settings server name es w).1 ≡ verdict name es =
        validate_settings_lem name es w h.1 in
      let read : server.query_scalar
            (codes "SELECT current_setting('" ++ (setting_name p ++ codes "')")) w
          ≡ (w, Answer.answered (shown server honest p v)) =
        honest.current w p ∙ ap (λ x. (w, Answer.answered x)) h.0 in
      elim (Bytes-discrete (shown server honest p v) v) [
        | yes same ↦ ground (arith, read, same, ih)
        | no other ↦ ground (arith, read, other, ih)
      ]

  select-IsApplied :
      (es : List Expectation) (w : W)
      → IsApplied server honest w es
      → IsApplied server honest (server.execute (codes "SELECT 1") w).0 es
  select-IsApplied [] w h = tt
  select-IsApplied (e ∷ es) w h =
      (honest.select_keeps w (setting_name e.0) ∙ h.0, select-IsApplied es w h.1)

  validate_startup_lem :
      (name : Bytes) (config : PostgresSessionConfig) (w : W)
      → IsApplied server honest w config.expectations
      → (validate_startup server name (some config) w).1 ≡ verdict name config.expectations
  unfolding validate_startup
  validate_startup_lem name config w h =
      let after : W = (server.execute (codes "SELECT 1") w).0 in
      ground (
        arith,
        honest.selects w,
        validate_settings_lem name config.expectations after
            (select-IsApplied config.expectations w h),
      )

  -- How the start of a provider with these expectations can end.
  pub data Ending (name : Bytes) (es : List Expectation) (result : KnowledgeResult (Unit {0}))
      : Type 0 where
    settled : All (IsTaken server honest) es → result ≡ verdict name es → Ending name es result
    refused :
        (e : Expectation)
        → Member e es
        → IsRefused server honest e
        → (err : Bytes) → result ≡ pool_err err
        → Ending name es result

  module _ (name : Bytes) (spec : PostgresSessionSpec) (w : W) where
    abbrev stmts : List Bytes
    stmts = (from_spec spec).init_statements

    abbrev es : List Expectation
    es = (from_spec spec).expectations

    connect_settled :
        All (IsTaken server honest) es
        → (connect server name (some (from_spec spec)) w).1 ≡ verdict name es
    unfolding connect statements_of
    connect_settled taken =
        let ready : W × Answer (Unit {0}) = after_connect server stmts (honest.opened w) in
        let hooked : ready.1 ≡ Answer.answered tt =
          after_connect-answered server honest stmts es (honest.opened w) (map-from_spec spec)
            taken in
        let applied : IsApplied server honest ready.0 es =
          after_connect-IsApplied server honest stmts es (honest.opened w) (map-from_spec spec)
            taken (from_spec-IsDistinct spec) in
        ground (
          arith,
          honest.opens (after_connect server stmts) w hooked,
          hooked,
          validate_startup_lem name (from_spec spec) ready.0 applied,
        )

    connect_refused :
        (e : Expectation)
        → Member e es
        → IsRefused server honest e
        → (err : Bytes) × ((connect server name (some (from_spec spec)) w).1 ≡ pool_err err)
    unfolding connect statements_of
    connect_refused e at r =
        let (err, g) =
          honest.gives_up (after_connect server stmts) w
            (λ w'. after_connect-refused server honest stmts es e w' (map-from_spec spec) at r) in
        (err, ground (arith, g))

    -- On a server that treats settings as Postgres documents it, a provider with a session ends its
    -- start in one of two ways, whatever the state of the server before. If the server takes every
    -- setting, the provider starts, or fails with the error that names the first setting which the
    -- server keeps in another form than the expected one. If the server refuses a setting, it is the
    -- error of the pool.
    pub connect_lem : Ending name es (connect server name (some (from_spec spec)) w).1
    connect_lem = elim (outcomes-cases server honest es) [
      | inl taken ↦ Ending.settled taken (connect_settled taken)
      | inr (e, at, r) ↦ let (err, g) = connect_refused e at r in Ending.refused e at r err g
    ]
