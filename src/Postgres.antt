-- ===== src/Postgres.antt =====
-- `src/postgres.rs`: the session of a connection and the validation at the start of a provider.
pub mod Statements
pub mod Distinct
pub mod Applied
pub mod Startup
use wp_knowledge.Base.{
  ℕ, Bool, true, false, List, [], ◌∷◌, ◌++◌, Option, none, some, ◌==◌, if◌then◌else◌, ite, Bytes,
}
use wp_knowledge.Base.Model.{Bytes-discrete}
use wp_knowledge.Base.Text.{codes}
use wp_knowledge.Runtime.Types.{KnowledgeError, KnowledgeResult}
use wp_knowledge.Facade.Specs.{PlanCacheMode, PostgresSessionSpec}

pub data PgParam : Type 0 where
  plan_cache_mode jit application_name : PgParam

unfoldable pub setting_name : PgParam → Bytes
setting_name PgParam.plan_cache_mode = codes "plan_cache_mode"
setting_name PgParam.jit = codes "jit"
setting_name PgParam.application_name = codes "application_name"

unfoldable pub to_sql_value : PlanCacheMode → Bytes
to_sql_value PlanCacheMode.auto = codes "auto"
to_sql_value PlanCacheMode.force_generic_plan = codes "force_generic_plan"
to_sql_value PlanCacheMode.force_custom_plan = codes "force_custom_plan"

-- `replace('\'', "''")`.
unfoldable pub double_quotes : Bytes → Bytes
double_quotes [] = []
double_quotes (c ∷ s) = if c == b'\'' then b'\'' ∷ b'\'' ∷ double_quotes s else c ∷ double_quotes s

pub record PostgresSessionConfig : Type 0 where
  pub init_statements : List Bytes
  pub expectations : List (PgParam × Bytes)

unfoldable pub push_setting :
    Bytes → PgParam → Bytes → PostgresSessionConfig → PostgresSessionConfig
push_setting statement param value config = record {
  init_statements = config.init_statements ++ (statement ∷ []);
  expectations = config.expectations ++ ((param, value) ∷ []);
}

unfoldable pub push_mode : Option PlanCacheMode → PostgresSessionConfig → PostgresSessionConfig
unfolding push_setting to_sql_value
push_mode none config = config
push_mode (some mode) config =
    push_setting (codes "SET plan_cache_mode = " ++ to_sql_value mode) PgParam.plan_cache_mode
      (to_sql_value mode) config

unfoldable pub push_jit : Option Bool → PostgresSessionConfig → PostgresSessionConfig
unfolding push_setting
push_jit none config = config
push_jit (some true) config = push_setting (codes "SET jit = on") PgParam.jit (codes "on") config
push_jit (some false) config = push_setting (codes "SET jit = off") PgParam.jit (codes "off") config

unfoldable pub push_name : Option Bytes → PostgresSessionConfig → PostgresSessionConfig
unfolding push_setting double_quotes
push_name none config = config
push_name (some app) config =
    push_setting (codes "SET application_name = '" ++ (double_quotes app ++ codes "'"))
      PgParam.application_name app config

unfoldable pub from_spec : PostgresSessionSpec → PostgresSessionConfig
unfolding push_mode push_jit push_name
from_spec spec = push_name spec.application_name (
    push_jit spec.jit
      (push_mode spec.plan_cache_mode (record { init_statements = []; expectations = [] })))

pub data Answer (A : Type 0) : Type 0 where
  failed : Bytes → Answer A
  answered : A → Answer A

-- The driver, `W` the state of the server: a pool is connected with a hook for each new connection, a
-- statement is executed, a query of one value is made. `protocol` is how the driver shows an error of
-- the hook, and `debug` the form `{:?}` of a text.
pub record Server (W : Type 0) : Type 0 where
  pub connect_pool : (W → W × Answer (Unit {0})) → W → W × Answer (Unit {0})
  pub execute : Bytes → W → W × Answer (Unit {0})
  pub query_scalar : Bytes → W → W × Answer Bytes
  pub protocol : Bytes → Bytes
  pub debug : Bytes → Bytes

abbrev pub config_err : Bytes → KnowledgeResult (Unit {0})
config_err detail = KnowledgeResult.err (KnowledgeError.config detail)

unfoldable pub validation_err : Bytes → Bytes → Bytes → KnowledgeResult (Unit {0})
validation_err provider_name stage err = config_err (
    codes "postgres provider '"
    ++ (provider_name
        ++ (codes "' startup validation failed during " ++ (stage ++ (codes ": " ++ err)))))

-- Without a session no hook is set, as if it did nothing.
unfoldable pub statements_of : Option PostgresSessionConfig → List Bytes
statements_of none = []
statements_of (some config) = config.init_statements

unfoldable pub pool_err : Bytes → KnowledgeResult (Unit {0})
pool_err err = config_err (codes "create postgres pool failed: " ++ err)

module _ {W : Type 0} (server : Server W) where
  -- The hook `after_connect`: the statements one by one, up to the first that fails.
  unfoldable pub after_connect : List Bytes → W → W × Answer (Unit {0})
  after_connect [] world = (world, Answer.answered tt)
  after_connect (stmt ∷ stmts) world =
      let (world', end) = server.execute stmt world in
      let rest = after_connect stmts world' in
      elim end [
        | Answer.failed err ↦ (
          world',
          Answer.failed (
              server.protocol
                (codes "apply postgres session SET '" ++ (stmt ++ (codes "' failed: " ++ err)))),
        )
        | Answer.answered u ↦ rest
      ]

  unfoldable pub mismatch : Bytes → Bytes → Bytes → Bytes → KnowledgeResult (Unit {0})
  mismatch provider_name setting expected actual = config_err (
      codes "postgres provider '"
      ++ (provider_name
          ++ (codes "': session parameter '"
              ++ (setting
                  ++ (codes "' mismatch: expected "
                      ++ (server.debug expected ++ (codes ", actual " ++ server.debug actual)))))))

  unfoldable pub validate_settings :
      Bytes → List (PgParam × Bytes) → W → W × KnowledgeResult (Unit {0})
  unfolding setting_name validation_err mismatch
  validate_settings provider_name [] world = (world, KnowledgeResult.ok tt)
  validate_settings provider_name ((param, expected) ∷ rest) world =
      let setting = setting_name param in
      let (world', end) =
        server.query_scalar (codes "SELECT current_setting('" ++ (setting ++ codes "')")) world in
      let others = validate_settings provider_name rest world' in
      elim end [
        | Answer.failed err ↦ (world', validation_err provider_name setting err)
        | Answer.answered actual ↦
            ite (Bytes-discrete actual expected) others
              (world', mismatch provider_name setting expected actual)
      ]

  unfoldable pub validate_startup :
      Bytes → Option PostgresSessionConfig → W → W × KnowledgeResult (Unit {0})
  unfolding validation_err validate_settings
  validate_startup provider_name session world =
      let (world', end) = server.execute (codes "SELECT 1") world in
      elim end [
        | Answer.failed err ↦ (world', validation_err provider_name (codes "connection") err)
        | Answer.answered u ↦ elim session [
          | none ↦ (world', KnowledgeResult.ok tt)
          | some config ↦ validate_settings provider_name config.expectations world'
        ]
      ]

  unfoldable pub connect : Bytes → Option PostgresSessionConfig → W → W × KnowledgeResult (Unit {0})
  unfolding after_connect statements_of validate_startup pool_err
  connect provider_name session world =
      let (world', end) = server.connect_pool (after_connect (statements_of session)) world in
      elim end [
        | Answer.failed err ↦ (world', pool_err err)
        | Answer.answered u ↦ validate_startup provider_name session world'
      ]
