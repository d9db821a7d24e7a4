-- ===== src/Facade/Specs.antt =====
-- `src/loader.rs`: the specifications of the SQL providers, and their validation.
use wp_knowledge.Base.{
  ℕ, Bool, true, false, not, ◌&&◌, ◌||◌, List, [], ◌∷◌, ◌++◌, Option, none, some, ltb, leb, ◌==◌,
  if◌then◌else◌, ite, Bytes, length,
}
use wp_knowledge.Base.Model.{Bytes-discrete}
use wp_knowledge.Base.Text.{codes, is_ascii_alphanumeric}
use wp_knowledge.Runtime.Types.{KnowledgeError, KnowledgeResult}
use wp_knowledge.PoolConfig.{
  CommonPoolConfig, default_pool, with_pool_size, with_min_connections, with_acquire_timeout_ms,
  with_idle_timeout_ms, with_max_lifetime_ms,
}
use wp_knowledge.Fun.{FunMap, unwrap_or}

pub data PlanCacheMode : Type 0 where
  auto force_generic_plan force_custom_plan : PlanCacheMode

pub record PostgresSessionSpec : Type 0 where
  pub plan_cache_mode : Option PlanCacheMode
  pub jit : Option Bool
  pub application_name : Option Bytes

pub data SqlProviderKind : Type 0 where
  postgres mysql : SqlProviderKind

pub record SqlProviderSpec : Type 0 where
  pub name : Option Bytes
  pub kind : SqlProviderKind
  pub connection_uri : Bytes
  pub pool_size : Option ℕ
  pub min_connections : Option ℕ
  pub acquire_timeout_ms : Option ℕ
  pub idle_timeout_ms : Option ℕ
  pub max_lifetime_ms : Option ℕ
  pub postgres_session : Option PostgresSessionSpec

abbrev pub default_sqldb_name : Bytes
default_sqldb_name = codes "default"

unfoldable pub effective_name : SqlProviderSpec → Bytes
effective_name spec = unwrap_or spec.name default_sqldb_name

unfoldable pub is_provider_name : Bytes → Bool
unfolding is_ascii_alphanumeric
is_provider_name [] = true
is_provider_name (c ∷ name) = (is_ascii_alphanumeric c || c == b'_') && is_provider_name name

-- Whether a character of the text, in UTF-8, is of the class of control characters.
unfoldable pub has_control : Bytes → Bool
has_control [] = false
has_control (b ∷ []) = ltb b 32 || b == 127
has_control (b ∷ c ∷ s) =
    (ltb b 32 || b == 127 || (b == 0xC2 && leb 0x80 c && leb c 0x9F)) || has_control (c ∷ s)

unfoldable pub is_postgres : SqlProviderKind → Bool
is_postgres SqlProviderKind.postgres = true
is_postgres SqlProviderKind.mysql = false

unfoldable pub is_valid_session : PostgresSessionSpec → Bool
unfolding has_control
is_valid_session session = elim session.application_name [
  | none ↦ true
  | some app ↦ leb (length app) 63 && not (has_control app)
]

unfoldable pub contains : Bytes → List Bytes → Bool
contains name [] = false
contains name (x ∷ names) = ite (Bytes-discrete name x) true (contains name names)

abbrev refused : Bytes → Bytes → Bytes → KnowledgeResult (List Bytes)
refused before name after = KnowledgeResult.err (KnowledgeError.config (before ++ name ++ after))

-- The set of the names, the last first. The reason in parentheses is left out of the last error.
unfoldable pub validate_from : List Bytes → List SqlProviderSpec → KnowledgeResult (List Bytes)
unfolding effective_name is_provider_name is_postgres is_valid_session contains
validate_from seen [] = KnowledgeResult.ok seen
validate_from seen (spec ∷ specs) =
    let name = effective_name spec in
    let rest = validate_from (effective_name spec ∷ seen) specs in
    if not (is_provider_name name)
    then refused (codes "invalid sqldb provider name '") name (codes "' (allowed [A-Za-z0-9_])")
    else if contains name seen
    then refused (codes "duplicate sqldb provider name '") name (codes "'")
    else elim spec.postgres_session [
      | none ↦ rest
      | some session ↦
          if not (is_postgres spec.kind)
          then refused (codes "provider '") name
              (codes "': postgres_session is only valid for kind = \"postgres\"")
          else if is_valid_session session
          then rest
          else refused (codes "provider '") name
              (codes "': postgres_session.application_name invalid")
    ]

unfoldable pub validate_specs : List SqlProviderSpec → KnowledgeResult (List Bytes)
unfolding validate_from
validate_specs specs = validate_from [] specs

-- The configurations of the two drivers have the same fields, but for the session.
pub record SqlProviderConfig : Type 0 where
  pub connection_uri : Bytes
  pub pool : CommonPoolConfig
  pub session : Option PostgresSessionSpec

unfoldable pub build_pool : SqlProviderSpec → CommonPoolConfig
unfolding with_pool_size with_min_connections with_acquire_timeout_ms with_idle_timeout_ms
    with_max_lifetime_ms
build_pool spec = with_max_lifetime_ms spec.max_lifetime_ms (
    with_idle_timeout_ms spec.idle_timeout_ms (
      with_acquire_timeout_ms spec.acquire_timeout_ms
        (with_min_connections spec.min_connections (with_pool_size spec.pool_size default_pool))))

unfoldable pub build_postgres_config : SqlProviderSpec → SqlProviderConfig
unfolding build_pool
build_postgres_config spec = record {
  connection_uri = spec.connection_uri;
  pool = build_pool spec;
  session = spec.postgres_session;
}

unfoldable pub build_mysql_config : SqlProviderSpec → SqlProviderConfig
unfolding build_pool
build_mysql_config spec = record {
  connection_uri = spec.connection_uri;
  pool = build_pool spec;
  session = none;
}

pub record CacheSpec : Type 0 where
  pub enabled : Bool
  pub capacity : ℕ
  pub ttl_ms : ℕ

-- What is read of the specification of Redis is passed on to its driver.
pub record ProviderConfig (P : Type 0) : Type 0 where
  pub sqldb : Option (List SqlProviderSpec)
  pub redis : Option P

pub record KnowDbConf (P : Type 0) : Type 0 where
  pub cache : CacheSpec
  pub fun : FunMap
  pub provider : Option (ProviderConfig P)
