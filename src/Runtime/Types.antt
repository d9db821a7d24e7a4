-- ===== src/Runtime/Types.antt =====
-- `src/runtime.rs`: requests, responses, cache keys and provider handles.
use wp_knowledge.Base.{ℕ, Bool, true, List, [], ◌∷◌, Option, Bytes, DataField, RowData}
use wp_knowledge.Base.Model.{ℤ}

pub data ProviderKind : Type 0 where
  sqlite_authority postgres mysql redis : ProviderKind

-- `KnowledgeResult`. An error of the runtime itself is its detail; `provider` stands for the errors
-- that providers return.
pub data KnowledgeError : Type 0 where
  logic : Bytes → KnowledgeError
  provider : ℕ → KnowledgeError
  resource config : Bytes → KnowledgeError

pub data KnowledgeResult (T : Type 0) : Type 0 where
  ok : T → KnowledgeResult T
  err : KnowledgeError → KnowledgeResult T

pub data QueryMode : Type 0 where
  many first_row : QueryMode

pub data CachePolicy : Type 0 where
  bypass use_global use_call_scope : CachePolicy

-- A float is its IEEE-754 bits.
pub data QueryValue : Type 0 where
  null : QueryValue
  bool : Bool → QueryValue
  int : ℤ → QueryValue
  float : ℕ → QueryValue
  text : Bytes → QueryValue

pub record QueryParam : Type 0 where
  pub name : Bytes
  pub value : QueryValue

pub record QueryRequest : Type 0 where
  pub sql : Bytes
  pub params : List QueryParam
  pub mode : QueryMode
  pub cache_policy : CachePolicy

pub data QueryResponse : Type 0 where
  rows : List RowData → QueryResponse
  row : RowData → QueryResponse

unfoldable pub into_rows : QueryResponse → List RowData
into_rows (QueryResponse.rows rs) = rs
into_rows (QueryResponse.row r) = r ∷ []

unfoldable pub into_row : QueryResponse → RowData
into_row (QueryResponse.rows []) = []
into_row (QueryResponse.rows (r ∷ rs)) = r
into_row (QueryResponse.row r) = r

-- What a provider answers depends on the state `W` of the world outside when it is asked.
pub record ProviderExecutor (W : Type 0) : Type 0 where
  pub query : W → Bytes → KnowledgeResult (List RowData)
  pub query_fields : W → Bytes → List DataField → KnowledgeResult (List RowData)
  pub query_row : W → Bytes → KnowledgeResult RowData
  pub query_named_fields : W → Bytes → List DataField → KnowledgeResult RowData
  pub query_async : W → Bytes → KnowledgeResult (List RowData)
  pub query_fields_async : W → Bytes → List DataField → KnowledgeResult (List RowData)
  pub query_row_async : W → Bytes → KnowledgeResult RowData
  pub query_named_fields_async : W → Bytes → List DataField → KnowledgeResult RowData

pub record ProviderHandle (W : Type 0) : Type 0 where
  pub executor : ProviderExecutor W
  pub datasource_id : Bytes
  pub generation : ℕ
  pub kind : ProviderKind

pub data QueryModeTag : Type 0 where
  many first_row : QueryModeTag

unfoldable pub query_mode_tag : QueryMode → QueryModeTag
query_mode_tag QueryMode.many = QueryModeTag.many
query_mode_tag QueryMode.first_row = QueryModeTag.first_row

pub record ResultCacheKey : Type 0 where
  pub datasource_id : Bytes
  pub generation : ℕ
  pub query_hash : ℕ
  pub params_hash : ℕ
  pub mode : QueryModeTag

-- Times are milliseconds.
pub record ResultCacheConfig : Type 0 where
  pub enabled : Bool
  pub capacity : ℕ
  pub ttl : ℕ

abbrev pub default_config : ResultCacheConfig
default_config = record { enabled = true; capacity = 1024; ttl = 30_000 }

pub record CachedQueryResponse : Type 0 where
  pub response : QueryResponse
  pub cached_at : ℕ

pub data RedisCmdTag : Type 0 where
  bf_exists h_get get set_exists : RedisCmdTag

pub record RedisCacheKey : Type 0 where
  pub generation : ℕ
  pub cmd_tag : RedisCmdTag
  pub key_hash : ℕ
  pub args_hash : ℕ

pub data CachedRedisValue : Type 0 where
  bool : Bool → CachedRedisValue
  opt_string : Option Bytes → CachedRedisValue

-- A `ttl_ms` of 0 is none.
pub record CachedRedisEntry : Type 0 where
  pub value : CachedRedisValue
  pub cached_at : ℕ
  pub ttl_ms : ℕ
