-- ===== src/Examples/World.antt =====
-- Providers, and states of the runtime, for the concrete inputs.
use wp_knowledge.Base.{ℕ, ◌+◌, ◌*◌, refl, List, [], ◌∷◌, ℕ_discrete, find, Bytes, RowData}
use wp_knowledge.Base.Model.{ℤ, Value}
use wp_knowledge.Base.Text.{codes}
use wp_knowledge.Lru.{Lru}
use wp_knowledge.Lru.Bounded.{bounded}
use wp_knowledge.Runtime.Types.{
  ProviderKind, KnowledgeResult, QueryMode, CachePolicy, QueryRequest, ProviderExecutor,
  ProviderHandle, RedisCacheKey,
}
use wp_knowledge.Runtime.Params.{HashWrite}
use wp_knowledge.Runtime.State.{KnowledgeRuntime, ResultLru, RedisLru, new, install_provider}
use wp_knowledge.Runtime.Execute.{execute_with_handle}
use wp_knowledge.Runtime.Registry.{IsConsistent}
use wp_knowledge.Runtime.Answers.{ResultCacheKey-discrete, IsLogged}
use wp_knowledge.Runtime.Reload.{IsPast}

unfoldable pub RedisCacheKey-discrete : Discrete RedisCacheKey
RedisCacheKey-discrete = hlevel ℕ_discrete

abbrev pub results : ResultLru
results = bounded ResultCacheKey-discrete

abbrev pub redis : RedisLru
redis = bounded RedisCacheKey-discrete

-- A hash, and a provider that answers with its name and the state of the world.
abbrev pub finish : List HashWrite → ℕ
finish [] = 0
finish (HashWrite.str [] ∷ ws) = 7 + 31 * finish ws
finish (HashWrite.str (b ∷ s) ∷ ws) = b + 31 * finish ws
finish (_ ∷ ws) = 3 + 31 * finish ws

abbrev pub named_row : Bytes → ℕ → RowData
named_row name world = record { name = name; value = Value.int (ℤ.pos world) } ∷ []

abbrev pub provider : Bytes → ProviderExecutor ℕ
provider name = record {
  query = λ w sql. KnowledgeResult.ok (named_row name w ∷ []);
  query_fields = λ w sql ps. KnowledgeResult.ok (named_row name w ∷ []);
  query_row = λ w sql. KnowledgeResult.ok (named_row name w);
  query_named_fields = λ w sql ps. KnowledgeResult.ok (named_row name w);
  query_async = λ w sql. KnowledgeResult.ok (named_row name w ∷ []);
  query_fields_async = λ w sql ps. KnowledgeResult.ok (named_row name w ∷ []);
  query_row_async = λ w sql. KnowledgeResult.ok (named_row name w);
  query_named_fields_async = λ w sql ps. KnowledgeResult.ok (named_row name w);
}

abbrev pub State : Type 0
State = KnowledgeRuntime ℕ (Lru.Cache results) (Lru.Cache redis)

abbrev pub fresh : State
fresh = new results redis 4

abbrev pub build : Bytes → ℕ → KnowledgeResult (ProviderExecutor ℕ)
build name g = KnowledgeResult.ok (provider name)

abbrev pub one : State
one = (install_provider ProviderKind.postgres (codes "pg") (build (codes "a")) fresh).0

abbrev pub ask_many : QueryRequest
ask_many = record {
  sql = codes "select 1";
  params = [];
  mode = QueryMode.many;
  cache_policy = CachePolicy.use_global;
}

abbrev pub handle : ProviderHandle ℕ
handle = record {
  executor = provider (codes "a");
  datasource_id = codes "pg";
  generation = 1;
  kind = ProviderKind.postgres;
}

-- A query has been answered and stored.
abbrev pub served : State
served = (execute_with_handle finish results 10 11 5 handle ask_many one).0

pub fresh-IsPast : IsPast results fresh
unfolding new bounded find
fresh-IsPast k e p = cc

pub one-IsPast : IsPast results one
unfolding new install_provider bounded find
one-IsPast k e p = cc

pub one-IsLogged : IsLogged results [] one
unfolding new install_provider bounded find
one-IsLogged k e p = cc

pub fresh-IsConsistent : IsConsistent fresh
unfolding new
fresh-IsConsistent = record { announced = refl; quiet = refl; issued = tt }
