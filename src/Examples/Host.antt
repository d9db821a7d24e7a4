-- ===== src/Examples/Host.antt =====
-- The theorems on `src/facade.rs` and `src/fun.rs` at concrete inputs.
use wp_knowledge.Base.{
  ℕ, ◌+◌, ◌≡◌, refl, true, false, List, [], ◌∷◌, Option, ltb, none, some, arith, ℕ_discrete, find,
  insert, ◌*◌, ◌<◌, Bytes, RowData,
}
use wp_knowledge.Base.Model.{ℤ, Value, Bytes-discrete, ℤ-discrete}
use wp_knowledge.Base.Text.{codes}
use wp_knowledge.Lru.Bounded.{bounded}
use wp_knowledge.Runtime.Types.{ProviderKind, KnowledgeResult}
use wp_knowledge.Runtime.State.{u64_size, new, install_provider}
use wp_knowledge.Runtime.Execute.{record_result_cache_miss, fetch_result_cache_by_key, answered}
use wp_knowledge.Runtime.Ask.{answer_row}
use wp_knowledge.Runtime.Redis.{redis_cache_get}
use wp_knowledge.Cache.Fields.{with_capacity, fetch_scoped}
use wp_knowledge.Cache.Scope.{LocalCacheKey-discrete}
use wp_knowledge.Fun.{FunMap, FunCall, CachedFunSpec, RedisServer, Call, resolve, external_exists}
use wp_knowledge.Facade.CacheQuery.{
  RowLru, LocalCache, generation_now, cache_query_fields_with_scope,
}
use wp_knowledge.Facade.Fresh.{IsFresh, row_or_empty, cache_query_fields-install_provider}
use wp_knowledge.Facade.Kept.{cache_query_fields_with_scope-IsFresh}
use wp_knowledge.Facade.Install.{new-IsFresh, install_provider_named-IsFresh}
use wp_knowledge.Facade.Redis.{redis_bf_exists, redis_bf_add, facade_external_exists}
use wp_knowledge.Facade.Stale.{
  IsCaching, redis_bf_exists-redis_bf_add, facade_external_exists_shared,
}
use wp_knowledge.Examples.World.{results, redis, finish, provider, State, fresh, build, one}

unfoldable rows : RowLru
unfolding bounded
rows = bounded LocalCacheKey-discrete

abbrev new_cache : LocalCache rows
new_cache = with_capacity rows 10

abbrev params : List Value
params = Value.int (ℤ.pos 4) ∷ []

fresh-IsFresh : IsFresh results rows fresh new_cache
fresh-IsFresh = new-IsFresh results redis rows 4 10

one-IsFresh : IsFresh results rows one new_cache
unfolding new install_provider
one-IsFresh =
    install_provider_named-IsFresh results rows (codes "default") ProviderKind.postgres (codes "pg")
      (build (codes "a")) true fresh new_cache (omega arith) fresh-IsFresh

-- A query of the first provider, which is in both caches then.
abbrev asked : State × LocalCache rows × RowData
asked =
    cache_query_fields_with_scope finish results rows 10 11 5 (codes "select 1") 77 params [] one
      new_cache

cache_query_fields_with_scope-IsFresh_example : IsFresh results rows asked.0 asked.1
cache_query_fields_with_scope-IsFresh_example =
    cache_query_fields_with_scope-IsFresh results rows finish 10 11 5 (codes "select 1") 77 params
      [] one new_cache one-IsFresh

asked-IsFresh : IsFresh results rows asked.0 asked.1
asked-IsFresh =
    cache_query_fields_with_scope-IsFresh results rows finish 10 11 5 (codes "select 1") 77 params
      [] one new_cache one-IsFresh

asked_hit :
    fetch_scoped rows asked.1 77 params
    ≡ some (record { name = codes "a"; value = Value.int (ℤ.pos 5) } ∷ [])
unfolding cache_query_fields_with_scope rows new install_provider with_capacity fetch_scoped bounded
    find fetch_result_cache_by_key answered insert ℤ-discrete ℕ_discrete LocalCacheKey-discrete
asked_hit = refl

asked_small : asked.0.next_generation + 1 < u64_size
unfolding cache_query_fields_with_scope rows new install_provider with_capacity fetch_scoped bounded
    find fetch_result_cache_by_key answered insert ℤ-discrete ℕ_discrete LocalCacheKey-discrete
    record_result_cache_miss
asked_small = omega arith

cache_query_fields-install_provider_example :
    (cache_query_fields_with_scope finish results rows 20 21 6
      (codes "select 1")
      77
      params
      []
      (install_provider ProviderKind.postgres (codes "pg") (build (codes "b")) asked.0).0
      asked.1).2
    ≡ row_or_empty (
        answer_row
          (record {
            executor = provider (codes "b");
            datasource_id = codes "pg";
            generation = asked.0.next_generation + 1;
            kind = ProviderKind.postgres;
          })
          6
          (codes "select 1")
          [])
cache_query_fields-install_provider_example =
    cache_query_fields-install_provider results rows finish 20 21 6 (codes "select 1") 77 params []
      ProviderKind.postgres (codes "pg") (build (codes "b")) (provider (codes "b")) asked.0 asked.1
      asked-IsFresh asked_small refl

-- A server whose world is how many items its one filter holds; its set has every member.
abbrev server : RedisServer ℕ
server = record {
  bf_exists = λ w key item. KnowledgeResult.ok (ltb 0 w);
  set_exists = λ w key item. KnowledgeResult.ok true;
  hget = λ w key field. KnowledgeResult.ok none;
  get = λ w key. KnowledgeResult.ok none;
  bf_madd = λ w key items. (w + 1, KnowledgeResult.ok (true ∷ []));
}

abbrev hash : List Bytes → ℕ
hash [] = 1
hash ([] ∷ ss) = 7 + 31 * hash ss
hash ((b ∷ s) ∷ ss) = b + 31 * hash ss

one-IsCaching : IsCaching redis 1 one
unfolding new install_provider generation_now
one-IsCaching = record { redis_on = refl; results_on = refl; announced = refl }

redis_bf_exists-redis_bf_add_example :
    let read = redis_bf_exists hash redis server 10 11 0 (codes "k") (codes "x") one in
    let added = redis_bf_add hash redis server 0 (codes "k") (codes "x" ∷ []) read.0 in
    (redis_bf_exists hash redis server 20 21 added.1 (codes "k") (codes "x") added.0).1
    ≡ Call.returns (KnowledgeResult.ok false)
unfolding redis_cache_get install_provider new bounded
redis_bf_exists-redis_bf_add_example =
    redis_bf_exists-redis_bf_add hash redis server 1 10 11 20 21 0 0 (codes "k") (codes "x")
      (codes "x" ∷ []) false one one-IsCaching refl refl

-- One function asks a filter, the other a set, for the same key.
abbrev filter_spec : CachedFunSpec
filter_spec = record {
  call = FunCall.bf_exists;
  key = some (codes "k");
  cache = true;
  ttl_ms = none;
}

abbrev set_spec : CachedFunSpec
set_spec = record { call = FunCall.sismember; key = some (codes "k"); cache = true; ttl_ms = none }

abbrev funs : Option FunMap
funs = some ((codes "f", filter_spec) ∷ (codes "s", set_spec) ∷ [])

facade_external_exists_shared_example :
    (facade_external_exists hash redis server 20 21 0 funs
      (codes "s")
      (codes "x")
      (facade_external_exists hash redis server 10 11 0 funs (codes "f") (codes "x") one).0).1
    ≡ Call.returns (KnowledgeResult.ok false)
unfolding resolve find Bytes-discrete ℕ_discrete redis_cache_get install_provider new bounded
    external_exists
facade_external_exists_shared_example =
    facade_external_exists_shared hash redis server 1 10 11 20 21 0 0 funs (codes "f") (codes "s")
      (codes "x") filter_spec set_spec false one one-IsCaching refl refl refl refl refl refl refl
      refl

-- Asked for itself, the set has the member.
set_alone :
    external_exists server 0 funs (codes "s") (codes "x") ≡ Call.returns (KnowledgeResult.ok true)
unfolding external_exists find Bytes-discrete ℕ_discrete
set_alone = refl
