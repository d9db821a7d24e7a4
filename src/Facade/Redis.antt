-- ===== src/Facade/Redis.antt =====
-- `src/facade.rs`: the commands of Redis and the named functions, through the cache of Redis results.
use wp_knowledge.Base.{
  ℕ, Bool, true, false, List, [], ◌∷◌, Option, none, some, if◌then◌else◌, Bytes,
}
use wp_knowledge.Lru.{Lru}
use wp_knowledge.Runtime.Types.{KnowledgeResult, RedisCmdTag, RedisCacheKey, CachedRedisValue}
use wp_knowledge.Runtime.State.{KnowledgeRuntime, RedisLru}
use wp_knowledge.Runtime.Redis.{redis_cache_get, redis_cache_put, redis_cache_put_with_ttl}
use wp_knowledge.Facade.CacheQuery.{generation_now}
use wp_knowledge.Fun.{
  FunMap, CachedFunSpec, RedisServer, Call, unwrap_or, resolve, external_exists, external_value,
}

-- `hash` is the hasher of the standard library, fed with the strings in order.
unfoldable pub redis_cache_key :
    (List Bytes → ℕ) → RedisCmdTag → ℕ → Bytes → List Bytes → RedisCacheKey
redis_cache_key hash cmd generation key args = record {
  generation = generation;
  cmd_tag = cmd;
  key_hash = hash (key ∷ []);
  args_hash = hash args;
}

-- What the handlers do with a value of one kind.
pub record Codec (A : Type 0) : Type 0 where
  pub wrap : A → CachedRedisValue
  pub unwrap : CachedRedisValue → Option A

unfoldable pub as_bool : Codec Bool
as_bool = record {
  wrap = CachedRedisValue.bool;
  unwrap = λ v. elim v [ CachedRedisValue.bool b ↦ some b | CachedRedisValue.opt_string s ↦ none ];
}

unfoldable pub as_string : Codec (Option Bytes)
as_string = record {
  wrap = CachedRedisValue.opt_string;
  unwrap = λ v. elim v [ CachedRedisValue.bool b ↦ none | CachedRedisValue.opt_string s ↦ some s ];
}

-- The pattern `if let Some(CachedRedisValue::…(v))`.
unfoldable pub matched : {A : Type 0} → Codec A → Option CachedRedisValue → Option A
matched codec none = none
matched codec (some v) = codec.unwrap v

abbrev pub RedisOver : Type 0 → Type 0 → RedisLru → Type 0
RedisOver W C S = KnowledgeRuntime W C (Lru.Cache S)

module _ {W C : Type 0} (S : RedisLru) where
  unfoldable pub put_answer :
      ℕ → Option ℕ → RedisCacheKey → CachedRedisValue → RedisOver W C S → RedisOver W C S
  unfolding redis_cache_put redis_cache_put_with_ttl
  put_answer done none ck value rt = redis_cache_put S done ck value rt
  put_answer done (some ttl) ck value rt = redis_cache_put_with_ttl S done ck value ttl rt

  -- The server has answered: an error is returned, a value stored.
  unfoldable pub store_answer :
      {A : Type 0}
      → Codec A
      → ℕ
      → Option ℕ
      → RedisCacheKey
      → Call A
      → RedisOver W C S
      → RedisOver W C S × Call A
  unfolding put_answer
  store_answer codec done ttl ck Call.unreachable rt = (rt, Call.unreachable)
  store_answer codec done ttl ck (Call.returns (KnowledgeResult.err e)) rt =
      (rt, Call.returns (KnowledgeResult.err e))
  store_answer codec done ttl ck (Call.returns (KnowledgeResult.ok a)) rt =
      (put_answer done ttl ck (codec.wrap a) rt, Call.returns (KnowledgeResult.ok a))

  -- A value of the right kind is returned, otherwise the server is asked.
  unfoldable pub after_get :
      {A : Type 0}
      → Codec A
      → ℕ
      → Option ℕ
      → RedisCacheKey
      → Call A
      → RedisOver W C S × Option CachedRedisValue
      → RedisOver W C S × Call A
  unfolding store_answer matched
  after_get codec done ttl ck result (rt, found) = elim (matched codec found) [
    | some v ↦ (rt, Call.returns (KnowledgeResult.ok v))
    | none ↦ store_answer codec done ttl ck result rt
  ]

  -- What the handlers have in common: without a default provider there is no caching. `now` is the
  -- clock at the call, `done` when the server has answered.
  unfoldable pub through_redis :
      {A : Type 0}
      → Codec A
      → ℕ
      → ℕ
      → Option ℕ
      → (ℕ → RedisCacheKey)
      → Call A
      → RedisOver W C S
      → RedisOver W C S × Call A
  unfolding generation_now redis_cache_get after_get
  through_redis codec now done ttl key result rt = elim (generation_now rt) [
    | none ↦ (rt, result)
    | some generation ↦
        after_get codec done ttl (key generation) result (redis_cache_get S now (key generation) rt)
  ]

module _ {W C : Type 0} (hash : List Bytes → ℕ) (S : RedisLru) (redis : RedisServer W) where
  -- `world` is the server's state when it is asked.
  module _ (now done : ℕ) (world : W) where
    unfoldable pub redis_bf_exists : Bytes → Bytes → RedisOver W C S → RedisOver W C S × Call Bool
    unfolding through_redis redis_cache_key as_bool
    redis_bf_exists key item =
        through_redis S as_bool now done none
          (λ g. redis_cache_key hash RedisCmdTag.bf_exists g key (item ∷ []))
          (Call.returns (redis.bf_exists world key item))

    unfoldable pub redis_hget :
        Bytes → Bytes → RedisOver W C S → RedisOver W C S × Call (Option Bytes)
    unfolding through_redis redis_cache_key as_string
    redis_hget key field =
        through_redis S as_string now done none
          (λ g. redis_cache_key hash RedisCmdTag.h_get g key (field ∷ []))
          (Call.returns (redis.hget world key field))

    unfoldable pub redis_get : Bytes → RedisOver W C S → RedisOver W C S × Call (Option Bytes)
    unfolding through_redis redis_cache_key as_string
    redis_get key =
        through_redis S as_string now done none (λ g. redis_cache_key hash RedisCmdTag.get g key [])
          (Call.returns (redis.get world key))

    unfoldable pub redis_set_exists : Bytes → Bytes → RedisOver W C S → RedisOver W C S × Call Bool
    unfolding through_redis redis_cache_key as_bool
    redis_set_exists key member =
        through_redis S as_bool now done none
          (λ g. redis_cache_key hash RedisCmdTag.set_exists g key (member ∷ []))
          (Call.returns (redis.set_exists world key member))

    -- A named function is cached if its definition says so.
    unfoldable pub exists_of :
        Option FunMap
        → Bytes
        → Bytes
        → CachedFunSpec
        → RedisOver W C S
        → RedisOver W C S × Call Bool
    unfolding through_redis redis_cache_key as_bool external_exists
    exists_of funs service arg spec rt =
        let result = external_exists redis world funs service arg in
        if spec.cache
        then through_redis S as_bool now done spec.ttl_ms
            (λ g. redis_cache_key hash RedisCmdTag.bf_exists g (unwrap_or spec.key arg) (arg ∷ []))
            result rt
        else (rt, result)

    unfoldable pub facade_external_exists :
        Option FunMap → Bytes → Bytes → RedisOver W C S → RedisOver W C S × Call Bool
    unfolding resolve exists_of
    facade_external_exists funs service arg rt = elim (resolve funs service true) [
      | KnowledgeResult.err e ↦ (rt, Call.returns (KnowledgeResult.err e))
      | KnowledgeResult.ok spec ↦ exists_of funs service arg spec rt
    ]

    unfoldable pub value_of :
        Option FunMap
        → Bytes
        → Bytes
        → CachedFunSpec
        → RedisOver W C S
        → RedisOver W C S × Call (Option Bytes)
    unfolding through_redis redis_cache_key as_string external_value
    value_of funs service arg spec rt =
        let result = external_value redis world funs service arg in
        if spec.cache
        then through_redis S as_string now done spec.ttl_ms
            (λ g. redis_cache_key hash RedisCmdTag.get g (unwrap_or spec.key arg) (arg ∷ [])) result
            rt
        else (rt, result)

    unfoldable pub facade_external_value :
        Option FunMap → Bytes → Bytes → RedisOver W C S → RedisOver W C S × Call (Option Bytes)
    unfolding resolve value_of
    facade_external_value funs service arg rt = elim (resolve funs service false) [
      | KnowledgeResult.err e ↦ (rt, Call.returns (KnowledgeResult.err e))
      | KnowledgeResult.ok spec ↦ value_of funs service arg spec rt
    ]

  -- The cache is not told.
  unfoldable pub redis_bf_add :
      W → Bytes → List Bytes → RedisOver W C S → RedisOver W C S × W × KnowledgeResult (List Bool)
  redis_bf_add world key items rt =
      let (world', added) = redis.bf_madd world key items in (rt, world', added)
