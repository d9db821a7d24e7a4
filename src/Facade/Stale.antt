-- ===== src/Facade/Stale.antt =====
-- `src/facade.rs`: what the cache of Redis results keeps.
use wp_knowledge.Base.{
  ℕ, ◌≡◌, refl, sym, ap, ◌∙◌, Bool, true, List, [], ◌∷◌, Option, none, some, arith, Bytes,
}
use wp_knowledge.Runtime.Types.{KnowledgeResult, RedisCmdTag, RedisCacheKey, CachedRedisValue}
use wp_knowledge.Runtime.State.{RedisLru, current_generation}
use wp_knowledge.Runtime.Redis.{
  redis_cache_get, redis_cache_put, redis_cache_put_with_ttl, redis_cache_get-put,
  fetch_redis_cache, save_redis_cache,
}
use wp_knowledge.Facade.CacheQuery.{generation_now}
use wp_knowledge.Fun.{FunMap, CachedFunSpec, RedisServer, Call, unwrap_or, resolve, external_exists}
use wp_knowledge.Facade.Redis.{
  Codec, as_bool, matched, RedisOver, put_answer, store_answer, after_get, through_redis,
  redis_cache_key, redis_bf_exists, redis_bf_add, facade_external_exists, exists_of,
}

module _ {W C : Type 0} (S : RedisLru) where
  -- Both switches are on, and the default provider has this generation.
  pub record IsCaching (g : ℕ) (rt : RedisOver W C S) : Type 0 where
    pub redis_on : rt.redis_global_enabled ≡ true
    pub results_on : rt.result_cache_enabled ≡ true
    pub announced : generation_now rt ≡ some g

  get-IsCaching :
      (g now : ℕ) (ck : RedisCacheKey) (rt : RedisOver W C S)
      → IsCaching g rt
      → IsCaching g (redis_cache_get S now ck rt).0
  unfolding redis_cache_get fetch_redis_cache generation_now current_generation
  get-IsCaching g now ck rt c =
      let a = c.redis_on in
      let b = c.results_on in
      let d = c.announced in
      record { redis_on = ground arith; results_on = ground arith; announced = ground arith }

  put-IsCaching :
      (g done ttl : ℕ) (ck : RedisCacheKey) (v : CachedRedisValue) (rt : RedisOver W C S)
      → IsCaching g rt
      → IsCaching g (redis_cache_put_with_ttl S done ck v ttl rt)
  unfolding redis_cache_put_with_ttl save_redis_cache generation_now current_generation
  put-IsCaching g done ttl ck v rt c =
      let a = c.redis_on in
      let b = c.results_on in
      let d = c.announced in
      record { redis_on = ground arith; results_on = ground arith; announced = ground arith }

  module _ {A : Type 0} (codec : Codec A) (key : ℕ → RedisCacheKey) (g : ℕ) where
    through_redis_caching :
        (now done : ℕ) (ttl : Option ℕ) (result : Call A) (rt : RedisOver W C S)
        → IsCaching g rt
        → through_redis S codec now done ttl key result rt
          ≡ after_get S codec done ttl (key g) result (redis_cache_get S now (key g) rt)
    unfolding through_redis
    through_redis_caching now done ttl result rt c =
        let e = c.announced in simp (e, through_redis) refl

    after_get_miss :
        (done : ℕ) (v : A) (rt : RedisOver W C S)
        (found : RedisOver W C S × Option CachedRedisValue)
        → found.1 ≡ none
        → after_get S codec done none (key g) (Call.returns (KnowledgeResult.ok v)) found ≡ (
          redis_cache_put_with_ttl S done (key g) (codec.wrap v) 0 found.0,
          Call.returns (KnowledgeResult.ok v),
        )
    unfolding after_get matched store_answer put_answer redis_cache_put
    after_get_miss done v rt (seen, none) e = refl
    after_get_miss done v rt (seen, some w) e = absurd (ground arith)

    after_get_hit :
        (done : ℕ) (ttl : Option ℕ) (v : A) (result : Call A)
        (found : RedisOver W C S × Option CachedRedisValue)
        → codec.unwrap (codec.wrap v) ≡ some v
        → found.1 ≡ some (codec.wrap v)
        → (after_get S codec done ttl (key g) result found).1 ≡ Call.returns (KnowledgeResult.ok v)
    unfolding after_get matched
    after_get_hit done ttl v result (seen, none) h e = absurd (ground arith)
    after_get_hit done ttl v result (seen, some w) h e =
        let same : codec.unwrap w ≡ some v = ap codec.unwrap (ground arith) ∙ h in ground arith

    -- An answer that is stored with no time to live is the answer of every later call for its key,
    -- whatever the server then says.
    pub through_redis_again :
        (now done later after : ℕ) (ttl : Option ℕ) (v : A) (result : Call A) (rt : RedisOver W C S)
        → IsCaching g rt
        → codec.unwrap (codec.wrap v) ≡ some v
        → (redis_cache_get S now (key g) rt).1 ≡ none
        → (through_redis S codec later after ttl key result
            (through_redis S codec now done none key (Call.returns (KnowledgeResult.ok v)) rt).0).1
          ≡ Call.returns (KnowledgeResult.ok v)
    through_redis_again now done later after ttl v result rt c h miss =
        let seen = (redis_cache_get S now (key g) rt).0 in
        let c' = get-IsCaching g now (key g) rt c in
        let stored = redis_cache_put_with_ttl S done (key g) (codec.wrap v) 0 seen in
        let e : (through_redis S codec now done none key (Call.returns (KnowledgeResult.ok v)) rt).0
            ≡ stored =
          ap (λ x. x.0)
            (through_redis_caching now done none (Call.returns (KnowledgeResult.ok v)) rt c
              ∙ after_get_miss done v rt (redis_cache_get S now (key g) rt) miss) in
        let read : (redis_cache_get S later (key g) stored).1 ≡ some (codec.wrap v) =
          redis_cache_get-put S done later 0 (key g) (codec.wrap v) seen c'.redis_on
            c'.results_on in
        ap (λ x. (through_redis S codec later after ttl key result x).1) e
        ∙ ap (λ x. x.1)
            (through_redis_caching later after ttl result stored
              (put-IsCaching g done 0 (key g) (codec.wrap v) seen c'))
        ∙ after_get_hit after ttl v result (redis_cache_get S later (key g) stored) h read

abbrev function_key : (List Bytes → ℕ) → CachedFunSpec → Bytes → ℕ → RedisCacheKey
function_key hash spec arg g =
    redis_cache_key hash RedisCmdTag.bf_exists g (unwrap_or spec.key arg) (arg ∷ [])

module _ {W C : Type 0} (hash : List Bytes → ℕ) (S : RedisLru) (redis : RedisServer W) where
  -- What redis_bf_exists has read for an item and stored, it goes on to return after redis_bf_add has
  -- added that item, or any others, at any later time and whatever the filter then holds: an addition
  -- does not touch the cache, and the answer has no time to live. The caches are on, there is a default
  -- provider, and the first call finds nothing in the cache.
  pub redis_bf_exists-redis_bf_add :
      (g now done later after : ℕ) (world world' : W) (key item : Bytes) (items : List Bytes)
      (v : Bool) (rt : RedisOver W C S)
      → IsCaching S g rt
      → (redis_cache_get S now (redis_cache_key hash RedisCmdTag.bf_exists g key (item ∷ [])) rt).1
        ≡ none
      → redis.bf_exists world key item ≡ KnowledgeResult.ok v
      → let read = redis_bf_exists hash S redis now done world key item rt in
        let added = redis_bf_add hash S redis world' key items read.0 in
        (redis_bf_exists hash S redis later after added.1 key item added.0).1
        ≡ Call.returns (KnowledgeResult.ok v)
  unfolding redis_bf_exists redis_bf_add as_bool
  redis_bf_exists-redis_bf_add g now done later after world world' key item items v rt c miss e =
      let ck : ℕ → RedisCacheKey =
        λ g. redis_cache_key hash RedisCmdTag.bf_exists g key (item ∷ []) in
      let again = Call.returns (redis.bf_exists (redis.bf_madd world' key items).0 key item) in
      ap
        (λ r.
          (through_redis S as_bool later after none ck again
            (through_redis S as_bool now done none ck (Call.returns r) rt).0).1)
        e
      ∙ through_redis_again S as_bool ck g now done later after none v again rt c refl miss

  facade_external_exists_cached :
      (now done : ℕ) (world : W) (funs : Option FunMap) (service arg : Bytes) (spec : CachedFunSpec)
      (rt : RedisOver W C S)
      → resolve funs service true ≡ KnowledgeResult.ok spec
      → spec.cache ≡ true
      → facade_external_exists hash S redis now done world funs service arg rt
        ≡ through_redis S as_bool now done spec.ttl_ms
            (function_key hash spec arg)
            (external_exists redis world funs service arg)
            rt
  unfolding facade_external_exists exists_of
  facade_external_exists_cached now done world funs service arg spec rt e f =
      simp (e, f, facade_external_exists, exists_of) refl

  -- Two named functions that ask with one key share their answers: after the first has asked the
  -- server, with no time to live, the second returns that answer for the argument, also where the one
  -- asks a Bloom filter and the other a set. Both are cached, the caches are on, there is a default
  -- provider, and the first call finds nothing in the cache.
  pub facade_external_exists_shared :
      (g now done later after : ℕ) (world world' : W) (funs : Option FunMap) (one other arg : Bytes)
      (s t : CachedFunSpec) (v : Bool) (rt : RedisOver W C S)
      → IsCaching S g rt
      → resolve funs one true ≡ KnowledgeResult.ok s
      → resolve funs other true ≡ KnowledgeResult.ok t
      → s.cache ≡ true
      → t.cache ≡ true
      → s.ttl_ms ≡ none
      → unwrap_or s.key arg ≡ unwrap_or t.key arg
      → (redis_cache_get S now
          (redis_cache_key hash RedisCmdTag.bf_exists g (unwrap_or s.key arg) (arg ∷ []))
          rt).1
        ≡ none
      → external_exists redis world funs one arg ≡ Call.returns (KnowledgeResult.ok v)
      → (facade_external_exists hash S redis later after world' funs other arg
          (facade_external_exists hash S redis now done world funs one arg rt).0).1
        ≡ Call.returns (KnowledgeResult.ok v)
  unfolding as_bool
  facade_external_exists_shared g now done later after world world' funs one other arg s t v rt c e
        f on on' ttl same miss answer =
      let result = external_exists redis world' funs other arg in
      let first : facade_external_exists hash S redis now done world funs one arg rt
          ≡ through_redis S as_bool now done none (function_key hash s arg)
              (Call.returns (KnowledgeResult.ok v)) rt =
        facade_external_exists_cached now done world funs one arg s rt e on
        ∙ ap
            (λ x.
              through_redis S as_bool now done x (function_key hash s arg)
                (external_exists redis world funs one arg) rt)
            ttl
        ∙ ap (λ x. through_redis S as_bool now done none (function_key hash s arg) x rt) answer in
      let keys : function_key hash t arg ≡ function_key hash s arg =
        ap (λ k. λ g. redis_cache_key hash RedisCmdTag.bf_exists g k (arg ∷ [])) (sym same) in
      ap (λ x. (facade_external_exists hash S redis later after world' funs other arg x.0).1) first
      ∙ ap (λ x. x.1) (facade_external_exists_cached later after world' funs other arg t _ f on')
      ∙ ap
          (λ k.
            (through_redis S as_bool later after t.ttl_ms k result
              (through_redis S as_bool now done none (function_key hash s arg)
                (Call.returns (KnowledgeResult.ok v)) rt).0).1)
          keys
      ∙ through_redis_again S as_bool (function_key hash s arg) g now done later after t.ttl_ms v
          result rt c refl miss
