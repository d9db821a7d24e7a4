-- ===== src/Runtime/Redis.antt =====
-- `src/runtime.rs`: the cache of Redis results.
use wp_knowledge.Base.{
  ℕ, ◌≡◌, arith, ◌-◌, true, false, ◌&&◌, Option, none, some, ltb, if◌then◌else◌,
}
use wp_knowledge.Lru.{Lru}
use wp_knowledge.Runtime.Types.{RedisCacheKey, CachedRedisValue, CachedRedisEntry}
use wp_knowledge.Runtime.State.{KnowledgeRuntime, RedisLru, fetch_add_1}

module _ {W C : Type 0} (S : RedisLru) where
  unfoldable pub fetch_redis_cache :
      ℕ
      → RedisCacheKey
      → KnowledgeRuntime W C (Lru.Cache S)
      → KnowledgeRuntime W C (Lru.Cache S) × Option CachedRedisEntry
  fetch_redis_cache now key rt =
      if rt.result_cache_enabled
      then elim (Lru.peek S key rt.redis_cache) [
        | none ↦ (rt, none)
        | some entry ↦
            if ltb 0 entry.ttl_ms && ltb entry.ttl_ms (now - entry.cached_at)
            then (record rt { redis_cache = Lru.pop S key rt.redis_cache }, none)
            else (rt, some entry)
      ]
      else (rt, none)

  unfoldable pub save_redis_cache :
      RedisCacheKey
      → CachedRedisEntry
      → KnowledgeRuntime W C (Lru.Cache S)
      → KnowledgeRuntime W C (Lru.Cache S)
  save_redis_cache key entry rt =
      if rt.result_cache_enabled
      then record rt { redis_cache = Lru.put S key entry rt.redis_cache }
      else rt

  unfoldable pub redis_cache_get :
      ℕ
      → RedisCacheKey
      → KnowledgeRuntime W C (Lru.Cache S)
      → KnowledgeRuntime W C (Lru.Cache S) × Option CachedRedisValue
  unfolding fetch_redis_cache fetch_add_1
  redis_cache_get now ck rt =
      if rt.redis_global_enabled
      then (let (seen, found) = fetch_redis_cache now ck rt in
          elim found [
            | none ↦ (seen, none)
            | some entry ↦ (
              record seen { redis_cache_hits = fetch_add_1 seen.redis_cache_hits },
              some entry.value,
            )
          ])
      else (rt, none)

  unfoldable pub redis_cache_put_with_ttl :
      ℕ
      → RedisCacheKey
      → CachedRedisValue
      → ℕ
      → KnowledgeRuntime W C (Lru.Cache S)
      → KnowledgeRuntime W C (Lru.Cache S)
  unfolding save_redis_cache fetch_add_1
  redis_cache_put_with_ttl now ck value ttl_ms rt =
      if rt.redis_global_enabled
      then save_redis_cache ck (record { value = value; cached_at = now; ttl_ms = ttl_ms })
          (record rt { redis_cache_misses = fetch_add_1 rt.redis_cache_misses })
      else rt

  unfoldable pub redis_cache_put :
      ℕ
      → RedisCacheKey
      → CachedRedisValue
      → KnowledgeRuntime W C (Lru.Cache S)
      → KnowledgeRuntime W C (Lru.Cache S)
  unfolding redis_cache_put_with_ttl
  redis_cache_put now ck value = redis_cache_put_with_ttl now ck value 0

  -- What is put is read back up to the end of its time, a `ttl_ms` of 0 being none, by whoever asks
  -- for the key while both caches are on.
  pub redis_cache_get-put :
      (now later ttl_ms : ℕ) (ck : RedisCacheKey) (value : CachedRedisValue)
      (rt : KnowledgeRuntime W C (Lru.Cache S))
      → rt.redis_global_enabled ≡ true
      → rt.result_cache_enabled ≡ true
      → (redis_cache_get later ck (redis_cache_put_with_ttl now ck value ttl_ms rt)).1
        ≡ (if ltb 0 ttl_ms && ltb ttl_ms (later - now) then none else some value)
  redis_cache_get-put now later ttl_ms ck value rt g e =
      let entry : CachedRedisEntry = record { value = value; cached_at = now; ttl_ms = ttl_ms } in
      let p = Lru.peek-put_self S ck entry rt.redis_cache in
      unfold redis_cache_get redis_cache_put_with_ttl fetch_redis_cache save_redis_cache in
      ground arith

  -- With either switch off the cache gives nothing and takes nothing.
  pub redis_cache_off :
      (now ttl_ms : ℕ) (ck : RedisCacheKey) (value : CachedRedisValue)
      (rt : KnowledgeRuntime W C (Lru.Cache S))
      → (rt.redis_global_enabled && rt.result_cache_enabled) ≡ false
      → ((redis_cache_get now ck rt).1 ≡ none)
        × ((redis_cache_put_with_ttl now ck value ttl_ms rt).redis_cache ≡ rt.redis_cache)
  redis_cache_off now ttl_ms ck value rt off =
      unfold redis_cache_get redis_cache_put_with_ttl fetch_redis_cache save_redis_cache in
      ground arith
