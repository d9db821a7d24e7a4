-- ===== src/Runtime/Configure.antt =====
-- `src/runtime.rs`: the sizes and times to live of the caches of results.
use wp_knowledge.Base.{ℕ, Bool, not, ◌&&◌, ◌||◌, ◌==◌, if◌then◌else◌, max, min, ◌-◌}
use wp_knowledge.Lru.{Lru}
use wp_knowledge.Runtime.Types.{ResultCacheConfig}
use wp_knowledge.Runtime.State.{KnowledgeRuntime, ResultLru, RedisLru, u64_size}

module _ {W D : Type 0} (R : ResultLru) where
  unfoldable pub configure_result_cache :
      Bool → ℕ → ℕ → KnowledgeRuntime W (Lru.Cache R) D → KnowledgeRuntime W (Lru.Cache R) D
  configure_result_cache enabled capacity ttl rt =
      let config : ResultCacheConfig = record {
        enabled = enabled;
        capacity = max capacity 1;
        ttl = max ttl 1;
      } in
      let old = rt.result_cache_config in
      let reset = not (old.capacity == config.capacity) || (not enabled && old.enabled) in
      record rt {
        result_cache_config = config;
        result_cache_enabled = enabled;
        result_cache_ttl_ms = min config.ttl (u64_size - 1);
        result_cache = if reset then Lru.new R config.capacity else rt.result_cache;
      }

module _ {W C : Type 0} (S : RedisLru) where
  unfoldable pub configure_redis_cache :
      Bool → ℕ → KnowledgeRuntime W C (Lru.Cache S) → KnowledgeRuntime W C (Lru.Cache S)
  configure_redis_cache global_enabled capacity rt = record rt {
    redis_cache = Lru.new S (max capacity 1);
    redis_global_enabled = global_enabled;
  }
