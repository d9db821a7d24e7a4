-- ===== src/Runtime/State.antt =====
-- `src/runtime.rs`: the state of `KnowledgeRuntime`, the registry of providers and the configuration.
use wp_knowledge.Base.{
  ℕ, ◌+◌, ◌%◌, Bool, true, false, not, List, [], ◌∷◌, ◌++◌, Option, none, some, ◌==◌, if◌then◌else◌,
  Bytes, max, length, find, insert,
}
use wp_knowledge.Base.Model.{Bytes-discrete}
use wp_knowledge.Base.Text.{codes}
use wp_knowledge.Lru.{Lru}
use wp_knowledge.Runtime.Types.{
  ProviderKind, KnowledgeError, KnowledgeResult, ProviderExecutor, ProviderHandle, ResultCacheKey,
  ResultCacheConfig, CachedQueryResponse, RedisCacheKey, CachedRedisEntry, default_config,
}

-- An `AtomicU64` counts modulo 2^64.
abbrev pub u64_size : ℕ
u64_size = 18_446_744_073_709_551_616

unfoldable pub fetch_add_1 : ℕ → ℕ
fetch_add_1 n = (n + 1) % u64_size

-- `C` and `D` are the LRU caches of query results and of Redis results.
pub record KnowledgeRuntime (W C D : Type 0) : Type 0 where
  pub provider : Option (ProviderHandle W)
  pub named_providers : List (Bytes × ProviderHandle W)
  pub named_provider_epoch : ℕ
  pub next_generation : ℕ
  pub provider_epoch : ℕ
  pub current_generation_value : ℕ
  pub result_cache_config : ResultCacheConfig
  pub result_cache_enabled : Bool
  pub result_cache_ttl_ms : ℕ
  pub result_cache : C
  pub result_cache_hits : ℕ
  pub result_cache_misses : ℕ
  pub metadata_cache_hits : ℕ
  pub metadata_cache_misses : ℕ
  pub local_cache_hits : ℕ
  pub local_cache_misses : ℕ
  pub reload_successes : ℕ
  pub reload_failures : ℕ
  pub redis_cache : D
  pub redis_cache_hits : ℕ
  pub redis_cache_misses : ℕ
  pub redis_global_enabled : Bool

-- `DEFAULT_PROVIDER_NAME`
abbrev pub default_provider_name : Bytes
default_provider_name = codes "default"

abbrev pub ResultLru : Type 1
ResultLru = Lru ResultCacheKey CachedQueryResponse

abbrev pub RedisLru : Type 1
RedisLru = Lru RedisCacheKey CachedRedisEntry

module _ {W : Type 0} (R : ResultLru) (S : RedisLru) where
  unfoldable pub new : ℕ → KnowledgeRuntime W (Lru.Cache R) (Lru.Cache S)
  new capacity = record {
    provider = none;
    named_providers = [];
    named_provider_epoch = 0;
    next_generation = 0;
    provider_epoch = 0;
    current_generation_value = 0;
    result_cache_config = record default_config { capacity = max capacity 1 };
    result_cache_enabled = true;
    result_cache_ttl_ms = 30_000;
    result_cache = Lru.new R (max capacity 1);
    result_cache_hits = 0;
    result_cache_misses = 0;
    metadata_cache_hits = 0;
    metadata_cache_misses = 0;
    local_cache_hits = 0;
    local_cache_misses = 0;
    reload_successes = 0;
    reload_failures = 0;
    redis_cache = Lru.new S (max capacity 1);
    redis_cache_hits = 0;
    redis_cache_misses = 0;
    redis_global_enabled = true;
  }

unfoldable pub retain : {H : Type 0} → (Bytes → Bool) → List (Bytes × H) → List (Bytes × H)
retain keep [] = []
retain keep ((name, handle) ∷ named) =
    if keep name then (name, handle) ∷ retain keep named else retain keep named

module _ {W C D : Type 0} where
  -- The default provider is set between two steps of its epoch.
  unfoldable pub publish : ProviderHandle W → KnowledgeRuntime W C D → KnowledgeRuntime W C D
  unfolding fetch_add_1
  publish handle rt = record rt {
    provider_epoch = fetch_add_1 (fetch_add_1 rt.provider_epoch);
    provider = some handle;
    current_generation_value = handle.generation;
  }

  unfoldable pub register :
      Bytes → ProviderHandle W → KnowledgeRuntime W C D → KnowledgeRuntime W C D
  unfolding fetch_add_1
  register name handle rt = record rt {
    named_providers = insert Bytes-discrete name handle rt.named_providers;
    named_provider_epoch = fetch_add_1 rt.named_provider_epoch;
  }

  -- What `install_provider_named` does with what `build` returns; `rt` has taken the generation.
  unfoldable pub installed :
      Bytes
      → ProviderKind
      → Bytes
      → Bool
      → KnowledgeRuntime W C D
      → KnowledgeResult (ProviderExecutor W)
      → KnowledgeRuntime W C D × KnowledgeResult ℕ
  unfolding fetch_add_1 publish register
  installed name kind datasource_id is_default rt (KnowledgeResult.err e) =
      (record rt { reload_failures = fetch_add_1 rt.reload_failures }, KnowledgeResult.err e)
  installed name kind datasource_id is_default rt (KnowledgeResult.ok executor) =
      let handle : ProviderHandle W = record {
        executor = executor;
        datasource_id = datasource_id;
        generation = rt.next_generation;
        kind = kind;
      } in
      let named = register name handle rt in
      let set = if is_default then publish handle named else named in
      (
        record set { reload_successes = fetch_add_1 rt.reload_successes },
        KnowledgeResult.ok rt.next_generation,
      )

  unfoldable pub install_provider_named :
      Bytes
      → ProviderKind
      → Bytes
      → (ℕ → KnowledgeResult (ProviderExecutor W))
      → Bool
      → KnowledgeRuntime W C D
      → KnowledgeRuntime W C D × KnowledgeResult ℕ
  unfolding fetch_add_1 installed
  install_provider_named name kind datasource_id build is_default rt =
      let generation = fetch_add_1 rt.next_generation in
      installed name kind datasource_id is_default (record rt { next_generation = generation })
        (build generation)

  unfoldable pub install_provider :
      ProviderKind
      → Bytes
      → (ℕ → KnowledgeResult (ProviderExecutor W))
      → KnowledgeRuntime W C D
      → KnowledgeRuntime W C D × KnowledgeResult ℕ
  unfolding install_provider_named
  install_provider kind datasource_id build =
      install_provider_named default_provider_name kind datasource_id build true

  unfoldable pub current_generation_from_provider : KnowledgeRuntime W C D → Option ℕ
  current_generation_from_provider rt = elim rt.provider [
    | none ↦ none
    | some handle ↦ some handle.generation
  ]

  -- The loads of the epoch, of the value, of the epoch again, and the reading of the provider each
  -- see the state of their time.
  unfoldable pub current_generation :
      KnowledgeRuntime W C D
      → KnowledgeRuntime W C D
      → KnowledgeRuntime W C D
      → KnowledgeRuntime W C D
      → Option ℕ
  unfolding current_generation_from_provider
  current_generation before at after fallback =
      if before.provider_epoch % 2 == 1
      then current_generation_from_provider fallback
      else if not (before.provider_epoch == after.provider_epoch)
      then current_generation_from_provider fallback
      else if at.current_generation_value == 0
      then none
      else some at.current_generation_value

  unfoldable pub provider_by_name :
      Bytes → KnowledgeRuntime W C D → KnowledgeResult (ProviderHandle W)
  provider_by_name name rt = elim (find Bytes-discrete name rt.named_providers) [
    | none ↦
        KnowledgeResult.err
          (KnowledgeError.logic (codes "knowledge provider '" ++ name ++ codes "' not initialized"))
    | some handle ↦ KnowledgeResult.ok handle
  ]

  unfoldable pub provider_exists : Bytes → KnowledgeRuntime W C D → Bool
  provider_exists name rt = elim (find Bytes-discrete name rt.named_providers) [
    | none ↦ false
    | some handle ↦ true
  ]

  -- `keep` is the membership test of the set.
  unfoldable pub prune_named_providers_except :
      (Bytes → Bool) → KnowledgeRuntime W C D → KnowledgeRuntime W C D
  unfolding retain fetch_add_1
  prune_named_providers_except keep rt =
      let kept = retain keep rt.named_providers in
      if length kept == length rt.named_providers
      then record rt { named_providers = kept }
      else record rt {
        named_providers = kept;
        named_provider_epoch = fetch_add_1 rt.named_provider_epoch;
      }

  unfoldable pub current_handle : KnowledgeRuntime W C D → KnowledgeResult (ProviderHandle W)
  current_handle rt = elim rt.provider [
    | none ↦ KnowledgeResult.err (KnowledgeError.logic (codes "knowledge provider not initialized"))
    | some handle ↦ KnowledgeResult.ok handle
  ]
