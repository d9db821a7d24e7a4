-- ===== src/Runtime/Execute.antt =====
-- `src/runtime.rs`: the execution of queries through the result cache.
use wp_knowledge.Base.{
  ℕ, ◌-◌, ◌&&◌, List, Option, none, some, ltb, if◌then◌else◌, Bytes, DataField, RowData,
}
use wp_knowledge.Lru.{Lru}
use wp_knowledge.Runtime.Types.{
  KnowledgeResult, ProviderHandle, ResultCacheKey, QueryModeTag, CachePolicy, QueryRequest,
  QueryResponse, into_row,
}
use wp_knowledge.Runtime.Params.{HashWrite, result_cache_key, result_cache_key_fields}
use wp_knowledge.Runtime.State.{
  KnowledgeRuntime, ResultLru, fetch_add_1, current_handle, provider_by_name,
}
use wp_knowledge.Runtime.Ask.{
  answer, answer_async, answer_row, answer_row_async, is_use_global, map_result,
}

module _ {W D : Type 0} (R : ResultLru) where
  unfoldable pub fetch_result_cache_by_key :
      ℕ
      → ResultCacheKey
      → KnowledgeRuntime W (Lru.Cache R) D
      → KnowledgeRuntime W (Lru.Cache R) D × Option QueryResponse
  fetch_result_cache_by_key now key rt =
      if rt.result_cache_enabled
      then elim (Lru.peek R key rt.result_cache) [
        | none ↦ (rt, none)
        | some cached ↦
            if ltb rt.result_cache_ttl_ms (now - cached.cached_at)
            then (record rt { result_cache = Lru.pop R key rt.result_cache }, none)
            else (rt, some cached.response)
      ]
      else (rt, none)

  unfoldable pub save_result_cache_by_key :
      ℕ
      → ResultCacheKey
      → QueryResponse
      → KnowledgeRuntime W (Lru.Cache R) D
      → KnowledgeRuntime W (Lru.Cache R) D
  save_result_cache_by_key now key response rt = record rt {
    result_cache = Lru.put R key (record { response = response; cached_at = now }) rt.result_cache;
  }

  unfoldable pub record_result_cache_hit :
      KnowledgeRuntime W (Lru.Cache R) D → KnowledgeRuntime W (Lru.Cache R) D
  unfolding fetch_add_1
  record_result_cache_hit rt = record rt { result_cache_hits = fetch_add_1 rt.result_cache_hits }

  unfoldable pub record_result_cache_miss :
      KnowledgeRuntime W (Lru.Cache R) D → KnowledgeRuntime W (Lru.Cache R) D
  unfolding fetch_add_1
  record_result_cache_miss rt = record rt {
    result_cache_misses = fetch_add_1 rt.result_cache_misses;
  }

  -- The provider has been asked after a miss: a response is stored.
  unfoldable pub answered :
      ℕ
      → ResultCacheKey
      → KnowledgeRuntime W (Lru.Cache R) D
      → KnowledgeResult QueryResponse
      → KnowledgeRuntime W (Lru.Cache R) D × KnowledgeResult QueryResponse
  unfolding save_result_cache_by_key
  answered done key rt (KnowledgeResult.err e) = (rt, KnowledgeResult.err e)
  answered done key rt (KnowledgeResult.ok response) =
      (save_result_cache_by_key done key response rt, KnowledgeResult.ok response)

  -- What the four functions have in common: the cache is asked for the key, then the provider, whose
  -- answer is stored.
  unfoldable pub through_cache :
      ℕ
      → ℕ
      → CachePolicy
      → ResultCacheKey
      → KnowledgeResult QueryResponse
      → KnowledgeRuntime W (Lru.Cache R) D
      → KnowledgeRuntime W (Lru.Cache R) D × KnowledgeResult QueryResponse
  unfolding is_use_global
  through_cache now done policy key result rt =
      if is_use_global policy && rt.result_cache_enabled
      then (let (seen, found) = fetch_result_cache_by_key now key rt in
          elim found [
            | some hit ↦ (record_result_cache_hit seen, KnowledgeResult.ok hit)
            | none ↦ answered done key (record_result_cache_miss seen) result
          ])
      else (rt, result)

module _ {W D : Type 0} (finish : List HashWrite → ℕ) (R : ResultLru) where
  unfoldable pub execute_with_handle :
      ℕ
      → ℕ
      → W
      → ProviderHandle W
      → QueryRequest
      → KnowledgeRuntime W (Lru.Cache R) D
      → KnowledgeRuntime W (Lru.Cache R) D × KnowledgeResult QueryResponse
  unfolding through_cache answer result_cache_key
  execute_with_handle now done world handle req =
      through_cache R now done req.cache_policy (result_cache_key finish handle req)
        (answer handle world req)

  unfoldable pub execute_async_with_handle :
      ℕ
      → ℕ
      → W
      → ProviderHandle W
      → QueryRequest
      → KnowledgeRuntime W (Lru.Cache R) D
      → KnowledgeRuntime W (Lru.Cache R) D × KnowledgeResult QueryResponse
  unfolding through_cache answer_async result_cache_key
  execute_async_with_handle now done world handle req =
      through_cache R now done req.cache_policy (result_cache_key finish handle req)
        (answer_async handle world req)

  unfoldable pub execute_first_row_fields_with_handle :
      ℕ
      → ℕ
      → W
      → ProviderHandle W
      → Bytes
      → List DataField
      → CachePolicy
      → KnowledgeRuntime W (Lru.Cache R) D
      → KnowledgeRuntime W (Lru.Cache R) D × KnowledgeResult RowData
  unfolding through_cache answer_row result_cache_key_fields map_result into_row
  execute_first_row_fields_with_handle now done world handle sql params policy rt =
      let key = result_cache_key_fields finish handle sql params QueryModeTag.first_row in
      let (rt', result) =
        through_cache R now done policy key
          (map_result QueryResponse.row (answer_row handle world sql params)) rt in
      (rt', map_result into_row result)

  unfoldable pub execute_first_row_fields_async_with_handle :
      ℕ
      → ℕ
      → W
      → ProviderHandle W
      → Bytes
      → List DataField
      → CachePolicy
      → KnowledgeRuntime W (Lru.Cache R) D
      → KnowledgeRuntime W (Lru.Cache R) D × KnowledgeResult RowData
  unfolding through_cache answer_row_async result_cache_key_fields map_result into_row
  execute_first_row_fields_async_with_handle now done world handle sql params policy rt =
      let key = result_cache_key_fields finish handle sql params QueryModeTag.first_row in
      let (rt', result) =
        through_cache R now done policy key
          (map_result QueryResponse.row (answer_row_async handle world sql params)) rt in
      (rt', map_result into_row result)

  unfoldable pub execute :
      ℕ
      → ℕ
      → W
      → QueryRequest
      → KnowledgeRuntime W (Lru.Cache R) D
      → KnowledgeRuntime W (Lru.Cache R) D × KnowledgeResult QueryResponse
  unfolding current_handle execute_with_handle
  execute now done world req rt = elim (current_handle rt) [
    | KnowledgeResult.err e ↦ (rt, KnowledgeResult.err e)
    | KnowledgeResult.ok handle ↦ execute_with_handle now done world handle req rt
  ]

  unfoldable pub execute_for :
      ℕ
      → ℕ
      → W
      → Bytes
      → QueryRequest
      → KnowledgeRuntime W (Lru.Cache R) D
      → KnowledgeRuntime W (Lru.Cache R) D × KnowledgeResult QueryResponse
  unfolding provider_by_name execute_with_handle
  execute_for now done world name req rt = elim (provider_by_name name rt) [
    | KnowledgeResult.err e ↦ (rt, KnowledgeResult.err e)
    | KnowledgeResult.ok handle ↦ execute_with_handle now done world handle req rt
  ]
