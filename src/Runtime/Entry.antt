-- ===== src/Runtime/Entry.antt =====
-- `src/runtime.rs`: the entry points by name and by default, synchronous and asynchronous.
use wp_knowledge.Base.{ℕ, Bytes, DataField, RowData, List}
use wp_knowledge.Lru.{Lru}
use wp_knowledge.Runtime.Types.{
  ProviderKind, KnowledgeResult, QueryMode, CachePolicy, QueryParam, QueryRequest, QueryResponse,
}
use wp_knowledge.Runtime.Params.{HashWrite}
use wp_knowledge.Runtime.State.{
  KnowledgeRuntime, ResultLru, RedisLru, current_handle, provider_by_name,
}
use wp_knowledge.Runtime.Execute.{
  execute_with_handle, execute_async_with_handle, execute_first_row_fields_with_handle,
  execute_first_row_fields_async_with_handle,
}

unfoldable pub many : Bytes → List QueryParam → CachePolicy → QueryRequest
many sql params cache_policy = record {
  sql = sql;
  params = params;
  mode = QueryMode.many;
  cache_policy = cache_policy;
}

unfoldable pub first_row : Bytes → List QueryParam → CachePolicy → QueryRequest
first_row sql params cache_policy = record {
  sql = sql;
  params = params;
  mode = QueryMode.first_row;
  cache_policy = cache_policy;
}

unfoldable pub clear_redis_cache :
    {W C : Type 0} (S : RedisLru)
    → KnowledgeRuntime W C (Lru.Cache S)
    → KnowledgeRuntime W C (Lru.Cache S)
clear_redis_cache S rt = record rt { redis_cache = Lru.clear S rt.redis_cache }

module _ {W D : Type 0} (finish : List HashWrite → ℕ) (R : ResultLru) where
  unfoldable pub execute_first_row_fields :
      ℕ
      → ℕ
      → W
      → Bytes
      → List DataField
      → CachePolicy
      → KnowledgeRuntime W (Lru.Cache R) D
      → KnowledgeRuntime W (Lru.Cache R) D × KnowledgeResult RowData
  unfolding current_handle execute_first_row_fields_with_handle
  execute_first_row_fields now done world sql params policy rt = elim (current_handle rt) [
    | KnowledgeResult.err e ↦ (rt, KnowledgeResult.err e)
    | KnowledgeResult.ok handle ↦
        execute_first_row_fields_with_handle finish R now done world handle sql params policy rt
  ]

  unfoldable pub execute_first_row_fields_for :
      ℕ
      → ℕ
      → W
      → Bytes
      → Bytes
      → List DataField
      → CachePolicy
      → KnowledgeRuntime W (Lru.Cache R) D
      → KnowledgeRuntime W (Lru.Cache R) D × KnowledgeResult RowData
  unfolding provider_by_name execute_first_row_fields_with_handle
  execute_first_row_fields_for now done world name sql params policy rt =
      elim (provider_by_name name rt) [
        | KnowledgeResult.err e ↦ (rt, KnowledgeResult.err e)
        | KnowledgeResult.ok handle ↦
            execute_first_row_fields_with_handle finish R now done world handle sql params policy rt
      ]

  -- The SQLite provider runs on a blocking thread, which is taken to be joined.
  unfoldable pub execute_async :
      ℕ
      → ℕ
      → W
      → QueryRequest
      → KnowledgeRuntime W (Lru.Cache R) D
      → KnowledgeRuntime W (Lru.Cache R) D × KnowledgeResult QueryResponse
  unfolding current_handle execute_with_handle execute_async_with_handle
  execute_async now done world req rt = elim (current_handle rt) [
    | KnowledgeResult.err e ↦ (rt, KnowledgeResult.err e)
    | KnowledgeResult.ok handle ↦ elim handle.kind [
      | ProviderKind.sqlite_authority ↦ execute_with_handle finish R now done world handle req rt
      | _ ↦ execute_async_with_handle finish R now done world handle req rt
    ]
  ]

  unfoldable pub execute_for_async :
      ℕ
      → ℕ
      → W
      → Bytes
      → QueryRequest
      → KnowledgeRuntime W (Lru.Cache R) D
      → KnowledgeRuntime W (Lru.Cache R) D × KnowledgeResult QueryResponse
  unfolding provider_by_name execute_async_with_handle
  execute_for_async now done world name req rt = elim (provider_by_name name rt) [
    | KnowledgeResult.err e ↦ (rt, KnowledgeResult.err e)
    | KnowledgeResult.ok handle ↦ execute_async_with_handle finish R now done world handle req rt
  ]

  unfoldable pub execute_first_row_fields_async :
      ℕ
      → ℕ
      → W
      → Bytes
      → List DataField
      → CachePolicy
      → KnowledgeRuntime W (Lru.Cache R) D
      → KnowledgeRuntime W (Lru.Cache R) D × KnowledgeResult RowData
  unfolding current_handle execute_first_row_fields_with_handle
      execute_first_row_fields_async_with_handle
  execute_first_row_fields_async now done world sql params policy rt = elim (current_handle rt) [
    | KnowledgeResult.err e ↦ (rt, KnowledgeResult.err e)
    | KnowledgeResult.ok handle ↦ elim handle.kind [
      | ProviderKind.sqlite_authority ↦
          execute_first_row_fields_with_handle finish R now done world handle sql params policy rt
      | _ ↦
          execute_first_row_fields_async_with_handle finish R now done world handle sql params
            policy rt
    ]
  ]

  unfoldable pub execute_first_row_fields_for_async :
      ℕ
      → ℕ
      → W
      → Bytes
      → Bytes
      → List DataField
      → CachePolicy
      → KnowledgeRuntime W (Lru.Cache R) D
      → KnowledgeRuntime W (Lru.Cache R) D × KnowledgeResult RowData
  unfolding provider_by_name execute_first_row_fields_async_with_handle
  execute_first_row_fields_for_async now done world name sql params policy rt =
      elim (provider_by_name name rt) [
        | KnowledgeResult.err e ↦ (rt, KnowledgeResult.err e)
        | KnowledgeResult.ok handle ↦
            execute_first_row_fields_async_with_handle finish R now done world handle sql params
              policy rt
      ]
