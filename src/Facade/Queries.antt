-- ===== src/Facade/Queries.antt =====
-- `src/facade.rs`: the queries that leave the caches alone.
use wp_knowledge.Base.{ℕ, List, [], Bytes, DataField, RowData}
use wp_knowledge.Lru.{Lru}
use wp_knowledge.Runtime.Types.{KnowledgeResult, CachePolicy, into_row, into_rows}
use wp_knowledge.Runtime.Params.{HashWrite}
use wp_knowledge.Runtime.State.{KnowledgeRuntime, ResultLru}
use wp_knowledge.Runtime.Execute.{execute, execute_for}
use wp_knowledge.Runtime.Ask.{map_result}
use wp_knowledge.Runtime.Entry.{
  many, first_row, execute_async, execute_for_async, execute_first_row_fields,
  execute_first_row_fields_for, execute_first_row_fields_async, execute_first_row_fields_for_async,
}

abbrev pub RuntimeOver : Type 0 → Type 0 → ResultLru → Type 0
RuntimeOver W D R = KnowledgeRuntime W (Lru.Cache R) D

-- The clocks before and after the provider's work, and the world that the provider reads, are
-- arguments, as for the runtime.
module _ {W D : Type 0} (finish : List HashWrite → ℕ) (R : ResultLru) (now done : ℕ)
    (world : W) where
  unfoldable pub query :
      Bytes → RuntimeOver W D R → RuntimeOver W D R × KnowledgeResult (List RowData)
  unfolding execute many map_result into_rows
  query sql rt =
      let (rt', result) = execute finish R now done world (many sql [] CachePolicy.bypass) rt in
      (rt', map_result into_rows result)

  unfoldable pub query_row : Bytes → RuntimeOver W D R → RuntimeOver W D R × KnowledgeResult RowData
  unfolding execute first_row map_result into_row
  query_row sql rt =
      let (rt', result) =
        execute finish R now done world (first_row sql [] CachePolicy.bypass) rt in
      (rt', map_result into_row result)

  unfoldable pub query_for :
      Bytes → Bytes → RuntimeOver W D R → RuntimeOver W D R × KnowledgeResult (List RowData)
  unfolding execute_for many map_result into_rows
  query_for name sql rt =
      let (rt', result) =
        execute_for finish R now done world name (many sql [] CachePolicy.bypass) rt in
      (rt', map_result into_rows result)

  unfoldable pub query_fields_for :
      Bytes
      → Bytes
      → List DataField
      → RuntimeOver W D R
      → RuntimeOver W D R × KnowledgeResult RowData
  unfolding execute_first_row_fields_for
  query_fields_for name sql params =
      execute_first_row_fields_for finish R now done world name sql params CachePolicy.bypass

  unfoldable pub query_fields :
      Bytes → List DataField → RuntimeOver W D R → RuntimeOver W D R × KnowledgeResult RowData
  unfolding execute_first_row_fields
  query_fields sql params =
      execute_first_row_fields finish R now done world sql params CachePolicy.bypass

  unfoldable pub query_named_fields :
      Bytes → List DataField → RuntimeOver W D R → RuntimeOver W D R × KnowledgeResult RowData
  unfolding query_fields
  query_named_fields sql params = query_fields sql params

  unfoldable pub query_async :
      Bytes → RuntimeOver W D R → RuntimeOver W D R × KnowledgeResult (List RowData)
  unfolding execute_async many map_result into_rows
  query_async sql rt =
      let (rt', result) =
        execute_async finish R now done world (many sql [] CachePolicy.bypass) rt in
      (rt', map_result into_rows result)

  unfoldable pub query_row_async :
      Bytes → RuntimeOver W D R → RuntimeOver W D R × KnowledgeResult RowData
  unfolding execute_async first_row map_result into_row
  query_row_async sql rt =
      let (rt', result) =
        execute_async finish R now done world (first_row sql [] CachePolicy.bypass) rt in
      (rt', map_result into_row result)

  unfoldable pub query_async_for :
      Bytes → Bytes → RuntimeOver W D R → RuntimeOver W D R × KnowledgeResult (List RowData)
  unfolding execute_for_async many map_result into_rows
  query_async_for name sql rt =
      let (rt', result) =
        execute_for_async finish R now done world name (many sql [] CachePolicy.bypass) rt in
      (rt', map_result into_rows result)

  unfoldable pub query_fields_for_async :
      Bytes
      → Bytes
      → List DataField
      → RuntimeOver W D R
      → RuntimeOver W D R × KnowledgeResult RowData
  unfolding execute_first_row_fields_for_async
  query_fields_for_async name sql params =
      execute_first_row_fields_for_async finish R now done world name sql params CachePolicy.bypass

  unfoldable pub query_fields_async :
      Bytes → List DataField → RuntimeOver W D R → RuntimeOver W D R × KnowledgeResult RowData
  unfolding execute_first_row_fields_async
  query_fields_async sql params =
      execute_first_row_fields_async finish R now done world sql params CachePolicy.bypass

  unfoldable pub query_named_fields_async :
      Bytes → List DataField → RuntimeOver W D R → RuntimeOver W D R × KnowledgeResult RowData
  unfolding query_fields_async
  query_named_fields_async sql params = query_fields_async sql params
