-- ===== src/Facade/CacheQueryAsync.antt =====
-- `src/facade.rs`: the asynchronous queries through the local cache of a worker. A query that waits is
-- one step; its parameters are built after a miss, by a function without effects, and so are given.
use wp_knowledge.Base.{ℕ, List, [], Option, none, some, Bytes, DataField, RowData}
use wp_knowledge.Base.Model.{Value}
use wp_knowledge.Runtime.Types.{KnowledgeResult, CachePolicy}
use wp_knowledge.Runtime.Params.{HashWrite}
use wp_knowledge.Runtime.State.{ResultLru, provider_by_name}
use wp_knowledge.Runtime.Entry.{execute_first_row_fields_async, execute_first_row_fields_for_async}
use wp_knowledge.Facade.Queries.{RuntimeOver}
use wp_knowledge.Facade.CacheQuery.{RowLru, LocalCache, After, generation_now, through_local}
use Prim.Native.Nat.{bit_xor}

module _ {W D : Type 0} (finish : List HashWrite → ℕ) (R : ResultLru) (L : RowLru) (now done : ℕ)
    (world : W) where
  unfoldable pub cache_query_fields_async_with_scope :
      Bytes
      → ℕ
      → List Value
      → List DataField
      → RuntimeOver W D R
      → LocalCache L
      → After W D R L RowData
  unfolding through_local generation_now execute_first_row_fields_async
  cache_query_fields_async_with_scope sql local_cache_scope c_params query_params rt cache =
      through_local R L local_cache_scope c_params (generation_now rt)
        (execute_first_row_fields_async finish R now done world sql query_params
          CachePolicy.use_global)
        rt cache

-- `stable_hash` is the hash of the standard library, as is `finish`.
module _ {W D : Type 0} (stable_hash : Bytes → ℕ) (finish : List HashWrite → ℕ) (R : ResultLru)
    (L : RowLru) (now done : ℕ) (world : W) where
  unfoldable pub cache_query_fields_async :
      Bytes → List Value → List DataField → RuntimeOver W D R → LocalCache L → After W D R L RowData
  unfolding cache_query_fields_async_with_scope
  cache_query_fields_async sql =
      cache_query_fields_async_with_scope finish R L now done world sql (stable_hash sql)

  unfoldable pub cache_query_fields_async_with :
      Bytes → List Value → List DataField → RuntimeOver W D R → LocalCache L → After W D R L RowData
  unfolding cache_query_fields_async_with_scope
  cache_query_fields_async_with sql =
      cache_query_fields_async_with_scope finish R L now done world sql (stable_hash sql)

  unfoldable pub cache_query_fields_route_async :
      Option Bytes
      → Bytes
      → ℕ
      → List Value
      → List DataField
      → RuntimeOver W D R
      → LocalCache L
      → After W D R L RowData
  unfolding cache_query_fields_async_with_scope provider_by_name through_local
      execute_first_row_fields_for_async
  cache_query_fields_route_async none sql local_cache_scope c_params query_params rt cache =
      cache_query_fields_async_with_scope finish R L now done world sql local_cache_scope c_params
        query_params rt cache
  cache_query_fields_route_async (some name) sql local_cache_scope c_params query_params rt cache =
      elim (provider_by_name name rt) [
        | KnowledgeResult.err e ↦ (rt, cache, [])
        | KnowledgeResult.ok handle ↦
            through_local R L (bit_xor local_cache_scope (stable_hash name)) c_params
              (some handle.generation)
              (execute_first_row_fields_for_async finish R now done world name sql query_params
                CachePolicy.use_global)
              rt cache
      ]

  -- `named_params` is what the conversion of the parameters of SQLite gives.
  unfoldable pub cache_query_async :
      Bytes
      → List Value
      → KnowledgeResult (List DataField)
      → RuntimeOver W D R
      → LocalCache L
      → After W D R L RowData
  unfolding cache_query_fields_async
  cache_query_async sql c_params (KnowledgeResult.ok query_fields) rt cache =
      cache_query_fields_async sql c_params query_fields rt cache
  cache_query_async sql c_params (KnowledgeResult.err e) rt cache = (rt, cache, [])
