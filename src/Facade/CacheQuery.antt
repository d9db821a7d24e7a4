-- ===== src/Facade/CacheQuery.antt =====
-- `src/facade.rs`: the queries through the local cache of a worker.
use wp_knowledge.Base.{ℕ, List, [], Option, none, some, Bytes, DataField, RowData}
use wp_knowledge.Base.Model.{Value}
use wp_knowledge.Lru.{Lru}
use wp_knowledge.Runtime.Types.{KnowledgeResult, CachePolicy}
use wp_knowledge.Runtime.Params.{HashWrite}
use wp_knowledge.Runtime.State.{KnowledgeRuntime, ResultLru, current_generation, provider_by_name}
use wp_knowledge.Runtime.Counters.{record_local_cache_hit, record_local_cache_miss}
use wp_knowledge.Runtime.Entry.{execute_first_row_fields, execute_first_row_fields_for}
use wp_knowledge.Cache.Fields.{
  FieldQueryCache, LocalCacheKey, save_scoped, fetch_scoped, prepare_generation,
}
use wp_knowledge.Facade.Queries.{RuntimeOver}
use Prim.Native.Nat.{bit_xor}

abbrev pub RowLru : Type 1
RowLru = Lru LocalCacheKey RowData

abbrev pub LocalCache : RowLru → Type 0
LocalCache L = FieldQueryCache (Lru.Cache L)

-- The runtime and the local cache after the call, and what it returns.
abbrev pub After : Type 0 → Type 0 → ResultLru → RowLru → Type 0 → Type 0
After W D R L A = RuntimeOver W D R × LocalCache L × A

-- No installation is under way while the facade reads the generation.
unfoldable pub generation_now : {W C D : Type 0} → KnowledgeRuntime W C D → Option ℕ
unfolding current_generation
generation_now rt = current_generation rt rt rt rt

unfoldable pub prepared : (L : RowLru) → Option ℕ → ℕ → LocalCache L → LocalCache L
unfolding prepare_generation
prepared L none scope c = c
prepared L (some generation) scope c = prepare_generation L c scope generation

module _ {W D : Type 0} (R : ResultLru) (L : RowLru) where
  -- `c_params` are the values of the parameters that make the key; telemetry is left out.
  unfoldable pub local_cache_hit :
      ℕ → List Value → Option ℕ → RuntimeOver W D R → LocalCache L → After W D R L (Option RowData)
  unfolding prepared fetch_scoped record_local_cache_hit record_local_cache_miss
  local_cache_hit local_cache_scope c_params generation rt cache =
      let ready = prepared L generation local_cache_scope cache in
      elim (fetch_scoped L ready local_cache_scope c_params) [
        | some hit ↦ (record_local_cache_hit rt, ready, some hit)
        | none ↦ (record_local_cache_miss rt, ready, none)
      ]

  -- The `match` on the provider's answer.
  unfoldable pub kept :
      ℕ
      → List Value
      → LocalCache L
      → RuntimeOver W D R × KnowledgeResult RowData
      → After W D R L RowData
  unfolding save_scoped
  kept scope c_params cache (rt, KnowledgeResult.ok row) =
      (rt, save_scoped L cache scope c_params row, row)
  kept scope c_params cache (rt, KnowledgeResult.err e) = (rt, cache, [])

  -- A hit is returned; after a miss the provider is asked, which is given as a function of the runtime.
  unfoldable pub after_lookup :
      ℕ
      → List Value
      → (RuntimeOver W D R → RuntimeOver W D R × KnowledgeResult RowData)
      → After W D R L (Option RowData)
      → After W D R L RowData
  unfolding kept
  after_lookup scope c_params query (rt, cache, some hit) = (rt, cache, hit)
  after_lookup scope c_params query (rt, cache, none) = kept scope c_params cache (query rt)

  unfoldable pub through_local :
      ℕ
      → List Value
      → Option ℕ
      → (RuntimeOver W D R → RuntimeOver W D R × KnowledgeResult RowData)
      → RuntimeOver W D R
      → LocalCache L
      → After W D R L RowData
  unfolding local_cache_hit after_lookup
  through_local scope c_params generation query rt cache =
      after_lookup scope c_params query (local_cache_hit scope c_params generation rt cache)

module _ {W D : Type 0} (finish : List HashWrite → ℕ) (R : ResultLru) (L : RowLru) (now done : ℕ)
    (world : W) where
  unfoldable pub cache_query_fields_with_scope :
      Bytes
      → ℕ
      → List Value
      → List DataField
      → RuntimeOver W D R
      → LocalCache L
      → After W D R L RowData
  unfolding through_local generation_now execute_first_row_fields
  cache_query_fields_with_scope sql local_cache_scope c_params query_params rt cache =
      through_local R L local_cache_scope c_params (generation_now rt)
        (execute_first_row_fields finish R now done world sql query_params CachePolicy.use_global)
        rt cache

-- `stable_hash` is the hash of the standard library, as is `finish`.
module _ {W D : Type 0} (stable_hash : Bytes → ℕ) (finish : List HashWrite → ℕ) (R : ResultLru)
    (L : RowLru) (now done : ℕ) (world : W) where
  unfoldable pub cache_query_fields :
      Bytes → List Value → List DataField → RuntimeOver W D R → LocalCache L → After W D R L RowData
  unfolding cache_query_fields_with_scope
  cache_query_fields sql =
      cache_query_fields_with_scope finish R L now done world sql (stable_hash sql)

  unfoldable pub cache_query_fields_route :
      Option Bytes
      → Bytes
      → ℕ
      → List Value
      → List DataField
      → RuntimeOver W D R
      → LocalCache L
      → After W D R L RowData
  unfolding cache_query_fields_with_scope provider_by_name through_local
      execute_first_row_fields_for
  cache_query_fields_route none sql local_cache_scope c_params query_params rt cache =
      cache_query_fields_with_scope finish R L now done world sql local_cache_scope c_params
        query_params rt cache
  cache_query_fields_route (some name) sql local_cache_scope c_params query_params rt cache =
      elim (provider_by_name name rt) [
        | KnowledgeResult.err e ↦ (rt, cache, [])
        | KnowledgeResult.ok handle ↦
            through_local R L (bit_xor local_cache_scope (stable_hash name)) c_params
              (some handle.generation)
              (execute_first_row_fields_for finish R now done world name sql query_params
                CachePolicy.use_global)
              rt cache
      ]

  -- `named_params` is what the conversion of the parameters of SQLite gives.
  unfoldable pub cache_query :
      Bytes
      → List Value
      → KnowledgeResult (List DataField)
      → RuntimeOver W D R
      → LocalCache L
      → After W D R L RowData
  unfolding cache_query_fields
  cache_query sql c_params (KnowledgeResult.ok query_fields) rt cache =
      cache_query_fields sql c_params query_fields rt cache
  cache_query sql c_params (KnowledgeResult.err e) rt cache = (rt, cache, [])
