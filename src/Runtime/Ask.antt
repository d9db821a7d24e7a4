-- ===== src/Runtime/Ask.antt =====
-- `src/runtime.rs`: a request as calls of a provider.
use wp_knowledge.Base.{Bool, true, false, List, [], ◌∷◌, Bytes, DataField, RowData}
use wp_knowledge.Runtime.Types.{
  KnowledgeResult, ProviderHandle, QueryMode, CachePolicy, QueryRequest, QueryResponse,
}
use wp_knowledge.Runtime.Params.{params_to_fields}

unfoldable pub is_use_global : CachePolicy → Bool
is_use_global CachePolicy.use_global = true
is_use_global _ = false

-- `map` of a `KnowledgeResult`.
unfoldable pub map_result : {A B : Type 0} → (A → B) → KnowledgeResult A → KnowledgeResult B
map_result f (KnowledgeResult.ok a) = KnowledgeResult.ok (f a)
map_result f (KnowledgeResult.err e) = KnowledgeResult.err e

-- The `match` on the mode, over the four methods of the provider that it calls.
unfoldable pub ask :
    {W : Type 0}
    → (W → Bytes → KnowledgeResult (List RowData))
    → (W → Bytes → List DataField → KnowledgeResult (List RowData))
    → (W → Bytes → KnowledgeResult RowData)
    → (W → Bytes → List DataField → KnowledgeResult RowData)
    → W
    → QueryRequest
    → KnowledgeResult QueryResponse
unfolding map_result params_to_fields
ask query query_fields query_row query_named_fields world req = elim req.mode [
  | QueryMode.many ↦ elim (params_to_fields req.params) [
    | [] ↦ map_result QueryResponse.rows (query world req.sql)
    | f ∷ fs ↦ map_result QueryResponse.rows (query_fields world req.sql (f ∷ fs))
  ]
  | QueryMode.first_row ↦ elim (params_to_fields req.params) [
    | [] ↦ map_result QueryResponse.row (query_row world req.sql)
    | f ∷ fs ↦ map_result QueryResponse.row (query_named_fields world req.sql (f ∷ fs))
  ]
]

unfoldable pub ask_row :
    {W : Type 0}
    → (W → Bytes → KnowledgeResult RowData)
    → (W → Bytes → List DataField → KnowledgeResult RowData)
    → W
    → Bytes
    → List DataField
    → KnowledgeResult RowData
ask_row query_row query_named_fields world sql [] = query_row world sql
ask_row query_row query_named_fields world sql (f ∷ fs) = query_named_fields world sql (f ∷ fs)

unfoldable pub answer :
    {W : Type 0} → ProviderHandle W → W → QueryRequest → KnowledgeResult QueryResponse
unfolding ask
answer handle world req =
    let p = handle.executor in ask p.query p.query_fields p.query_row p.query_named_fields world req

unfoldable pub answer_async :
    {W : Type 0} → ProviderHandle W → W → QueryRequest → KnowledgeResult QueryResponse
unfolding ask
answer_async handle world req =
    let p = handle.executor in
    ask p.query_async p.query_fields_async p.query_row_async p.query_named_fields_async world req

unfoldable pub answer_row :
    {W : Type 0} → ProviderHandle W → W → Bytes → List DataField → KnowledgeResult RowData
unfolding ask_row
answer_row handle world sql params =
    ask_row handle.executor.query_row handle.executor.query_named_fields world sql params

unfoldable pub answer_row_async :
    {W : Type 0} → ProviderHandle W → W → Bytes → List DataField → KnowledgeResult RowData
unfolding ask_row
answer_row_async handle world sql params =
    ask_row handle.executor.query_row_async handle.executor.query_named_fields_async world sql
      params

-- `now` is the clock at the call, `done` the clock when the provider has answered.
