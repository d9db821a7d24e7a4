-- ===== src/Cache/Query.antt =====
-- `src/cache_util.rs`: a query through a local cache.
use wp_knowledge.Base.{◌≡◌, refl, List, [], none, some, arith}
use wp_knowledge.Base.Model.{Value}
use wp_knowledge.Lru.{Lru}
use wp_knowledge.Cache.Fields.{FieldQueryCache, LocalCacheKey, save, fetch}
use wp_knowledge.Cache.Keys.{Key}
use wp_knowledge.Cache.Invariant.{keys_of, Memo, Holds}
use wp_knowledge.Cache.Contract.{IsArray, IsWhole, fetch_scoped-save_scoped}

pub data QueryResult (T E : Type 0) : Type 0 where
  ok : T → QueryResult T E
  err : E → QueryResult T E

-- A row is a list of fields; `query_fn` is called at most once, so it is its result.
module _ {F E : Type 0} (L : Lru LocalCacheKey (List F)) where
  open L use {Cache}

  unfoldable pub cache_query_impl :
      FieldQueryCache Cache → List Value → QueryResult (List F) E → FieldQueryCache Cache × List F
  unfolding fetch save
  cache_query_impl cache c_params query_fn = elim (fetch L cache c_params) [
    | some hit ↦ (cache, hit)
    | none ↦ elim query_fn [
      | QueryResult.ok rows ↦ (save L cache c_params rows, rows)
      | QueryResult.err e ↦ (cache, [])
    ]
  ]

  -- A query that is not in the cache and succeeds is made once: the next query for these parameters
  -- returns the same row, whatever the provider would answer then. This takes a save in one piece, of
  -- parameters that the cache takes.
  pub cache_query_impl_once :
      (c : FieldQueryCache Cache) (m : Memo (List F)) (params : List Value) (ks : List Key)
      (rows : List F) (later : QueryResult (List F) E)
      → Holds L c m
      → IsArray L params
      → IsWhole L c params
      → keys_of params ≡ some ks
      → fetch L c params ≡ none
      → ((cache_query_impl c params (QueryResult.ok rows)).1 ≡ rows)
        × (cache_query_impl (cache_query_impl c params (QueryResult.ok rows)).0 params later
            ≡ ((cache_query_impl c params (QueryResult.ok rows)).0, rows))
  cache_query_impl_once c m params ks rows later h a w e miss =
      let saved : cache_query_impl c params (QueryResult.ok rows) ≡ (save L c params rows, rows) =
        unfold cache_query_impl in ground arith in
      let hit : fetch L (save L c params rows) params ≡ some rows =
        unfold fetch save in fetch_scoped-save_scoped L c m 0 params rows ks h a w e in
      let again : cache_query_impl (save L c params rows) params later
          ≡ (save L c params rows, rows) =
        unfold cache_query_impl in ground arith in
      rw saved (refl, again)

  -- A failed query is not stored: it gives the empty row and leaves the cache as it was.
  pub cache_query_impl_err :
      (c : FieldQueryCache Cache) (params : List Value) (e : E)
      → fetch L c params ≡ none
      → cache_query_impl c params (QueryResult.err e) ≡ (c, [])
  cache_query_impl_err c params e miss = unfold cache_query_impl in ground arith
