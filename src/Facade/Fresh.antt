-- ===== src/Facade/Fresh.antt =====
-- `src/facade.rs`: no answer of an earlier provider comes out of the two caches.
use wp_knowledge.Base.{
  ℕ, ◌+◌, ◌%◌, ◌≡◌, ◌≤◌, ◌<◌, refl, sym, ap, subst, ◌∙◌, List, [], Option, none, some, arith, Bytes,
  DataField, RowData, true,
}
use wp_knowledge.Base.Model.{Value}
use wp_knowledge.Runtime.Types.{
  ProviderKind, ProviderExecutor, KnowledgeResult, CachePolicy, ProviderHandle,
}
use wp_knowledge.Runtime.Params.{HashWrite, result_cache_key_fields}
use wp_knowledge.Runtime.State.{
  ResultLru, u64_size, fetch_add_1, current_handle, install_provider, install_provider_named,
  installed, register, publish, default_provider_name, current_generation,
}
use wp_knowledge.Runtime.Counters.{record_local_cache_hit, record_local_cache_miss}
use wp_knowledge.Runtime.Ask.{answer_row}
use wp_knowledge.Runtime.Entry.{execute_first_row_fields}
use wp_knowledge.Runtime.Registry.{IsConsistent, next_lem, even-fetch_add_1}
use wp_knowledge.Runtime.Reload.{IsPast, peek-future}
use wp_knowledge.Runtime.Keeps.{first_row_none}
use wp_knowledge.Cache.Fields.{fetch_scoped, prepare_generation}
use wp_knowledge.Cache.Scope.{IsCurrent}
use wp_knowledge.Cache.Generations.{prepare_generation_lem}
use wp_knowledge.Facade.Queries.{RuntimeOver}
use wp_knowledge.Facade.CacheQuery.{
  RowLru, LocalCache, generation_now, prepared, local_cache_hit, kept, after_lookup, through_local,
  cache_query_fields_with_scope,
}

-- The row that a caller gets for the provider's answer: an error gives the empty one.
abbrev pub row_or_empty : KnowledgeResult RowData → RowData
row_or_empty (KnowledgeResult.ok row) = row
row_or_empty (KnowledgeResult.err e) = []

module _ {W D : Type 0} (R : ResultLru) (L : RowLru) where
  -- Both caches know only generations that have been given out, and no installation is under way.
  pub record IsFresh (rt : RuntimeOver W D R) (c : LocalCache L) : Type 0 where
    pub past : IsPast R rt
    pub consistent : IsConsistent rt
    pub local_past : (scope g : ℕ) → IsCurrent L c scope g → g ≤ rt.next_generation

  local_cache_hit-none :
      (scope : ℕ) (params : List Value) (generation : Option ℕ) (rt : RuntimeOver W D R)
      (c : LocalCache L)
      → fetch_scoped L (prepared L generation scope c) scope params ≡ none
      → local_cache_hit R L scope params generation rt c
        ≡ (record_local_cache_miss rt, prepared L generation scope c, none)
  unfolding local_cache_hit
  local_cache_hit-none scope params generation rt c e = rw (e, local_cache_hit) refl

  local_cache_hit-some :
      (scope : ℕ) (params : List Value) (generation : Option ℕ) (rt : RuntimeOver W D R)
      (c : LocalCache L) (hit : RowData)
      → fetch_scoped L (prepared L generation scope c) scope params ≡ some hit
      → local_cache_hit R L scope params generation rt c
        ≡ (record_local_cache_hit rt, prepared L generation scope c, some hit)
  unfolding local_cache_hit
  local_cache_hit-some scope params generation rt c hit e = rw (e, local_cache_hit) refl

  module _ (scope : ℕ) (params : List Value) (generation : Option ℕ)
      (query : RuntimeOver W D R → RuntimeOver W D R × KnowledgeResult RowData)
      (rt : RuntimeOver W D R) (c : LocalCache L) where
    pub through_local_miss :
        fetch_scoped L (prepared L generation scope c) scope params ≡ none
        → through_local R L scope params generation query rt c
          ≡ kept R L scope params
              (prepared L generation scope c)
              (query (record_local_cache_miss rt))
    unfolding through_local after_lookup
    through_local_miss e =
        ap (after_lookup R L scope params query)
          (local_cache_hit-none scope params generation rt c e)

    pub through_local_hit :
        (hit : RowData)
        → fetch_scoped L (prepared L generation scope c) scope params ≡ some hit
        → through_local R L scope params generation query rt c
          ≡ (record_local_cache_hit rt, prepared L generation scope c, hit)
    unfolding through_local after_lookup
    through_local_hit hit e =
        ap (after_lookup R L scope params query)
          (local_cache_hit-some scope params generation rt c hit e)

  kept_row :
      (scope : ℕ) (params : List Value) (c : LocalCache L)
      (out : RuntimeOver W D R × KnowledgeResult RowData)
      → (kept R L scope params c out).2 ≡ row_or_empty out.1
  unfolding kept
  kept_row scope params c (rt, KnowledgeResult.ok row) = refl
  kept_row scope params c (rt, KnowledgeResult.err e) = refl

  -- The answer to the first query after a default provider is installed.
  first_row_after_install :
      (finish : List HashWrite → ℕ) (now done : ℕ) (world : W) (sql : Bytes)
      (params : List DataField) (kind : ProviderKind) (datasource_id : Bytes)
      (executor : ProviderExecutor W) (rt : RuntimeOver W D R) (g : ℕ)
      → IsPast R rt
      → rt.next_generation < g
      → (execute_first_row_fields finish R now done world sql params CachePolicy.use_global (
          record_local_cache_miss
            (installed default_provider_name kind datasource_id true
              (record rt { next_generation = g })
              (KnowledgeResult.ok executor)).0)).1
        ≡ answer_row
            (record {
              executor = executor;
              datasource_id = datasource_id;
              generation = g;
              kind = kind;
            })
            world
            sql
            params
  unfolding execute_first_row_fields installed publish register current_handle
      record_local_cache_miss result_cache_key_fields
  first_row_after_install finish now done world sql params kind datasource_id executor rt g past h =
      let handle : ProviderHandle W = record {
        executor = executor;
        datasource_id = datasource_id;
        generation = g;
        kind = kind;
      } in
      first_row_none R finish now done world handle sql params CachePolicy.use_global _
        (peek-future R _ rt past h)

  generation_now-installed :
      (kind : ProviderKind) (datasource_id : Bytes) (executor : ProviderExecutor W)
      (rt : RuntimeOver W D R) (g : ℕ)
      → rt.provider_epoch % 2 ≡ 0
      → 0 < g
      → generation_now
          (installed default_provider_name kind datasource_id true
            (record rt { next_generation = g })
            (KnowledgeResult.ok executor)).0
        ≡ some g
  unfolding generation_now current_generation installed publish register
  generation_now-installed kind datasource_id executor rt g e h =
      let even = even-fetch_add_1 rt.provider_epoch e in ground arith

  after_install :
      (finish : List HashWrite → ℕ) (now done : ℕ) (world : W) (sql : Bytes) (scope : ℕ)
      (c_params : List Value) (params : List DataField) (kind : ProviderKind)
      (datasource_id : Bytes) (executor : ProviderExecutor W) (rt : RuntimeOver W D R)
      (c : LocalCache L) (g : ℕ)
      → IsFresh rt c
      → rt.next_generation < g
      → (cache_query_fields_with_scope finish R L now done world sql scope c_params params
          (installed default_provider_name kind datasource_id true
            (record rt { next_generation = g })
            (KnowledgeResult.ok executor)).0
          c).2
        ≡ row_or_empty (
            answer_row
              (record {
                executor = executor;
                datasource_id = datasource_id;
                generation = g;
                kind = kind;
              })
              world
              sql
              params)
  unfolding cache_query_fields_with_scope prepared
  after_install finish now done world sql scope c_params params kind datasource_id executor rt c g
        fresh h =
      let set =
        (installed default_provider_name kind datasource_id true (record rt { next_generation = g })
          (KnowledgeResult.ok executor)).0 in
      let query : RuntimeOver W D R → RuntimeOver W D R × KnowledgeResult RowData =
        execute_first_row_fields finish R now done world sql params CachePolicy.use_global in
      let new : ¬ (IsCurrent L c scope g) =
        λ e. absurd (omega (arith, fresh.local_past scope g e, h)) in
      ap (λ (o : Option ℕ). (through_local R L scope c_params o query set c).2)
        (generation_now-installed kind datasource_id executor rt g fresh.consistent.quiet
          (omega (arith, h)))
      ∙ ap (λ x. x.2)
          (through_local_miss scope c_params (some g) query set c
            ((prepare_generation_lem L c scope g).1 new c_params))
      ∙ kept_row scope c_params (prepare_generation L c scope g)
          (query (record_local_cache_miss set))
      ∙ ap row_or_empty (
          first_row_after_install finish now done world sql params kind datasource_id executor rt g
            fresh.past h)

  -- From caches that know only generations given out, after a default provider is installed the first
  -- query through both, with any scope, parameters and contents, gives the row of the new provider, or
  -- the empty row if it fails: nothing that either cache holds is served. The counter of generations
  -- does not wrap.
  pub cache_query_fields-install_provider :
      (finish : List HashWrite → ℕ) (now done : ℕ) (world : W) (sql : Bytes) (scope : ℕ)
      (c_params : List Value) (params : List DataField) (kind : ProviderKind)
      (datasource_id : Bytes) (build : ℕ → KnowledgeResult (ProviderExecutor W))
      (executor : ProviderExecutor W) (rt : RuntimeOver W D R) (c : LocalCache L)
      → IsFresh rt c
      → rt.next_generation + 1 < u64_size
      → build (rt.next_generation + 1) ≡ KnowledgeResult.ok executor
      → (cache_query_fields_with_scope finish R L now done world sql scope c_params params
          (install_provider kind datasource_id build rt).0
          c).2
        ≡ row_or_empty (
            answer_row
              (record {
                executor = executor;
                datasource_id = datasource_id;
                generation = rt.next_generation + 1;
                kind = kind;
              })
              world
              sql
              params)
  unfolding install_provider install_provider_named
  cache_query_fields-install_provider finish now done world sql scope c_params params kind
        datasource_id build executor rt c fresh h e =
      let g = next_lem rt.next_generation h in
      let P : ℕ → KnowledgeResult (ProviderExecutor W) → Type 0 = λ n r.
        (cache_query_fields_with_scope finish R L now done world sql scope c_params params
          (installed default_provider_name kind datasource_id true
            (record rt { next_generation = n }) r).0
          c).2
        ≡ row_or_empty (
            answer_row
              (record {
                executor = executor;
                datasource_id = datasource_id;
                generation = rt.next_generation + 1;
                kind = kind;
              })
              world sql params) in
      subst (P (fetch_add_1 rt.next_generation)) (sym (ap build g ∙ e)) (
        subst (λ n. P n (KnowledgeResult.ok executor)) (sym g)
          (after_install finish now done world sql scope c_params params kind datasource_id executor
            rt c (rt.next_generation + 1) fresh (omega arith)))
