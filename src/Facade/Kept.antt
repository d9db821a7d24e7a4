-- ===== src/Facade/Kept.antt =====
-- `src/facade.rs`: the queries and the installations keep the caches free of later generations.
use wp_knowledge.Base.{
  ℕ, ◌≡◌, ◌≤◌, refl, sym, subst, inl, inr, List, Option, none, some, arith, Bytes, DataField,
  RowData, Option-cases,
}
use wp_knowledge.Base.Model.{Value}
use wp_knowledge.Base.Text.{codes}
use wp_knowledge.Runtime.Types.{KnowledgeError, KnowledgeResult, CachePolicy, ProviderHandle}
use wp_knowledge.Runtime.Params.{HashWrite}
use wp_knowledge.Runtime.State.{
  KnowledgeRuntime, ResultLru, current_handle, current_generation_from_provider,
}
use wp_knowledge.Runtime.Counters.{record_local_cache_hit, record_local_cache_miss}
use wp_knowledge.Runtime.Execute.{execute_first_row_fields_with_handle}
use wp_knowledge.Runtime.Entry.{execute_first_row_fields}
use wp_knowledge.Runtime.Registry.{IsConsistent, IsIssued, current_generation_lem}
use wp_knowledge.Runtime.Reload.{IsPast}
use wp_knowledge.Runtime.Keeps.{IsSame, IsSame-IsConsistent, first_row-IsSame, first_row-IsPast}
use wp_knowledge.Cache.Fields.{fetch_scoped}
use wp_knowledge.Cache.Scope.{IsCurrent}
use wp_knowledge.Cache.Announced.{save_scoped_announces, prepare_generation_announces}
use wp_knowledge.Facade.Queries.{RuntimeOver}
use wp_knowledge.Facade.CacheQuery.{
  RowLru, LocalCache, After, generation_now, prepared, kept, cache_query_fields_with_scope,
}
use wp_knowledge.Facade.Fresh.{IsFresh, through_local_hit, through_local_miss}

module _ {W D : Type 0} (R : ResultLru) where
  -- The query of the default provider, on the runtime alone.
  module _ (finish : List HashWrite → ℕ) (now done : ℕ) (world : W) (sql : Bytes)
      (params : List DataField) (rt : RuntimeOver W D R) where
    abbrev queried : RuntimeOver W D R × KnowledgeResult RowData
    queried = execute_first_row_fields finish R now done world sql params CachePolicy.use_global rt

    queried_no :
        rt.provider ≡ none
        → queried ≡ (
          rt,
          KnowledgeResult.err (KnowledgeError.logic (codes "knowledge provider not initialized")),
        )
    unfolding execute_first_row_fields current_handle
    queried_no e = ground arith

    queried_by :
        (handle : ProviderHandle W)
        → rt.provider ≡ some handle
        → queried
          ≡ execute_first_row_fields_with_handle finish R now done world handle sql params
              CachePolicy.use_global rt
    unfolding execute_first_row_fields current_handle
    queried_by handle e = simp (e, execute_first_row_fields, current_handle) refl

    queried-IsSame : IsSame R rt queried.0
    queried-IsSame = elim (Option-cases rt.provider) [
      | inl e ↦
          subst (λ x. IsSame R rt x.0) (sym (queried_no e))
            (record { provider = refl; next = refl; epoch = refl; value = refl })
      | inr (handle, e) ↦
          subst (λ x. IsSame R rt x.0) (sym (queried_by handle e))
            (first_row-IsSame R finish now done world handle sql params CachePolicy.use_global rt)
    ]

    queried-IsPast : IsConsistent rt → IsPast R rt → IsPast R queried.0
    queried-IsPast c past = elim (Option-cases rt.provider) [
      | inl e ↦ subst (λ x. IsPast R x.0) (sym (queried_no e)) past
      | inr (handle, e) ↦
          subst (λ x. IsPast R x.0) (sym (queried_by handle e))
            (first_row-IsPast R finish now done world handle sql params CachePolicy.use_global rt
              (subst (IsIssued rt.next_generation) e c.issued).1 past)
    ]

module _ (L : RowLru) where
  prepared_announces :
      (generation : Option ℕ) (scope : ℕ) (c : LocalCache L) (n : ℕ)
      → ((g : ℕ) → generation ≡ some g → g ≤ n)
      → ((s g : ℕ) → IsCurrent L c s g → g ≤ n)
      → (s g : ℕ) → IsCurrent L (prepared L generation scope c) s g
      → g ≤ n
  unfolding prepared
  prepared_announces none scope c n fresh old s g e = old s g e
  prepared_announces (some generation) scope c n fresh old s g e =
      elim (prepare_generation_announces L c scope generation s g e) [
        | inl same ↦ omega (arith, same, fresh generation refl)
        | inr known ↦ old s g known
      ]

module _ {W C D : Type 0} where
  generation_now-le :
      (rt : KnowledgeRuntime W C D)
      → IsConsistent rt
      → (g : ℕ) → generation_now rt ≡ some g
      → g ≤ rt.next_generation
  unfolding generation_now current_generation_from_provider
  generation_now-le rt c g e = elim (Option-cases rt.provider) [
    | inl no_provider ↦ absurd (ground (arith, current_generation_lem rt c))
    | inr (handle, f) ↦
        let i = subst (IsIssued rt.next_generation) f c.issued in
        let eq = current_generation_lem rt c in ground (arith, i.1)
  ]

module _ {W D : Type 0} (R : ResultLru) (L : RowLru) where
  -- What the facade does with the provider's answer.
  kept-IsFresh :
      (scope : ℕ) (params : List Value) (c : LocalCache L)
      (out : RuntimeOver W D R × KnowledgeResult RowData)
      → IsFresh R L out.0 c
      → IsFresh R L (kept R L scope params c out).0 (kept R L scope params c out).1
  unfolding kept
  kept-IsFresh scope params c (rt, KnowledgeResult.err e) f = f
  kept-IsFresh scope params c (rt, KnowledgeResult.ok row) f = record {
    past = f.past;
    consistent = f.consistent;
    local_past = λ s g e. f.local_past s g (save_scoped_announces L c scope params row s g e);
  }

  -- A counter that is not read here may differ.
  counted-IsFresh :
      (generation : Option ℕ) (scope : ℕ) (rt rt' : RuntimeOver W D R) (c : LocalCache L)
      → ((g : ℕ) → generation ≡ some g → g ≤ rt.next_generation)
      → IsFresh R L rt c
      → IsSame R rt rt'
      → IsPast R rt'
      → IsFresh R L rt' (prepared L generation scope c)
  counted-IsFresh generation scope rt rt' c known f same past = record {
    past = past;
    consistent = IsSame-IsConsistent R rt rt' same f.consistent;
    local_past = λ s g e.
        subst (λ n. g ≤ n) same.next
          (prepared_announces L generation scope c rt.next_generation known f.local_past s g e);
  }

  -- A query through the two caches, whether it is answered by one of them or by the provider, whether
  -- it succeeds or fails, and whether or not the local cache resets itself, keeps both caches free of
  -- generations that have not been given out, and the registry consistent.
  pub cache_query_fields_with_scope-IsFresh :
      (finish : List HashWrite → ℕ) (now done : ℕ) (world : W) (sql : Bytes) (scope : ℕ)
      (c_params : List Value) (params : List DataField) (rt : RuntimeOver W D R) (c : LocalCache L)
      → IsFresh R L rt c
      → let out =
          cache_query_fields_with_scope finish R L now done world sql scope c_params params rt c in
        IsFresh R L out.0 out.1
  unfolding cache_query_fields_with_scope record_local_cache_hit record_local_cache_miss
  cache_query_fields_with_scope-IsFresh finish now done world sql scope c_params params rt c f =
      let query : RuntimeOver W D R → RuntimeOver W D R × KnowledgeResult RowData =
        execute_first_row_fields finish R now done world sql params CachePolicy.use_global in
      let generation = generation_now rt in
      let known = generation_now-le rt f.consistent in
      let ready = prepared L generation scope c in
      elim (Option-cases (fetch_scoped L ready scope c_params)) [
        | inr (hit, e) ↦
            subst (λ (x : After W D R L RowData). IsFresh R L x.0 x.1)
              (sym (through_local_hit R L scope c_params generation query rt c hit e))
              (counted-IsFresh generation scope rt (record_local_cache_hit rt) c known f
                (record { provider = refl; next = refl; epoch = refl; value = refl }) f.past)
        | inl e ↦
            let missed = record_local_cache_miss rt in
            let same = queried-IsSame R finish now done world sql params missed in
            let consistent : IsConsistent missed = record {
              announced = f.consistent.announced;
              quiet = f.consistent.quiet;
              issued = f.consistent.issued;
            } in
            subst (λ (x : After W D R L RowData). IsFresh R L x.0 x.1)
              (sym (through_local_miss R L scope c_params generation query rt c e))
              (kept-IsFresh scope c_params ready (query missed) (
                counted-IsFresh generation scope rt (query missed).0 c known f
                  (record {
                    provider = same.provider;
                    next = same.next;
                    epoch = same.epoch;
                    value = same.value;
                  })
                  (queried-IsPast R finish now done world sql params missed consistent f.past)))
      ]
