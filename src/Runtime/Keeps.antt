-- ===== src/Runtime/Keeps.antt =====
-- `src/runtime.rs`: what a query leaves alone in the runtime.
use wp_knowledge.Base.{
  ℕ, ◌≡◌, refl, sym, ap, subst, ◌∙◌, ◌≤◌, ◌%◌, ◌&&◌, List, none, Bool-cases, inl, inr, Bytes,
  DataField, RowData,
}
use wp_knowledge.Lru.{Lru}
use wp_knowledge.Runtime.Types.{
  KnowledgeResult, ProviderHandle, ResultCacheKey, CachePolicy, QueryModeTag, QueryResponse,
  into_row,
}
use wp_knowledge.Runtime.Params.{HashWrite, result_cache_key_fields}
use wp_knowledge.Runtime.State.{KnowledgeRuntime, ResultLru}
use wp_knowledge.Runtime.Execute.{
  answered, through_cache, save_result_cache_by_key, record_result_cache_hit,
  record_result_cache_miss, execute_first_row_fields_with_handle,
}
use wp_knowledge.Runtime.Ask.{is_use_global, map_result, answer_row}
use wp_knowledge.Runtime.Registry.{IsConsistent, IsIssued, generation_of}
use wp_knowledge.Runtime.Answers.{
  Fetch-cases, hit, expired, miss, through_off, through_hit, through_miss,
}
use wp_knowledge.Runtime.Reload.{IsPast, through_cache-none, through_cache-IsPast}

map_result-row :
    (r : KnowledgeResult RowData) → map_result into_row (map_result QueryResponse.row r) ≡ r
unfolding map_result into_row
map_result-row (KnowledgeResult.ok r) = refl
map_result-row (KnowledgeResult.err e) = refl

module _ {W D : Type 0} (R : ResultLru) where
  -- The two runtimes have one default provider, and have given out the same generations.
  pub record IsSame (a b : KnowledgeRuntime W (Lru.Cache R) D) : Type 0 where
    pub provider : a.provider ≡ b.provider
    pub next : a.next_generation ≡ b.next_generation
    pub epoch : a.provider_epoch ≡ b.provider_epoch
    pub value : a.current_generation_value ≡ b.current_generation_value

  pub IsSame-IsConsistent :
      (a b : KnowledgeRuntime W (Lru.Cache R) D) → IsSame a b → IsConsistent a → IsConsistent b
  IsSame-IsConsistent a b s c = record {
    announced = sym s.value ∙ c.announced ∙ ap generation_of s.provider;
    quiet = subst (λ n. n % 2 ≡ 0) s.epoch c.quiet;
    issued =
        subst (λ p. IsIssued b.next_generation p) s.provider
          (subst (λ n. IsIssued n a.provider) s.next c.issued);
  }

  answered-IsSame :
      (done : ℕ) (key : ResultCacheKey) (rt : KnowledgeRuntime W (Lru.Cache R) D)
      (result : KnowledgeResult QueryResponse)
      → IsSame rt (answered R done key rt result).0
  unfolding answered save_result_cache_by_key
  answered-IsSame done key rt (KnowledgeResult.ok r) = record {
    provider = refl;
    next = refl;
    epoch = refl;
    value = refl;
  }
  answered-IsSame done key rt (KnowledgeResult.err e) = record {
    provider = refl;
    next = refl;
    epoch = refl;
    value = refl;
  }

  through_cache-IsSame :
      (now done : ℕ) (policy : CachePolicy) (key : ResultCacheKey)
      (result : KnowledgeResult QueryResponse) (rt : KnowledgeRuntime W (Lru.Cache R) D)
      → IsSame rt (through_cache R now done policy key result rt).0
  unfolding record_result_cache_hit record_result_cache_miss
  through_cache-IsSame now done policy key result rt =
      elim (Bool-cases (is_use_global policy && rt.result_cache_enabled)) [
        | inr off ↦
            subst (λ x. IsSame rt x.0) (sym (through_off R now done _ _ _ rt off))
              (record { provider = refl; next = refl; epoch = refl; value = refl })
        | inl on ↦ elim (Fetch-cases R now key rt) [
          | hit e p young f ↦
              subst (λ x. IsSame rt x.0) (sym (through_hit R now done _ _ _ rt rt on e.response f))
                (record { provider = refl; next = refl; epoch = refl; value = refl })
          | expired f ↦
              let popped : KnowledgeRuntime W (Lru.Cache R) D = record rt {
                result_cache = Lru.pop R key rt.result_cache;
              } in
              let s = answered-IsSame done key (record_result_cache_miss R popped) result in
              subst (λ x. IsSame rt x.0) (sym (through_miss R now done _ _ _ rt popped on f))
                (record { provider = s.provider; next = s.next; epoch = s.epoch; value = s.value })
          | miss f ↦
              let s = answered-IsSame done key (record_result_cache_miss R rt) result in
              subst (λ x. IsSame rt x.0) (sym (through_miss R now done _ _ _ rt rt on f))
                (record { provider = s.provider; next = s.next; epoch = s.epoch; value = s.value })
        ]
      ]

  module _ (finish : List HashWrite → ℕ) (now done : ℕ) (world : W) (handle : ProviderHandle W)
      (sql : Bytes) (params : List DataField) (policy : CachePolicy)
      (rt : KnowledgeRuntime W (Lru.Cache R) D) where
    abbrev row_key : ResultCacheKey
    row_key = result_cache_key_fields finish handle sql params QueryModeTag.first_row

    abbrev asked : KnowledgeRuntime W (Lru.Cache R) D × KnowledgeResult RowData
    asked = execute_first_row_fields_with_handle finish R now done world handle sql params policy rt

    pub first_row_none :
        Lru.peek R row_key rt.result_cache ≡ none → asked.1 ≡ answer_row handle world sql params
    unfolding execute_first_row_fields_with_handle
    first_row_none e =
        ap (map_result into_row) (through_cache-none R now done policy row_key _ rt e)
        ∙ map_result-row (answer_row handle world sql params)

    pub first_row-IsSame : IsSame rt asked.0
    unfolding execute_first_row_fields_with_handle
    first_row-IsSame = through_cache-IsSame now done policy row_key _ rt

    pub first_row-IsPast : handle.generation ≤ rt.next_generation → IsPast R rt → IsPast R asked.0
    unfolding execute_first_row_fields_with_handle result_cache_key_fields
    first_row-IsPast g past = through_cache-IsPast R now done policy row_key _ rt g past
