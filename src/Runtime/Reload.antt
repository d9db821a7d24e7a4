-- ===== src/Runtime/Reload.antt =====
-- `src/runtime.rs`: what a new generation means for the result cache.
use wp_knowledge.Base.{
  ℕ, ◌+◌, ◌<◌, ◌≤◌, ◌≡◌, refl, sym, ap, subst, ◌∙◌, true, ◌&&◌, List, none, some, arith, Bytes,
  Bool-cases, Option-cases, inl, inr,
}
use wp_knowledge.Lru.{Lru}
use wp_knowledge.Runtime.Types.{
  ProviderKind, KnowledgeResult, ProviderExecutor, ProviderHandle, ResultCacheKey,
  CachedQueryResponse, CachePolicy, QueryRequest, QueryResponse,
}
use wp_knowledge.Runtime.Params.{HashWrite, result_cache_key}
use wp_knowledge.Runtime.State.{
  KnowledgeRuntime, ResultLru, u64_size, fetch_add_1, installed, publish, register,
  install_provider, install_provider_named, default_provider_name, current_handle,
}
use wp_knowledge.Runtime.Execute.{
  fetch_result_cache_by_key, answered, execute, execute_with_handle, save_result_cache_by_key,
  through_cache, record_result_cache_hit, record_result_cache_miss,
}
use wp_knowledge.Runtime.Ask.{is_use_global, answer}
use wp_knowledge.Runtime.Registry.{next_lem}
use wp_knowledge.Runtime.Answers.{
  ResultCacheKey-discrete, Fetch-cases, hit, expired, miss, through_off, through_hit, through_miss,
}

module _ {W D : Type 0} (R : ResultLru) where
  -- Every answer in the cache is of a generation that has been given out.
  abbrev pub IsPast : KnowledgeRuntime W (Lru.Cache R) D → Type 0
  IsPast rt =
      (k : ResultCacheKey) (e : CachedQueryResponse)
      → Lru.peek R k rt.result_cache ≡ some e
      → k.generation ≤ rt.next_generation

  fetch_future :
      (now : ℕ) (key : ResultCacheKey) (rt : KnowledgeRuntime W (Lru.Cache R) D)
      → Lru.peek R key rt.result_cache ≡ none
      → fetch_result_cache_by_key R now key rt ≡ (rt, none)
  unfolding fetch_result_cache_by_key
  fetch_future now key rt e = ground arith

  answered_result :
      (done : ℕ) (key : ResultCacheKey) (rt : KnowledgeRuntime W (Lru.Cache R) D)
      (result : KnowledgeResult QueryResponse)
      → (answered R done key rt result).1 ≡ result
  unfolding answered
  answered_result done key rt (KnowledgeResult.ok r) = refl
  answered_result done key rt (KnowledgeResult.err e) = refl

  -- A key that the cache does not hold: the provider answers.
  pub through_cache-none :
      (now done : ℕ) (policy : CachePolicy) (key : ResultCacheKey)
      (result : KnowledgeResult QueryResponse) (rt : KnowledgeRuntime W (Lru.Cache R) D)
      → Lru.peek R key rt.result_cache ≡ none
      → (through_cache R now done policy key result rt).1 ≡ result
  through_cache-none now done policy key result rt e =
      elim (Bool-cases (is_use_global policy && rt.result_cache_enabled)) [
        | inr off ↦ ap (λ x. x.1) (through_off R now done policy key result rt off)
        | inl on ↦
            ap (λ x. x.1)
              (through_miss R now done policy key result rt rt on (fetch_future now key rt e))
            ∙ answered_result done _ _ _
      ]

  -- A key of a generation that has not been given out is not in the cache.
  pub peek-future :
      (key : ResultCacheKey) (rt : KnowledgeRuntime W (Lru.Cache R) D)
      → IsPast rt
      → rt.next_generation < key.generation
      → Lru.peek R key rt.result_cache ≡ none
  peek-future key rt past h = elim (Option-cases (Lru.peek R key rt.result_cache)) [
    | inl gone ↦ gone
    | inr (e, p) ↦ absurd (omega (arith, past key e p, h))
  ]

  IsPast-pop :
      (key : ResultCacheKey) (rt : KnowledgeRuntime W (Lru.Cache R) D)
      → IsPast rt
      → IsPast (record rt { result_cache = Lru.pop R key rt.result_cache })
  IsPast-pop key rt past k e p = elim (ResultCacheKey-discrete key k) [
    | yes same ↦ absurd (
        ground (
          arith,
          Lru.peek-pop_self R key rt.result_cache,
          ap (λ x. Lru.peek R x (Lru.pop R key rt.result_cache)) same,
        ))
    | no other ↦ past k e (sym (Lru.peek-pop_ne R key k rt.result_cache other) ∙ p)
  ]

  IsPast-answered :
      (done : ℕ) (key : ResultCacheKey) (rt : KnowledgeRuntime W (Lru.Cache R) D)
      (result : KnowledgeResult QueryResponse)
      → key.generation ≤ rt.next_generation
      → IsPast rt
      → IsPast (answered R done key rt result).0
  unfolding answered save_result_cache_by_key
  IsPast-answered done key rt (KnowledgeResult.err e) g past k c p = past k c p
  IsPast-answered done key rt (KnowledgeResult.ok r) g past k e p =
      let new : CachedQueryResponse = record { response = r; cached_at = done } in
      elim (ResultCacheKey-discrete key k) [
        | yes same ↦ subst (λ (x : ResultCacheKey). x.generation ≤ rt.next_generation) same g
        | no other ↦ elim (Lru.peek-put_ne R key k new rt.result_cache other) [
          | inl kept ↦ past k e (sym kept ∙ p)
          | inr gone ↦ absurd (ground arith)
        ]
      ]

  pub through_cache-IsPast :
      (now done : ℕ) (policy : CachePolicy) (key : ResultCacheKey)
      (result : KnowledgeResult QueryResponse) (rt : KnowledgeRuntime W (Lru.Cache R) D)
      → key.generation ≤ rt.next_generation
      → IsPast rt
      → IsPast (through_cache R now done policy key result rt).0
  unfolding record_result_cache_hit record_result_cache_miss
  through_cache-IsPast now done policy key result rt g past =
      elim (Bool-cases (is_use_global policy && rt.result_cache_enabled)) [
        | inr off ↦ subst (λ x. IsPast x.0) (sym (through_off R now done _ _ _ rt off)) past
        | inl on ↦ elim (Fetch-cases R now key rt) [
          | hit e p young f ↦
              subst (λ x. IsPast x.0) (sym (through_hit R now done _ _ _ rt rt on e.response f))
                past
          | expired f ↦
              let popped : KnowledgeRuntime W (Lru.Cache R) D = record rt {
                result_cache = Lru.pop R key rt.result_cache;
              } in
              subst (λ x. IsPast x.0) (sym (through_miss R now done _ _ _ rt popped on f))
                (IsPast-answered done key (record_result_cache_miss R popped) _ g
                  (IsPast-pop key rt past))
          | miss f ↦
              subst (λ x. IsPast x.0) (sym (through_miss R now done _ _ _ rt rt on f))
                (IsPast-answered done key (record_result_cache_miss R rt) _ g past)
        ]
      ]

  -- A query by a provider whose generation has been given out stores nothing of a later generation.
  pub execute_with_handle-IsPast :
      (finish : List HashWrite → ℕ) (now done : ℕ) (world : W) (handle : ProviderHandle W)
      (req : QueryRequest) (rt : KnowledgeRuntime W (Lru.Cache R) D)
      → handle.generation ≤ rt.next_generation
      → IsPast rt
      → IsPast (execute_with_handle finish R now done world handle req rt).0
  unfolding execute_with_handle result_cache_key
  execute_with_handle-IsPast finish now done world handle req rt g past =
      through_cache-IsPast now done _ _ _ rt g past

  execute_none :
      (finish : List HashWrite → ℕ) (now done : ℕ) (world : W) (handle : ProviderHandle W)
      (req : QueryRequest) (rt : KnowledgeRuntime W (Lru.Cache R) D)
      → Lru.peek R (result_cache_key finish handle req) rt.result_cache ≡ none
      → (execute_with_handle finish R now done world handle req rt).1 ≡ answer handle world req
  unfolding execute_with_handle
  execute_none finish now done world handle req rt e = through_cache-none now done _ _ _ rt e

  after_install :
      (finish : List HashWrite → ℕ) (now done : ℕ) (world : W) (req : QueryRequest) (name : Bytes)
      (kind : ProviderKind) (datasource_id : Bytes) (executor : ProviderExecutor W)
      (rt : KnowledgeRuntime W (Lru.Cache R) D) (g : ℕ)
      → IsPast rt
      → rt.next_generation < g
      → (execute finish R now done world req
          (installed name kind datasource_id true
            (record rt { next_generation = g })
            (KnowledgeResult.ok executor)).0).1
        ≡ answer
            (record {
              executor = executor;
              datasource_id = datasource_id;
              generation = g;
              kind = kind;
            })
            world
            req
  unfolding execute installed publish register current_handle result_cache_key
  after_install finish now done world req name kind datasource_id executor rt g past h =
      let handle : ProviderHandle W = record {
        executor = executor;
        datasource_id = datasource_id;
        generation = g;
        kind = kind;
      } in
      execute_none finish now done world handle req _
        (peek-future (result_cache_key finish handle req) rt past h)

  -- After a default provider is installed its answer is what the first query returns: no answer of an
  -- earlier provider is served, whatever the cache holds, also for the same data source and query.
  pub execute-install_provider :
      (finish : List HashWrite → ℕ) (now done : ℕ) (world : W) (req : QueryRequest)
      (kind : ProviderKind) (datasource_id : Bytes)
      (build : ℕ → KnowledgeResult (ProviderExecutor W)) (executor : ProviderExecutor W)
      (rt : KnowledgeRuntime W (Lru.Cache R) D)
      → IsPast rt
      → rt.next_generation + 1 < u64_size
      → build (rt.next_generation + 1) ≡ KnowledgeResult.ok executor
      → (execute finish R now done world req (install_provider kind datasource_id build rt).0).1
        ≡ answer
            (record {
              executor = executor;
              datasource_id = datasource_id;
              generation = rt.next_generation + 1;
              kind = kind;
            })
            world
            req
  unfolding install_provider install_provider_named
  execute-install_provider finish now done world req kind datasource_id build executor rt past h e =
      let g = next_lem rt.next_generation h in
      let eq : build (fetch_add_1 rt.next_generation) ≡ KnowledgeResult.ok executor =
        ap build g ∙ e in
      let P : ℕ → KnowledgeResult (ProviderExecutor W) → Type 0 = λ n r.
        (execute finish R now done world req
          (installed default_provider_name kind datasource_id true
            (record rt { next_generation = n }) r).0).1
        ≡ answer
            (record {
              executor = executor;
              datasource_id = datasource_id;
              generation = rt.next_generation + 1;
              kind = kind;
            })
            world req in
      subst (P (fetch_add_1 rt.next_generation)) (sym eq) (
        subst (λ n. P n (KnowledgeResult.ok executor)) (sym g)
          (after_install finish now done world req default_provider_name kind datasource_id executor
            rt (rt.next_generation + 1) past (omega arith)))
