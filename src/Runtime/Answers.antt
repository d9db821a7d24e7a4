-- ===== src/Runtime/Answers.antt =====
-- `src/runtime.rs`: what a query through the result cache returns.
use wp_knowledge.Base.{
  ℕ, ◌-◌, ◌≤◌, ◌≡◌, refl, sym, ap, subst, ◌∙◌, Bool, true, false, ◌&&◌, List, ◌∷◌, Option, none,
  some, arith, ℕ_discrete, ltb, inl, inr, Bool-cases,
}
use wp_knowledge.Lru.{Lru, Member, here, there}
use wp_knowledge.Runtime.Types.{
  KnowledgeError, KnowledgeResult, ResultCacheKey, CachedQueryResponse, CachePolicy, QueryResponse,
  ProviderHandle, QueryRequest,
}
use wp_knowledge.Runtime.Params.{HashWrite, result_cache_key}
use wp_knowledge.Runtime.State.{KnowledgeRuntime, ResultLru}
use wp_knowledge.Runtime.Execute.{
  fetch_result_cache_by_key, save_result_cache_by_key, answered, through_cache,
  record_result_cache_hit, record_result_cache_miss, execute_with_handle,
}
use wp_knowledge.Runtime.Ask.{is_use_global, answer}

-- What is in the cache is in the log of the answers that were stored.
abbrev pub Log : Type 0
Log = List (ResultCacheKey × CachedQueryResponse)

-- A stored answer for the key, not older than the time to live.
abbrev pub IsRecent : Log → ℕ → ℕ → ResultCacheKey → QueryResponse → Type 0
IsRecent log ttl now key response =
    (e : CachedQueryResponse) × Member (key, e) log
    × (now - e.cached_at ≤ ttl)
    × (e.response ≡ response)

unfoldable pub ResultCacheKey-discrete : Discrete ResultCacheKey
ResultCacheKey-discrete = hlevel ℕ_discrete

module _ {W D : Type 0} (R : ResultLru) where
  abbrev pub IsLogged : Log → KnowledgeRuntime W (Lru.Cache R) D → Type 0
  IsLogged log rt =
      (k : ResultCacheKey) (e : CachedQueryResponse)
      → Lru.peek R k rt.result_cache ≡ some e
      → Member (k, e) log

  pub data Fetch (now : ℕ) (key : ResultCacheKey) (rt : KnowledgeRuntime W (Lru.Cache R) D)
      : Type 0 where
    hit :
        (e : CachedQueryResponse)
        → Lru.peek R key rt.result_cache ≡ some e
        → now - e.cached_at ≤ rt.result_cache_ttl_ms
        → fetch_result_cache_by_key R now key rt ≡ (rt, some e.response)
        → Fetch now key rt
    expired :
        fetch_result_cache_by_key R now key rt
          ≡ (record rt { result_cache = Lru.pop R key rt.result_cache }, none)
        → Fetch now key rt
    miss : fetch_result_cache_by_key R now key rt ≡ (rt, none) → Fetch now key rt

  pub Fetch-cases :
      (now : ℕ) (key : ResultCacheKey) (rt : KnowledgeRuntime W (Lru.Cache R) D) → Fetch now key rt
  unfolding fetch_result_cache_by_key
  Fetch-cases now key rt = go rt.result_cache_enabled (Lru.peek R key rt.result_cache) refl refl
    where
      go :
          (b : Bool) (o : Option CachedQueryResponse)
          → rt.result_cache_enabled ≡ b
          → Lru.peek R key rt.result_cache ≡ o
          → Fetch now key rt
      go false o e f = miss (ground arith)
      go true none e f = miss (ground arith)
      go true (some c) e f = elim (Bool-cases (ltb rt.result_cache_ttl_ms (now - c.cached_at))) [
        | inl old ↦ expired (ground arith)
        | inr young ↦ hit c f (ground arith) (ground arith)
      ]

  -- A log that grows still holds what is in the cache, also after an entry is dropped or stored.
  pop-IsLogged :
      (log : Log) (key : ResultCacheKey) (rt : KnowledgeRuntime W (Lru.Cache R) D)
      → IsLogged log rt
      → IsLogged log (record rt { result_cache = Lru.pop R key rt.result_cache })
  pop-IsLogged log key rt l k e p = elim (ResultCacheKey-discrete key k) [
    | yes same ↦ absurd (
        ground (
          arith,
          Lru.peek-pop_self R key rt.result_cache,
          ap (λ x. Lru.peek R x (Lru.pop R key rt.result_cache)) same,
        ))
    | no other ↦ l k e (sym (Lru.peek-pop_ne R key k rt.result_cache other) ∙ p)
  ]

  put-IsLogged :
      (log : Log) (now : ℕ) (key : ResultCacheKey) (response : QueryResponse)
      (rt : KnowledgeRuntime W (Lru.Cache R) D)
      → IsLogged log rt
      → IsLogged
          ((key, record { response = response; cached_at = now }) ∷ log)
          (save_result_cache_by_key R now key response rt)
  unfolding save_result_cache_by_key
  put-IsLogged log now key response rt l k e p =
      let new : CachedQueryResponse = record { response = response; cached_at = now } in
      elim (ResultCacheKey-discrete key k) [
        | yes same ↦
            let self = Lru.peek-put_self R key new rt.result_cache in
            let q : some new ≡ some e =
              sym self ∙ ap (λ x. Lru.peek R x (Lru.put R key new rt.result_cache)) same ∙ p in
            let eq : new ≡ e = cc in
            subst (λ x. Member x ((key, new) ∷ log)) (λ i. (same i, eq i)) here
        | no other ↦ elim (Lru.peek-put_ne R key k new rt.result_cache other) [
          | inl kept ↦ there (l k e (sym kept ∙ p))
          | inr gone ↦ absurd (ground arith)
        ]
      ]

  -- How a call through the cache, which is `used` or not, can end: with the answer of the provider
  -- and the cache as it was, if the cache is not used; with an error, not stored; with this answer,
  -- which is then in the cache; or with a stored answer that is recent. The log records what is
  -- stored.
  pub data Outcome (used : Bool) (log : Log) (now done : ℕ) (key : ResultCacheKey)
      (result : KnowledgeResult QueryResponse) (rt : KnowledgeRuntime W (Lru.Cache R) D)
      (out : KnowledgeRuntime W (Lru.Cache R) D × KnowledgeResult QueryResponse) : Type 0 where
    passed : used ≡ false → out ≡ (rt, result) → Outcome used log now done key result rt out
    failed :
        (e : KnowledgeError)
        → used ≡ true
        → result ≡ KnowledgeResult.err e
        → out.1 ≡ KnowledgeResult.err e
        → IsLogged log out.0
        → Outcome used log now done key result rt out
    stored :
        (r : QueryResponse)
        → used ≡ true
        → result ≡ KnowledgeResult.ok r
        → out.1 ≡ KnowledgeResult.ok r
        → Lru.peek R key out.0.result_cache ≡ some (record { response = r; cached_at = done })
        → IsLogged ((key, record { response = r; cached_at = done }) ∷ log) out.0
        → Outcome used log now done key result rt out
    found :
        (r : QueryResponse)
        → used ≡ true
        → IsRecent log rt.result_cache_ttl_ms now key r
        → out.1 ≡ KnowledgeResult.ok r
        → IsLogged log out.0
        → Outcome used log now done key result rt out

  module _ (now done : ℕ) (policy : CachePolicy) (key : ResultCacheKey)
      (result : KnowledgeResult QueryResponse) (rt : KnowledgeRuntime W (Lru.Cache R) D) where
    pub through_off :
        (is_use_global policy && rt.result_cache_enabled) ≡ false
        → through_cache R now done policy key result rt ≡ (rt, result)
    unfolding through_cache
    through_off off = ground arith

    module _ (seen : KnowledgeRuntime W (Lru.Cache R) D)
        (on : (is_use_global policy && rt.result_cache_enabled) ≡ true) where
      pub through_hit :
          (r : QueryResponse)
          → fetch_result_cache_by_key R now key rt ≡ (seen, some r)
          → through_cache R now done policy key result rt
            ≡ (record_result_cache_hit R seen, KnowledgeResult.ok r)
      unfolding through_cache
      through_hit r f = ground arith

      pub through_miss :
          fetch_result_cache_by_key R now key rt ≡ (seen, none)
          → through_cache R now done policy key result rt
            ≡ answered R done key (record_result_cache_miss R seen) result
      unfolding through_cache
      through_miss f = ground arith

  put-stored :
      (now : ℕ) (key : ResultCacheKey) (response : QueryResponse)
      (rt : KnowledgeRuntime W (Lru.Cache R) D)
      → Lru.peek R key (save_result_cache_by_key R now key response rt).result_cache
        ≡ some (record { response = response; cached_at = now })
  unfolding save_result_cache_by_key
  put-stored now key response rt =
      Lru.peek-put_self R key (record { response = response; cached_at = now }) rt.result_cache

  answered-Outcome :
      (used : Bool) (log : Log) (now done : ℕ) (key : ResultCacheKey)
      (result : KnowledgeResult QueryResponse) (rt seen : KnowledgeRuntime W (Lru.Cache R) D)
      → used ≡ true
      → IsLogged log seen
      → Outcome used log now done key result rt (answered R done key seen result)
  unfolding answered
  answered-Outcome used log now done key (KnowledgeResult.err e) rt seen on l =
      failed e on refl refl l
  answered-Outcome used log now done key (KnowledgeResult.ok r) rt seen on l =
      stored r on refl refl (put-stored done key r seen) (put-IsLogged log done key r seen l)

  pub through_cache-Outcome :
      (log : Log) (now done : ℕ) (policy : CachePolicy) (key : ResultCacheKey)
      (result : KnowledgeResult QueryResponse) (rt : KnowledgeRuntime W (Lru.Cache R) D)
      → IsLogged log rt
      → Outcome
          (is_use_global policy && rt.result_cache_enabled)
          log
          now
          done
          key
          result
          rt
          (through_cache R now done policy key result rt)
  unfolding record_result_cache_hit record_result_cache_miss
  through_cache-Outcome log now done policy key result rt l =
      let used = is_use_global policy && rt.result_cache_enabled in
      elim (Bool-cases (is_use_global policy && rt.result_cache_enabled)) [
        | inr off ↦
            subst (Outcome used log now done key result rt)
              (sym (through_off now done policy key result rt off)) (passed off refl)
        | inl on ↦ elim (Fetch-cases now key rt) [
          | hit e p young f ↦
              subst (Outcome used log now done key result rt)
                (sym (through_hit now done policy key result rt rt on e.response f))
                (found e.response on (e, l key e p, young, refl) refl l)
          | expired f ↦
              let popped = record rt { result_cache = Lru.pop R key rt.result_cache } in
              subst (Outcome used log now done key result rt)
                (sym (through_miss now done policy key result rt popped on f))
                (answered-Outcome used log now done key result rt _ on (pop-IsLogged log key rt l))
          | miss f ↦
              subst (Outcome used log now done key result rt)
                (sym (through_miss now done policy key result rt rt on f))
                (answered-Outcome used log now done key result rt _ on l)
        ]
      ]

  module _ (finish : List HashWrite → ℕ) (log : Log) (now done : ℕ) (world : W)
      (handle : ProviderHandle W) (rt : KnowledgeRuntime W (Lru.Cache R) D) where
    -- If the log records what is in the cache, then a query that does not go through the cache
    -- returns the provider's answer and changes nothing, and one that does returns the provider's
    -- error; or the provider's answer, which the cache then holds with the time of the answer; or an
    -- answer stored for the same key at most the time to live ago. The log, with what was stored,
    -- records the cache afterwards.
    pub execute_with_handle-Outcome :
        (req : QueryRequest)
        → IsLogged log rt
        → Outcome
            (is_use_global req.cache_policy && rt.result_cache_enabled)
            log
            now
            done
            (result_cache_key finish handle req)
            (answer handle world req)
            rt
            (execute_with_handle finish R now done world handle req rt)
    unfolding execute_with_handle
    execute_with_handle-Outcome req l = through_cache-Outcome log now done _ _ _ rt l

    -- A query that bypasses the result cache, or that is made while the cache is off, returns the
    -- provider's answer and changes nothing.
    pub execute_with_handle_off :
        (req : QueryRequest)
        → (is_use_global req.cache_policy && rt.result_cache_enabled) ≡ false
        → execute_with_handle finish R now done world handle req rt ≡ (rt, answer handle world req)
    unfolding execute_with_handle
    execute_with_handle_off req off = through_off now done _ _ _ rt off
