-- ===== src/Facade/Uncached.antt =====
-- `src/facade.rs`: what a configuration of Redis alone sets up.
use wp_knowledge.Base.{ℕ, ◌≡◌, refl, ap, ◌∙◌, List, ◌∷◌, Option, none, some, arith, Bytes}
use wp_knowledge.Lru.{Lru}
use wp_knowledge.Base.Text.{codes}
use wp_knowledge.Runtime.Types.{KnowledgeResult, KnowledgeError, RedisCacheKey}
use wp_knowledge.Runtime.State.{
  KnowledgeRuntime, ResultLru, RedisLru, current_generation, current_generation_from_provider,
  prune_named_providers_except,
}
use wp_knowledge.Runtime.Configure.{configure_redis_cache}
use wp_knowledge.Runtime.Registry.{IsConsistent}
use wp_knowledge.Fun.{FunMap, RedisServer, Call, resolve}
use wp_knowledge.Facade.CacheQuery.{generation_now}
use wp_knowledge.Facade.Specs.{
  validate_specs, CacheSpec, ProviderConfig, KnowDbConf, SqlProviderSpec,
}
use wp_knowledge.Facade.Setup.{
  after_specs, install_specs, choose_default, Drivers, HostOver, init_sqldb, init_redis_provider,
}
use wp_knowledge.Facade.Init.{init_provider, init_thread_cloned_from_knowdb}
use wp_knowledge.Facade.Redis.{Codec, as_string, through_redis, redis_hget, facade_external_value}

module _ {W P : Type 0} (drivers : Drivers W P) (R : ResultLru) (S : RedisLru) where
  redis_provider_ok :
      (cache : CacheSpec) (fun : FunMap) (redis : P) (host : HostOver drivers R S) (u : Unit {0})
      → drivers.init_redis redis ≡ KnowledgeResult.ok u
      → host.runtime.provider ≡ none
      → IsConsistent host.runtime
      → generation_now (init_redis_provider drivers R S cache fun redis host).0.runtime ≡ none
  unfolding init_redis_provider generation_now current_generation prune_named_providers_except
      configure_redis_cache current_generation_from_provider
  redis_provider_ok cache fun redis host u e no_provider c =
      let v = c.announced in let q = c.quiet in ground arith

  pub redis_branch :
      (conf : KnowDbConf P) (authority_uri : Bytes) (host : HostOver drivers R S)
      (provider : ProviderConfig P) (redis : P)
      → conf.provider ≡ some provider
      → provider.sqldb ≡ none
      → provider.redis ≡ some redis
      → init_thread_cloned_from_knowdb drivers R S (KnowledgeResult.ok conf) authority_uri host
        ≡ init_redis_provider drivers R S conf.cache conf.fun redis host
  unfolding init_thread_cloned_from_knowdb init_provider
  redis_branch conf authority_uri host provider redis e f g = ground arith

  uncached :
      {A : Type 0} (codec : Codec A) (now done : ℕ) (ttl : Option ℕ) (key : ℕ → RedisCacheKey)
      (result : Call A) (rt : KnowledgeRuntime W (Lru.Cache R) (Lru.Cache S))
      → generation_now rt ≡ none
      → through_redis S codec now done ttl key result rt ≡ (rt, result)
  unfolding through_redis
  uncached codec now done ttl key result rt e = ground arith

  -- After a successful set-up from a configuration that has a Redis provider and no SQL one, in a
  -- process without a default provider, a field of a hash is read from the server at every call: the
  -- cache of Redis results, which the set-up has configured, is neither read nor written.
  pub redis_hget-init_thread_cloned_from_knowdb :
      (hash : List Bytes → ℕ) (server : RedisServer W) (conf : KnowDbConf P) (authority_uri : Bytes)
      (host : HostOver drivers R S) (provider : ProviderConfig P) (redis : P) (u : Unit {0})
      (now done : ℕ) (world : W) (key field : Bytes)
      → conf.provider ≡ some provider
      → provider.sqldb ≡ none
      → provider.redis ≡ some redis
      → drivers.init_redis redis ≡ KnowledgeResult.ok u
      → host.runtime.provider ≡ none
      → IsConsistent host.runtime
      → redis_hget hash S server now done world key field
          (init_thread_cloned_from_knowdb drivers R S
            (KnowledgeResult.ok conf)
            authority_uri
            host).0.runtime
        ≡ (
          (init_thread_cloned_from_knowdb drivers R S
              (KnowledgeResult.ok conf)
              authority_uri
              host).0.runtime,
          Call.returns (server.hget world key field),
        )
  unfolding redis_hget
  redis_hget-init_thread_cloned_from_knowdb hash server conf authority_uri host provider redis u now
        done world key field e f g ok no_provider c =
      uncached as_string now done none _ _ _ (
        ap (λ (x : HostOver drivers R S × KnowledgeResult (Unit {0})). generation_now x.0.runtime)
          (redis_branch conf authority_uri host provider redis e f g)
        ∙ redis_provider_ok conf.cache conf.fun redis host u ok no_provider c)

  sqldb_branch :
      (conf : KnowDbConf P) (authority_uri : Bytes) (host : HostOver drivers R S)
      (provider : ProviderConfig P) (first : SqlProviderSpec) (specs : List SqlProviderSpec)
      → conf.provider ≡ some provider
      → provider.sqldb ≡ some (first ∷ specs)
      → init_thread_cloned_from_knowdb drivers R S (KnowledgeResult.ok conf) authority_uri host
        ≡ init_sqldb drivers R S conf.cache first specs host
  unfolding init_thread_cloned_from_knowdb init_provider
  sqldb_branch conf authority_uri host provider first specs e f = ground arith

  funs-after_specs :
      (cache : CacheSpec) (expected : List Bytes) (host : HostOver drivers R S)
      (out : KnowledgeRuntime W (Lru.Cache R) (Lru.Cache S) × KnowledgeResult (Unit {0}))
      → (after_specs drivers R S cache expected host out).0.funs ≡ host.funs
  unfolding after_specs
  funs-after_specs cache expected host (rt, KnowledgeResult.err e) = refl
  funs-after_specs cache expected host (rt, KnowledgeResult.ok u) = refl

  funs-init_sqldb :
      (cache : CacheSpec) (first : SqlProviderSpec) (specs : List SqlProviderSpec)
      (host : HostOver drivers R S)
      → (init_sqldb drivers R S cache first specs host).0.funs ≡ host.funs
  unfolding init_sqldb
  funs-init_sqldb cache first specs host = go (validate_specs (first ∷ specs)) refl
    where
      go :
          (r : KnowledgeResult (List Bytes))
          → validate_specs (first ∷ specs) ≡ r
          → (init_sqldb drivers R S cache first specs host).0.funs ≡ host.funs
      go (KnowledgeResult.err e) f = ground arith
      go (KnowledgeResult.ok expected) f =
          let out =
            install_specs drivers (choose_default expected first) (first ∷ specs) host.runtime in
          let step : init_sqldb drivers R S cache first specs host
              ≡ after_specs drivers R S cache expected host out =
            ground arith in
          ap (λ (x : HostOver drivers R S × KnowledgeResult (Unit {0})). x.0.funs) step
          ∙ funs-after_specs cache expected host out

  -- In a process that has set up no functions, a configuration with an SQL provider and a Redis one
  -- sets up no functions either, whether or not it succeeds: a call of any function of its own by name
  -- is the error for no registration, and the server is not asked.
  pub facade_external_value-init_thread_cloned_from_knowdb :
      (hash : List Bytes → ℕ) (server : RedisServer W) (conf : KnowDbConf P) (authority_uri : Bytes)
      (host : HostOver drivers R S) (provider : ProviderConfig P) (first : SqlProviderSpec)
      (specs : List SqlProviderSpec) (now done : ℕ) (world : W) (service arg : Bytes)
      (rt : KnowledgeRuntime W (Lru.Cache R) (Lru.Cache S))
      → conf.provider ≡ some provider
      → provider.sqldb ≡ some (first ∷ specs)
      → host.funs ≡ none
      → facade_external_value hash S server now done world
          (init_thread_cloned_from_knowdb drivers R S
            (KnowledgeResult.ok conf)
            authority_uri
            host).0.funs
          service
          arg
          rt
        ≡ (
          rt,
          Call.returns (
              KnowledgeResult.err
                (KnowledgeError.logic (codes "external: no [fun] definitions registered"))),
        )
  unfolding facade_external_value resolve
  facade_external_value-init_thread_cloned_from_knowdb hash server conf authority_uri host provider
        first specs now done world service arg rt e f none_yet =
      let kept =
        ap (λ (x : HostOver drivers R S × KnowledgeResult (Unit {0})). x.0.funs)
          (sqldb_branch conf authority_uri host provider first specs e f)
        ∙ funs-init_sqldb conf.cache first specs host
        ∙ none_yet in
      ap (λ funs. facade_external_value hash S server now done world funs service arg rt) kept
