-- ===== src/Facade/Twice.antt =====
-- `src/facade.rs` with `src/redis.rs`: a configuration of Redis is loaded a second time.
use wp_knowledge.Base.{ℕ, ◌≡◌, refl, sym, ap, ◌∙◌, Option, none, some, arith, Bytes}
use wp_knowledge.Base.Text.{codes}
use wp_knowledge.Runtime.Types.{KnowledgeResult, KnowledgeError}
use wp_knowledge.Runtime.State.{ResultLru, RedisLru}
use wp_knowledge.Fun.{FunMap}
use wp_knowledge.Redis.{RedisRegistry, init_with_opts}
use wp_knowledge.Redis.Reached.{Kept}
use wp_knowledge.Redis.Opened.{init_with_opts-again}
use wp_knowledge.Facade.Specs.{CacheSpec, ProviderConfig, KnowDbConf}
use wp_knowledge.Facade.Setup.{Drivers, HostOver, init_redis_provider}
use wp_knowledge.Facade.Init.{init_thread_cloned_from_knowdb}
use wp_knowledge.Facade.Uncached.{redis_branch}

pub record RedisProviderSpec : Type 0 where
  pub connection_uri : Bytes
  pub pool_size : Option ℕ
  pub connect_timeout_ms : ℕ
  pub command_timeout_ms : ℕ

-- Redis is set up in the registry, at first as `seen`, then as `later`.
unfoldable pub over_registry :
    {W C : Type 0}
    → (Bytes → KnowledgeResult C)
    → RedisRegistry C
    → RedisRegistry C
    → Drivers W RedisProviderSpec
    → Drivers W RedisProviderSpec
unfolding init_with_opts
over_registry connect seen later drivers = record drivers {
  init_redis = λ spec.
      (init_with_opts connect (codes "knowdb") spec.connection_uri spec.command_timeout_ms seen
        later).1;
}

-- A configuration with Redis and no SQL provider.
unfoldable pub IsRedisOnly : KnowDbConf RedisProviderSpec → RedisProviderSpec → Type 0
IsRedisOnly conf spec =
    (provider : ProviderConfig RedisProviderSpec) × (conf.provider ≡ some provider)
    × (provider.sqldb ≡ none)
    × (provider.redis ≡ some spec)

module _ {W C : Type 0} (connect : Bytes → KnowledgeResult C) (R : ResultLru) (S : RedisLru) where
  pub init_redis_provider_ok :
      (drivers : Drivers W RedisProviderSpec) (cache : CacheSpec) (fun : FunMap)
      (spec : RedisProviderSpec) (host : HostOver drivers R S)
      → (init_redis_provider drivers R S cache fun spec host).1 ≡ KnowledgeResult.ok tt
      → drivers.init_redis spec ≡ KnowledgeResult.ok tt
  unfolding init_redis_provider
  init_redis_provider_ok drivers cache fun spec host good = go (drivers.init_redis spec) refl good
    where
      go :
          (r : KnowledgeResult (Unit {0}))
          → drivers.init_redis spec ≡ r
          → (init_redis_provider drivers R S cache fun spec host).1 ≡ KnowledgeResult.ok tt
          → drivers.init_redis spec ≡ KnowledgeResult.ok tt
      go (KnowledgeResult.err e) q good = ground (arith, q, good)
      go (KnowledgeResult.ok u) q good = q

  init_redis_provider_err :
      (drivers : Drivers W RedisProviderSpec) (cache : CacheSpec) (fun : FunMap)
      (spec : RedisProviderSpec) (host : HostOver drivers R S) (e : KnowledgeError)
      → drivers.init_redis spec ≡ KnowledgeResult.err e
      → init_redis_provider drivers R S cache fun spec host ≡ (host, KnowledgeResult.err e)
  unfolding init_redis_provider
  init_redis_provider_err drivers cache fun spec host e q = ground (arith, q)

  module _ (drivers : Drivers W RedisProviderSpec) where
    -- A configuration of Redis, without a SQL provider, is loaded with success. Then, as long as nothing
    -- closes the name `knowdb`, whatever else happens in the registry, every later load of such a
    -- configuration, the same or another, is an error and leaves the state of the process as it is: the
    -- cache and the functions of the second configuration are not taken over.
    pub init_thread_cloned_from_knowdb-again :
        (conf conf' : KnowDbConf RedisProviderSpec) (spec spec' : RedisProviderSpec)
        (uri uri' : Bytes) (seen later seen' out : RedisRegistry C)
        (host : HostOver (over_registry connect seen later drivers) R S)
        (host' : HostOver (over_registry connect seen' out drivers) R S)
        → IsRedisOnly conf spec
        → IsRedisOnly conf' spec'
        → (init_thread_cloned_from_knowdb
            (over_registry connect seen later drivers)
            R
            S
            (KnowledgeResult.ok conf)
            uri
            host).1
          ≡ KnowledgeResult.ok tt
        → Kept connect
            (codes "knowdb")
            (init_with_opts connect
              (codes "knowdb")
              spec.connection_uri
              spec.command_timeout_ms
              seen
              later).0
            out
        → (e : KnowledgeError) × (init_thread_cloned_from_knowdb
              (over_registry connect seen' out drivers)
              R
              S
              (KnowledgeResult.ok conf')
              uri'
              host'
            ≡ (host', KnowledgeResult.err e))
    unfolding over_registry IsRedisOnly
    init_thread_cloned_from_knowdb-again conf conf' spec spec' uri uri' seen later seen' out host
          host' (p, a, b, c) (p', a', b', c') good run =
        let first = over_registry connect seen later drivers in
        let second = over_registry connect seen' out drivers in
        let set_up =
          init_redis_provider_ok first conf.cache conf.fun spec host
            (sym (ap (λ x. x.1) (redis_branch first R S conf uri host p spec a b c)) ∙ good) in
        let again =
          init_with_opts-again connect (codes "knowdb") spec.connection_uri spec'.connection_uri
            spec.command_timeout_ms spec'.command_timeout_ms seen later out seen' set_up run in
        (
          again.0,
          redis_branch second R S conf' uri' host' p' spec' a' b' c'
              ∙ init_redis_provider_err second conf'.cache conf'.fun spec' host' again.0
                  (ap (λ x. x.1) again.1),
        )
