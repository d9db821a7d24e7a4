-- ===== src/Facade/Setup.antt =====
-- `src/facade.rs`: the set-up of the providers from a configuration.
use wp_knowledge.Base.{
  ℕ, Bool, true, false, List, [], ◌∷◌, Option, none, some, if◌then◌else◌, ite, Bytes, max,
}
use wp_knowledge.Base.Model.{Bytes-discrete}
use wp_knowledge.Lru.{Lru}
use wp_knowledge.Runtime.Types.{ProviderKind, ProviderExecutor, KnowledgeResult}
use wp_knowledge.Runtime.State.{
  KnowledgeRuntime, ResultLru, RedisLru, install_provider_named, prune_named_providers_except,
}
use wp_knowledge.Runtime.Configure.{configure_result_cache, configure_redis_cache}
use wp_knowledge.Fun.{FunMap, register_fun_map}
use wp_knowledge.Facade.Specs.{
  SqlProviderKind, SqlProviderSpec, SqlProviderConfig, CacheSpec, default_sqldb_name,
  effective_name, contains, validate_specs, build_postgres_config, build_mysql_config,
}

-- The drivers, which connect to a server: a provider for the name, the configuration, the data source
-- and the generation. `P` is the specification of Redis.
pub record Drivers (W P : Type 0) : Type 0 where
  pub from_seed : ProviderKind → Bytes → Bytes
  pub connect_postgres :
      Bytes → SqlProviderConfig → Bytes → ℕ → KnowledgeResult (ProviderExecutor W)
  pub connect_mysql : SqlProviderConfig → Bytes → ℕ → KnowledgeResult (ProviderExecutor W)
  pub thread_cloned : Bytes → Bytes → ℕ → ProviderExecutor W
  pub init_redis : P → KnowledgeResult (Unit {0})
  pub build_authority : Bytes → KnowledgeResult (Unit {0})

-- The state of the process: the runtime, the functions, and whether Redis has been set up.
pub record Host (W C D : Type 0) : Type 0 where
  pub runtime : KnowledgeRuntime W C D
  pub funs : Option FunMap
  pub redis_ready : Bool

unfoldable pub choose_default : List Bytes → SqlProviderSpec → Bytes
unfolding contains effective_name
choose_default expected first =
    if contains default_sqldb_name expected then default_sqldb_name else effective_name first

unfoldable pub seed_of : SqlProviderSpec → Bytes
unfolding effective_name
seed_of spec = elim spec.name [ none ↦ spec.connection_uri | some name ↦ effective_name spec ]

unfoldable pub same_name : Bytes → Bytes → Bool
same_name a b = ite (Bytes-discrete a b) true false

module _ {W P : Type 0} (drivers : Drivers W P) where
  module _ {C D : Type 0} where
    unfoldable pub install_postgres_provider :
        Bytes
        → SqlProviderConfig
        → Bytes
        → Bool
        → KnowledgeRuntime W C D
        → KnowledgeRuntime W C D × KnowledgeResult ℕ
    unfolding install_provider_named
    install_postgres_provider name config datasource_seed is_default =
        let id = drivers.from_seed ProviderKind.postgres datasource_seed in
        install_provider_named name ProviderKind.postgres id
          (drivers.connect_postgres name config id) is_default

    unfoldable pub install_mysql_provider :
        Bytes
        → SqlProviderConfig
        → Bytes
        → Bool
        → KnowledgeRuntime W C D
        → KnowledgeRuntime W C D × KnowledgeResult ℕ
    unfolding install_provider_named
    install_mysql_provider name config datasource_seed is_default =
        let id = drivers.from_seed ProviderKind.mysql datasource_seed in
        install_provider_named name ProviderKind.mysql id (drivers.connect_mysql config id)
          is_default

    -- The `match` on the kind.
    unfoldable pub install_kind :
        SqlProviderKind
        → Bool
        → SqlProviderSpec
        → KnowledgeRuntime W C D
        → KnowledgeRuntime W C D × KnowledgeResult ℕ
    unfolding install_postgres_provider install_mysql_provider build_postgres_config
        build_mysql_config effective_name seed_of
    install_kind SqlProviderKind.postgres is_default spec =
        install_postgres_provider (effective_name spec) (build_postgres_config spec) (seed_of spec)
          is_default
    install_kind SqlProviderKind.mysql is_default spec =
        install_mysql_provider (effective_name spec) (build_mysql_config spec) (seed_of spec)
          is_default

    unfoldable pub install_spec :
        Bytes
        → SqlProviderSpec
        → KnowledgeRuntime W C D
        → KnowledgeRuntime W C D × KnowledgeResult ℕ
    unfolding install_kind same_name
    install_spec default_name spec =
        install_kind spec.kind (same_name (effective_name spec) default_name) spec

    -- The loop stops at the first error; what has been installed stays.
    unfoldable pub install_specs :
        Bytes
        → List SqlProviderSpec
        → KnowledgeRuntime W C D
        → KnowledgeRuntime W C D × KnowledgeResult (Unit {0})
    unfolding install_spec
    install_specs default_name [] rt = (rt, KnowledgeResult.ok tt)
    install_specs default_name (spec ∷ specs) rt =
        let (rt', result) = install_spec default_name spec rt in
        let rest = install_specs default_name specs rt' in
        elim result [
          | KnowledgeResult.err e ↦ (rt', KnowledgeResult.err e)
          | KnowledgeResult.ok generation ↦ rest
        ]

  module _ (R : ResultLru) (S : RedisLru) where
    abbrev pub HostOver : Type 0
    HostOver = Host W (Lru.Cache R) (Lru.Cache S)

    -- The branch for `[provider.sqldb]`.
    unfoldable pub after_specs :
        CacheSpec
        → List Bytes
        → HostOver
        → KnowledgeRuntime W (Lru.Cache R) (Lru.Cache S) × KnowledgeResult (Unit {0})
        → HostOver × KnowledgeResult (Unit {0})
    unfolding configure_result_cache prune_named_providers_except contains
    after_specs cache expected host (rt, KnowledgeResult.err e) =
        (record host { runtime = rt }, KnowledgeResult.err e)
    after_specs cache expected host (rt, KnowledgeResult.ok u) =
        let set = configure_result_cache R cache.enabled cache.capacity (max cache.ttl_ms 1) rt in
        (
          record host { runtime = prune_named_providers_except (λ n. contains n expected) set },
          KnowledgeResult.ok tt,
        )

    unfoldable pub init_sqldb :
        CacheSpec
        → SqlProviderSpec
        → List SqlProviderSpec
        → HostOver
        → HostOver × KnowledgeResult (Unit {0})
    unfolding validate_specs choose_default install_specs after_specs
    init_sqldb cache first specs host = elim (validate_specs (first ∷ specs)) [
      | KnowledgeResult.err e ↦ (host, KnowledgeResult.err e)
      | KnowledgeResult.ok expected ↦
          after_specs cache expected host
            (install_specs (choose_default expected first) (first ∷ specs) host.runtime)
    ]

    -- The branch for `[provider.redis]`.
    unfoldable pub init_redis_provider :
        CacheSpec → FunMap → P → HostOver → HostOver × KnowledgeResult (Unit {0})
    unfolding configure_redis_cache register_fun_map prune_named_providers_except
    init_redis_provider cache fun redis host = elim (drivers.init_redis redis) [
      | KnowledgeResult.err e ↦ (host, KnowledgeResult.err e)
      | KnowledgeResult.ok u ↦
          let set = configure_redis_cache S cache.enabled cache.capacity host.runtime in
          (
            record {
              runtime = prune_named_providers_except (λ n. false) set;
              funs = register_fun_map fun host.funs;
              redis_ready = true;
            },
            KnowledgeResult.ok tt,
          )
    ]
