-- ===== src/Facade/ByHand.antt =====
-- `src/facade.rs`: the providers that a host installs without a configuration file.
use wp_knowledge.Base.{ℕ, ◌≡◌, refl, true, false, Option, none, Bytes}
use wp_knowledge.Base.Text.{codes}
use wp_knowledge.Runtime.Types.{ProviderKind, ProviderExecutor, KnowledgeResult}
use wp_knowledge.Runtime.State.{
  KnowledgeRuntime, fetch_add_1, install_provider, install_provider_named, installed, register,
}
use wp_knowledge.PoolConfig.{default_pool, with_pool_size}
use wp_knowledge.Facade.Specs.{SqlProviderConfig, default_sqldb_name}
use wp_knowledge.Facade.CacheQuery.{generation_now}
use wp_knowledge.Facade.Setup.{Drivers, install_postgres_provider, install_mysql_provider}

unfoldable pub sized_config : Bytes → Option ℕ → SqlProviderConfig
unfolding with_pool_size
sized_config connection_uri pool_size = record {
  connection_uri = connection_uri;
  pool = with_pool_size pool_size default_pool;
  session = none;
}

abbrev pub InstallOver : Type 0 → Type 0 → Type 0 → Type 0
InstallOver W C D = KnowledgeRuntime W C D → KnowledgeRuntime W C D × KnowledgeResult ℕ

module _ {W P C D : Type 0} (drivers : Drivers W P) where
  -- `memdb` makes the provider of the database in memory, of its data source and generation.
  unfoldable pub init_mem_provider : (Bytes → ℕ → ProviderExecutor W) → InstallOver W C D
  unfolding install_provider
  init_mem_provider memdb =
      let id = drivers.from_seed ProviderKind.sqlite_authority (codes "memdb") in
      install_provider ProviderKind.sqlite_authority id (λ g. KnowledgeResult.ok (memdb id g))

  unfoldable pub init_postgres_provider_with_config : SqlProviderConfig → InstallOver W C D
  unfolding install_postgres_provider
  init_postgres_provider_with_config config =
      install_postgres_provider drivers default_sqldb_name config config.connection_uri true

  unfoldable pub init_postgres_provider : Bytes → Option ℕ → InstallOver W C D
  unfolding init_postgres_provider_with_config sized_config
  init_postgres_provider connection_uri pool_size =
      init_postgres_provider_with_config (sized_config connection_uri pool_size)

  unfoldable pub init_postgres_provider_named : Bytes → SqlProviderConfig → InstallOver W C D
  unfolding install_postgres_provider
  init_postgres_provider_named name config =
      install_postgres_provider drivers name config name false

  unfoldable pub init_postgres_provider_named_uri : Bytes → Bytes → Option ℕ → InstallOver W C D
  unfolding init_postgres_provider_named sized_config
  init_postgres_provider_named_uri name connection_uri pool_size =
      init_postgres_provider_named name (sized_config connection_uri pool_size)

  unfoldable pub init_mysql_provider_with_config : SqlProviderConfig → InstallOver W C D
  unfolding install_mysql_provider
  init_mysql_provider_with_config config =
      install_mysql_provider drivers default_sqldb_name config config.connection_uri true

  unfoldable pub init_mysql_provider : Bytes → Option ℕ → InstallOver W C D
  unfolding init_mysql_provider_with_config sized_config
  init_mysql_provider connection_uri pool_size =
      init_mysql_provider_with_config (sized_config connection_uri pool_size)

  unfoldable pub init_mysql_provider_named : Bytes → SqlProviderConfig → InstallOver W C D
  unfolding install_mysql_provider
  init_mysql_provider_named name config = install_mysql_provider drivers name config name false

  -- A provider that is not installed as the default leaves the default one, whatever its name and
  -- whether or not it can be built.
  installed_beside :
      (name : Bytes) (kind : ProviderKind) (id : Bytes) (rt : KnowledgeRuntime W C D)
      (r : KnowledgeResult (ProviderExecutor W))
      → ((installed name kind id false rt r).0.provider ≡ rt.provider)
        × (generation_now (installed name kind id false rt r).0 ≡ generation_now rt)
  unfolding installed register generation_now
  installed_beside name kind id rt (KnowledgeResult.err e) = (refl, refl)
  installed_beside name kind id rt (KnowledgeResult.ok x) = (refl, refl)

  -- Neither named installation changes the default provider or the generation that is announced.
  provider-init_postgres_provider_named :
      (name : Bytes) (config : SqlProviderConfig) (rt : KnowledgeRuntime W C D)
      → ((init_postgres_provider_named name config rt).0.provider ≡ rt.provider)
        × (generation_now (init_postgres_provider_named name config rt).0 ≡ generation_now rt)
  unfolding init_postgres_provider_named install_provider_named generation_now
  provider-init_postgres_provider_named name config rt =
      installed_beside name ProviderKind.postgres _
        (record rt { next_generation = fetch_add_1 rt.next_generation }) _

  provider-init_mysql_provider_named :
      (name : Bytes) (config : SqlProviderConfig) (rt : KnowledgeRuntime W C D)
      → ((init_mysql_provider_named name config rt).0.provider ≡ rt.provider)
        × (generation_now (init_mysql_provider_named name config rt).0 ≡ generation_now rt)
  unfolding init_mysql_provider_named install_provider_named generation_now
  provider-init_mysql_provider_named name config rt =
      installed_beside name ProviderKind.mysql _
        (record rt { next_generation = fetch_add_1 rt.next_generation }) _
