-- ===== src/Facade/Init.antt =====
-- `src/facade.rs`: `init_thread_cloned_from_knowdb`, from the configuration that has been read.
use wp_knowledge.Base.{ℕ, [], ◌∷◌, ◌++◌, Option, none, some, Bytes, max}
use wp_knowledge.Base.Text.{codes, strip_prefix, before}
use wp_knowledge.Lru.{Lru}
use wp_knowledge.Runtime.Types.{ProviderKind, KnowledgeResult}
use wp_knowledge.Runtime.State.{
  KnowledgeRuntime, ResultLru, RedisLru, install_provider, prune_named_providers_except,
}
use wp_knowledge.Runtime.Configure.{configure_result_cache}
use wp_knowledge.Facade.Specs.{CacheSpec, ProviderConfig, KnowDbConf, default_sqldb_name, contains}
use wp_knowledge.Facade.Setup.{Drivers, HostOver, init_sqldb, init_redis_provider}

-- The database is opened for reading.
unfoldable pub read_only : Bytes → Bytes
unfolding strip_prefix before
read_only authority_uri = elim (strip_prefix (codes "file:") authority_uri) [
  | none ↦ authority_uri
  | some rest ↦ codes "file:" ++ before b'?' rest ++ codes "?mode=ro&uri=true"
]

module _ {W P : Type 0} (drivers : Drivers W P) (R : ResultLru) (S : RedisLru) where
  unfoldable pub init_thread_cloned_from_authority :
      Bytes
      → KnowledgeRuntime W (Lru.Cache R) (Lru.Cache S)
      → KnowledgeRuntime W (Lru.Cache R) (Lru.Cache S) × KnowledgeResult ℕ
  unfolding install_provider
  init_thread_cloned_from_authority authority_uri =
      let id = drivers.from_seed ProviderKind.sqlite_authority authority_uri in
      install_provider ProviderKind.sqlite_authority id
        (λ g. KnowledgeResult.ok (drivers.thread_cloned authority_uri id g))

  unfoldable pub after_authority :
      CacheSpec
      → HostOver drivers R S
      → KnowledgeRuntime W (Lru.Cache R) (Lru.Cache S) × KnowledgeResult ℕ
      → HostOver drivers R S × KnowledgeResult (Unit {0})
  unfolding configure_result_cache prune_named_providers_except contains
  after_authority cache host (rt, KnowledgeResult.err e) =
      (record host { runtime = rt }, KnowledgeResult.err e)
  after_authority cache host (rt, KnowledgeResult.ok g) =
      let set = configure_result_cache R cache.enabled cache.capacity (max cache.ttl_ms 1) rt in
      (
        record host {
          runtime = prune_named_providers_except (λ n. contains n (default_sqldb_name ∷ [])) set;
        },
        KnowledgeResult.ok tt,
      )

  -- The branch with no provider: the database is built from the files of the tables.
  unfoldable pub init_authority :
      CacheSpec → Bytes → HostOver drivers R S → HostOver drivers R S × KnowledgeResult (Unit {0})
  unfolding init_thread_cloned_from_authority after_authority read_only
  init_authority cache authority_uri host = elim (drivers.build_authority authority_uri) [
    | KnowledgeResult.err e ↦ (host, KnowledgeResult.err e)
    | KnowledgeResult.ok u ↦
        after_authority cache host
          (init_thread_cloned_from_authority (read_only authority_uri) host.runtime)
  ]

  unfoldable pub init_provider :
      KnowDbConf P
      → Bytes
      → HostOver drivers R S
      → Option (ProviderConfig P)
      → HostOver drivers R S × KnowledgeResult (Unit {0})
  unfolding init_sqldb init_redis_provider init_authority
  init_provider conf authority_uri host none = init_authority conf.cache authority_uri host
  init_provider conf authority_uri host (some provider) =
      let redis : HostOver drivers R S × KnowledgeResult (Unit {0}) = elim provider.redis [
        | none ↦ init_authority conf.cache authority_uri host
        | some spec ↦ init_redis_provider drivers R S conf.cache conf.fun spec host
      ] in
      elim provider.sqldb [
        | none ↦ redis
        | some [] ↦ redis
        | some (first ∷ specs) ↦ init_sqldb drivers R S conf.cache first specs host
      ]

  -- `conf` is what the reading of the configuration gives.
  unfoldable pub init_thread_cloned_from_knowdb :
      KnowledgeResult (KnowDbConf P)
      → Bytes
      → HostOver drivers R S
      → HostOver drivers R S × KnowledgeResult (Unit {0})
  unfolding init_provider
  init_thread_cloned_from_knowdb (KnowledgeResult.err e) authority_uri host =
      (host, KnowledgeResult.err e)
  init_thread_cloned_from_knowdb (KnowledgeResult.ok conf) authority_uri host =
      init_provider conf authority_uri host conf.provider
