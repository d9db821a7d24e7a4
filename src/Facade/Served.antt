-- ===== src/Facade/Served.antt =====
-- `src/facade.rs` over `src/redis.rs`: the commands of the facade, on the pool that a set-up registers.
use wp_knowledge.Base.{ℕ, ◌≡◌, sym, ap, ◌∙◌, List, [], ◌∷◌, Option, none, some, Bytes, find}
use wp_knowledge.Base.Model.{Bytes-discrete}
use wp_knowledge.Base.Text.{codes}
use wp_knowledge.Runtime.Types.{KnowledgeResult}
use wp_knowledge.Runtime.State.{ResultLru, RedisLru}
use wp_knowledge.Runtime.Registry.{IsConsistent}
use wp_knowledge.Fun.{RedisServer, Call}
use wp_knowledge.Redis.{RedisPool, RedisRegistry, init_with_opts}
use wp_knowledge.Redis.Commands.{
  Arg, Driver, conclude, bf_exists_async, set_exists_async, hget_async, get_async, bf_madd_async,
}
use wp_knowledge.Redis.Answers.{on_pool-ok}
use wp_knowledge.Redis.Opened.{Origin, IsOpened, init_with_opts-IsOpened}
use wp_knowledge.Facade.Specs.{KnowDbConf}
use wp_knowledge.Facade.Setup.{Drivers, HostOver}
use wp_knowledge.Facade.Init.{init_thread_cloned_from_knowdb}
use wp_knowledge.Facade.Redis.{redis_hget}
use wp_knowledge.Facade.Uncached.{redis_branch, redis_hget-init_thread_cloned_from_knowdb}
use wp_knowledge.Facade.Twice.{
  RedisProviderSpec, IsRedisOnly, over_registry, init_redis_provider_ok,
}

-- The commands that the facade calls, on the name `knowdb`.
unfoldable pub redis_server : {W C F : Type 0} → Driver W C F → RedisRegistry C → RedisServer W
unfolding bf_exists_async set_exists_async hget_async get_async bf_madd_async
redis_server driver reg = record {
  bf_exists = λ w key item. (bf_exists_async driver reg (codes "knowdb") key item w).1;
  set_exists = λ w key member. (set_exists_async driver reg (codes "knowdb") key member w).1;
  hget = λ w key field. (hget_async driver reg (codes "knowdb") key field w).1;
  get = λ w key. (get_async driver reg (codes "knowdb") key w).1;
  bf_madd = λ w key items. bf_madd_async driver reg (codes "knowdb") key items w;
}

module _ {W C F : Type 0} (driver : Driver W C F) (connect : Bytes → KnowledgeResult C)
    (R : ResultLru) (S : RedisLru) (drivers : Drivers W RedisProviderSpec) where
  -- After a load of a configuration with Redis and no SQL provider that succeeds, in a process without
  -- a default provider: a field of a hash is read from the server at every call, on the connection and
  -- under the time limit of the pool that the registry has for the URL of the configuration, which is
  -- the one that was there or a new one with the time limit of the configuration, and the cache of
  -- Redis results is neither read nor written.
  pub redis_hget-registry :
      (hash : List Bytes → ℕ) (conf : KnowDbConf RedisProviderSpec) (spec : RedisProviderSpec)
      (uri : Bytes) (seen later : RedisRegistry C)
      (host : HostOver (over_registry connect seen later drivers) R S) (now done : ℕ) (world : W)
      (key field : Bytes)
      → IsRedisOnly conf spec
      → (init_thread_cloned_from_knowdb
          (over_registry connect seen later drivers)
          R
          S
          (KnowledgeResult.ok conf)
          uri
          host).1
        ≡ KnowledgeResult.ok tt
      → host.runtime.provider ≡ none
      → IsConsistent host.runtime
      → (pool : RedisPool C) × (find Bytes-discrete spec.connection_uri
            (init_with_opts connect
              (codes "knowdb")
              spec.connection_uri
              spec.command_timeout_ms
              seen
              later).0.pools
          ≡ some pool)
        × Origin connect spec.connection_uri spec.command_timeout_ms seen later pool
        × (redis_hget hash S
              (redis_server driver
                (init_with_opts connect
                  (codes "knowdb")
                  spec.connection_uri
                  spec.command_timeout_ms
                  seen
                  later).0)
              now
              done
              world
              key
              field
              (init_thread_cloned_from_knowdb
                (over_registry connect seen later drivers)
                R
                S
                (KnowledgeResult.ok conf)
                uri
                host).0.runtime
            ≡ (
              (init_thread_cloned_from_knowdb
                  (over_registry connect seen later drivers)
                  R
                  S
                  (KnowledgeResult.ok conf)
                  uri
                  host).0.runtime,
              Call.returns (
                  conclude
                    (codes "HGET")
                    (codes "knowdb")
                    pool.command_timeout
                    (driver.query_opt_text pool.conn pool.command_timeout
                      (codes "HGET")
                      (Arg.text key ∷ Arg.text field ∷ [])
                      world).1),
            ))
  unfolding IsRedisOnly IsOpened over_registry redis_server hget_async
  redis_hget-registry hash conf spec uri seen later host now done world key field (p, a, b, c) good
        no_provider cons =
      let drv = over_registry connect seen later drivers in
      let reg =
        (init_with_opts connect (codes "knowdb") spec.connection_uri spec.command_timeout_ms seen
          later).0 in
      let set_up =
        init_redis_provider_ok connect R S drv conf.cache conf.fun spec host
          (sym (ap (λ x. x.1) (redis_branch drv R S conf uri host p spec a b c)) ∙ good) in
      let opened =
        init_with_opts-IsOpened connect (codes "knowdb") spec.connection_uri spec.command_timeout_ms
          seen later set_up in
      (
        opened.1,
        opened.3,
        opened.4,
        redis_hget-init_thread_cloned_from_knowdb drv R S hash (redis_server driver reg) conf uri
              host p spec tt now done world key field a b c set_up no_provider cons
            ∙ ap
                (λ (x : W × KnowledgeResult (Option Bytes)). (
                  (init_thread_cloned_from_knowdb drv R S (KnowledgeResult.ok conf) uri
                      host).0.runtime,
                  Call.returns x.1,
                ))
                (on_pool-ok driver driver.query_opt_text reg (codes "knowdb") (codes "HGET")
                  (Arg.text key ∷ Arg.text field ∷ []) world opened.1 opened.2),
      )
