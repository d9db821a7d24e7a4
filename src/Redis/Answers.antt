-- ===== src/Redis/Answers.antt =====
-- `src/redis.rs`: what a command answers.
use wp_knowledge.Base.{
  ℕ, ◌≡◌, sym, ap, ◌∙◌, ◌⊎◌, inl, inr, List, ◌++◌, none, some, arith, find, Bytes,
}
use wp_knowledge.Base.Model.{ℤ, Bytes-discrete}
use wp_knowledge.Base.Text.{codes}
use wp_knowledge.Runtime.Types.{KnowledgeError, KnowledgeResult}
use wp_knowledge.Redis.{RedisPool, RedisRegistry, resolve}
use wp_knowledge.Redis.Reached.{Reached, Kept}
use wp_knowledge.Redis.Resolved.{resolve-Reached}
use wp_knowledge.Redis.Once.{resolve-Kept}
use wp_knowledge.Redis.Commands.{
  Outcome, Arg, Driver, conclude, resolve_pool, on_pool, bf_exists_async, hget_async, get_async,
  set_exists_async, bf_madd_async, dropped, bf_reserve_async, ping_blocking, ping_end,
}

module _ {W C F A : Type 0} (driver : Driver W C F)
    (query : C → ℕ → Bytes → List (Arg F) → W → W × Outcome A) where
  on_pool-err :
      (reg : RedisRegistry C) (name cmd : Bytes) (args : List (Arg F)) (world : W)
      (e : KnowledgeError)
      → resolve name reg ≡ KnowledgeResult.err e
      → on_pool driver reg query name cmd args world ≡ (world, KnowledgeResult.err e)
  unfolding on_pool resolve_pool
  on_pool-err reg name cmd args world e q = ground (arith, q)

  pub on_pool-ok :
      (reg : RedisRegistry C) (name cmd : Bytes) (args : List (Arg F)) (world : W)
      (pool : RedisPool C)
      → resolve name reg ≡ KnowledgeResult.ok pool
      → on_pool driver reg query name cmd args world ≡ (
        (query pool.conn pool.command_timeout cmd args world).0,
        conclude cmd name pool.command_timeout
            (query pool.conn pool.command_timeout cmd args world).1,
      )
  unfolding on_pool resolve_pool
  on_pool-ok reg name cmd args world pool q = ground (arith, q)

  on_pool-same :
      (reg out : RedisRegistry C) (name cmd : Bytes) (args : List (Arg F)) (world : W)
      (pool : RedisPool C)
      → resolve name reg ≡ KnowledgeResult.ok pool
      → resolve name out ≡ KnowledgeResult.ok pool
      → on_pool driver out query name cmd args world ≡ on_pool driver reg query name cmd args world
  on_pool-same reg out name cmd args world pool q r =
      on_pool-ok out name cmd args world pool r ∙ sym (on_pool-ok reg name cmd args world pool q)

  -- In a registry that calls of init and close led to: a command on a name without a URL is the error
  -- `not found`, and the server is left alone; on a name with a URL it is run once, on the connection and
  -- under the time limit of the pool that stands behind the URL, and its end is the answer, its failure or
  -- the error that the limit has passed. The error that the pool is missing never comes.
  pub on_pool-Reached :
      (connect : Bytes → KnowledgeResult C) (reg : RedisRegistry C) (name cmd : Bytes)
      (args : List (Arg F)) (world : W)
      → Reached connect reg
      → ((find Bytes-discrete name reg.names ≡ none)
          × (on_pool driver reg query name cmd args world ≡ (
            world,
            KnowledgeResult.err
                (KnowledgeError.logic (codes "redis provider '" ++ (name ++ codes "' not found"))),
          )))
        ⊎ ((url : Bytes) × (pool : RedisPool C) × (find Bytes-discrete name reg.names ≡ some url)
            × (find Bytes-discrete url reg.pools ≡ some pool)
            × (on_pool driver reg query name cmd args world ≡ (
              (query pool.conn pool.command_timeout cmd args world).0,
              conclude cmd name pool.command_timeout
                  (query pool.conn pool.command_timeout cmd args world).1,
            )))
  on_pool-Reached connect reg name cmd args world r = elim (resolve-Reached connect reg name r) [
    | inl (e, f) ↦ inl (e, on_pool-err reg name cmd args world _ f)
    | inr (url, pool, e, f, g) ↦ inr (url, pool, e, f, on_pool-ok reg name cmd args world pool g)
  ]

module _ {W C F : Type 0} (driver : Driver W C F) (connect : Bytes → KnowledgeResult C) where
  ping_blocking-same :
      (reg out : RedisRegistry C) (name : Bytes) (world : W) (pool : RedisPool C)
      → resolve name reg ≡ KnowledgeResult.ok pool
      → resolve name out ≡ KnowledgeResult.ok pool
      → ping_blocking driver out name world ≡ ping_blocking driver reg name world
  unfolding ping_blocking resolve_pool ping_end
  ping_blocking-same reg out name world pool q r = ground (arith, q, r)

  -- Until its name is closed, a command answers the same in the same state of the server, whatever
  -- other names are registered and closed meanwhile: each of the six commands and the ping.
  commands-Kept :
      (name : Bytes) (pool : RedisPool C) (reg out : RedisRegistry C) (key item : Bytes)
      (items : List Bytes) (rate : F) (capacity : ℤ) (world : W)
      → Kept connect name reg out
      → resolve name reg ≡ KnowledgeResult.ok pool
      → (bf_exists_async driver out name key item world
          ≡ bf_exists_async driver reg name key item world)
        × (hget_async driver out name key item world ≡ hget_async driver reg name key item world)
        × (get_async driver out name key world ≡ get_async driver reg name key world)
        × (set_exists_async driver out name key item world
            ≡ set_exists_async driver reg name key item world)
        × (bf_madd_async driver out name key items world
            ≡ bf_madd_async driver reg name key items world)
        × (bf_reserve_async driver out name key rate capacity world
            ≡ bf_reserve_async driver reg name key rate capacity world)
        × (ping_blocking driver out name world ≡ ping_blocking driver reg name world)
  unfolding bf_exists_async hget_async get_async set_exists_async bf_madd_async bf_reserve_async
  commands-Kept name pool reg out key item items rate capacity world run e =
      let after : resolve name out ≡ KnowledgeResult.ok pool =
        resolve-Kept connect name pool reg out run e in
      (
        on_pool-same driver driver.query_bool reg out name _ _ world pool e after,
        on_pool-same driver driver.query_opt_text reg out name _ _ world pool e after,
        on_pool-same driver driver.query_opt_text reg out name _ _ world pool e after,
        on_pool-same driver driver.query_bool reg out name _ _ world pool e after,
        on_pool-same driver driver.query_bools reg out name _ _ world pool e after,
        ap dropped (on_pool-same driver driver.query_text reg out name _ _ world pool e after),
        ping_blocking-same reg out name world pool e after,
      )
