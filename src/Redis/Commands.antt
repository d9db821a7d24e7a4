-- ===== src/Redis/Commands.antt =====
-- `src/redis.rs`: the commands, on the pool to which a name resolves.
use wp_knowledge.Base.{ℕ, Bool, true, false, List, [], ◌∷◌, ◌++◌, map, Option, ite, Bytes}
use wp_knowledge.Base.Model.{ℤ, Bytes-discrete}
use wp_knowledge.Base.Text.{codes, decimal}
use wp_knowledge.Runtime.Types.{KnowledgeError, KnowledgeResult}
use wp_knowledge.Redis.{RedisRegistry, resolve}

-- How a command under a time limit ends.
pub data Outcome (A : Type 0) : Type 0 where
  elapsed : Outcome A
  failed : Bytes → Outcome A
  answered : A → Outcome A

-- The argument of a command; `F` stands for `f64`.
pub data Arg (F : Type 0) : Type 0 where
  text : Bytes → Arg F
  float : F → Arg F
  int : ℤ → Arg F

-- `redis::cmd` with its arguments, under a time limit, read as each of the types that the commands ask
-- for. `W` is the state of the server, on which a command that fails may have had its effect.
pub record Driver (W C F : Type 0) : Type 0 where
  pub query_bool : C → ℕ → Bytes → List (Arg F) → W → W × Outcome Bool
  pub query_bools : C → ℕ → Bytes → List (Arg F) → W → W × Outcome (List Bool)
  pub query_text : C → ℕ → Bytes → List (Arg F) → W → W × Outcome Bytes
  pub query_opt_text : C → ℕ → Bytes → List (Arg F) → W → W × Outcome (Option Bytes)

unfoldable pub cmd_err : Bytes → Bytes → Bytes → KnowledgeError
cmd_err cmd name err =
    KnowledgeError.logic (
      codes "redis command '" ++ (cmd ++ (codes "' on '" ++ (name ++ (codes "' failed: " ++ err)))))

unfoldable pub timeout_err : Bytes → Bytes → ℕ → KnowledgeError
unfolding decimal
timeout_err cmd name timeout = KnowledgeError.logic (
    codes "redis command '"
    ++ (cmd
        ++ (codes "' on '"
            ++ (name ++ (codes "' timed out after " ++ (decimal timeout ++ codes "ms"))))))

unfoldable pub resolve_pool : {C : Type 0} → Bytes → RedisRegistry C → KnowledgeResult (ℕ × C)
unfolding resolve
resolve_pool name reg = elim (resolve name reg) [
  | KnowledgeResult.err e ↦ KnowledgeResult.err e
  | KnowledgeResult.ok pool ↦ KnowledgeResult.ok (pool.command_timeout, pool.conn)
]

-- The `match` on the end of a command.
unfoldable pub conclude : {A : Type 0} → Bytes → Bytes → ℕ → Outcome A → KnowledgeResult A
unfolding cmd_err timeout_err
conclude cmd name timeout (Outcome.answered v) = KnowledgeResult.ok v
conclude cmd name timeout (Outcome.failed e) = KnowledgeResult.err (cmd_err cmd name e)
conclude cmd name timeout Outcome.elapsed = KnowledgeResult.err (timeout_err cmd name timeout)

-- The answer of the server is dropped.
unfoldable pub dropped : {W A : Type 0} → W × KnowledgeResult A → W × KnowledgeResult (Unit {0})
dropped (world, KnowledgeResult.ok v) = (world, KnowledgeResult.ok tt)
dropped (world, KnowledgeResult.err e) = (world, KnowledgeResult.err e)

unfoldable pub ping_end : Bytes → Outcome Bytes → KnowledgeResult Bool
unfolding Bytes-discrete
ping_end name (Outcome.answered result) =
    KnowledgeResult.ok (ite (Bytes-discrete result (codes "PONG")) true false)
ping_end name (Outcome.failed e) =
    KnowledgeResult.err
      (KnowledgeError.logic (codes "redis ping failed for '" ++ (name ++ (codes "': " ++ e))))
ping_end name Outcome.elapsed =
    KnowledgeResult.err
      (KnowledgeError.logic (codes "redis ping timed out for '" ++ (name ++ codes "'")))

module _ {W C F : Type 0} (driver : Driver W C F) (reg : RedisRegistry C) where
  -- What the commands have in common.
  unfoldable pub on_pool :
      {A : Type 0}
      → (C → ℕ → Bytes → List (Arg F) → W → W × Outcome A)
      → Bytes
      → Bytes
      → List (Arg F)
      → W
      → W × KnowledgeResult A
  unfolding resolve_pool conclude
  on_pool query name cmd args world = elim (resolve_pool name reg) [
    | KnowledgeResult.err e ↦ (world, KnowledgeResult.err e)
    | KnowledgeResult.ok (timeout, conn) ↦
        let (world', end) = query conn timeout cmd args world in
        (world', conclude cmd name timeout end)
  ]

  unfoldable pub bf_exists_async : Bytes → Bytes → Bytes → W → W × KnowledgeResult Bool
  unfolding on_pool
  bf_exists_async name key item =
      on_pool driver.query_bool name (codes "BF.EXISTS") (Arg.text key ∷ Arg.text item ∷ [])

  unfoldable pub hget_async : Bytes → Bytes → Bytes → W → W × KnowledgeResult (Option Bytes)
  unfolding on_pool
  hget_async name key field =
      on_pool driver.query_opt_text name (codes "HGET") (Arg.text key ∷ Arg.text field ∷ [])

  unfoldable pub get_async : Bytes → Bytes → W → W × KnowledgeResult (Option Bytes)
  unfolding on_pool
  get_async name key = on_pool driver.query_opt_text name (codes "GET") (Arg.text key ∷ [])

  unfoldable pub set_exists_async : Bytes → Bytes → Bytes → W → W × KnowledgeResult Bool
  unfolding on_pool
  set_exists_async name key member =
      on_pool driver.query_bool name (codes "SISMEMBER") (Arg.text key ∷ Arg.text member ∷ [])

  unfoldable pub bf_madd_async : Bytes → Bytes → List Bytes → W → W × KnowledgeResult (List Bool)
  unfolding on_pool
  bf_madd_async name key items =
      on_pool driver.query_bools name (codes "BF.MADD") (Arg.text key ∷ map Arg.text items)

  unfoldable pub bf_reserve_async : Bytes → Bytes → F → ℤ → W → W × KnowledgeResult (Unit {0})
  unfolding on_pool dropped
  bf_reserve_async name key error_rate capacity world = dropped (
      on_pool driver.query_text name (codes "BF.RESERVE")
        (Arg.text key ∷ Arg.float error_rate ∷ Arg.int capacity ∷ []) world)

  unfoldable pub ping_blocking : Bytes → W → W × KnowledgeResult Bool
  unfolding resolve_pool ping_end
  ping_blocking name world = elim (resolve_pool name reg) [
    | KnowledgeResult.err e ↦ (world, KnowledgeResult.err e)
    | KnowledgeResult.ok (timeout, conn) ↦
        let (world', end) = driver.query_text conn timeout (codes "PING") [] world in
        (world', ping_end name end)
  ]
