-- ===== src/Redis.antt =====
-- `src/redis.rs`: the registry of Redis providers, and the commands.
use wp_knowledge.Base.{
  ℕ, Bool, true, false, not, ◌&&◌, ◌||◌, List, [], ◌∷◌, ◌++◌, Option, none, some, if◌then◌else◌,
  ite, find, insert, Bytes,
}
use wp_knowledge.Base.Model.{Bytes-discrete}
use wp_knowledge.Base.Text.{codes, starts_with, decimal}
use wp_knowledge.Runtime.Types.{KnowledgeError, KnowledgeResult}
pub mod Names
pub mod Linked
pub mod Reached
pub mod Resolved
pub mod Once
pub mod Opened
pub mod Commands
pub mod Answers

-- A connection of the driver, and how long a command may take.
pub record RedisPool (C : Type 0) : Type 0 where
  pub conn : C
  pub command_timeout : ℕ

-- The URL of each name, and the pool of each URL.
pub record RedisRegistry (C : Type 0) : Type 0 where
  pub names : List (Bytes × Bytes)
  pub pools : List (Bytes × RedisPool C)

-- `HashMap::remove`, and `any` on the values.
unfoldable pub erase : {V : Type 0} → Bytes → List (Bytes × V) → List (Bytes × V)
erase k [] = []
erase k ((j, v) ∷ m) = let rest = erase k m in ite (Bytes-discrete k j) rest ((j, v) ∷ rest)

unfoldable pub has_value : Bytes → List (Bytes × Bytes) → Bool
has_value url [] = false
has_value url ((name, u) ∷ names) = ite (Bytes-discrete u url) true (has_value url names)

abbrev config_error : {A : Type 0} → Bytes → KnowledgeResult A
config_error detail = KnowledgeResult.err (KnowledgeError.config detail)

abbrev logic_error : {A : Type 0} → Bytes → KnowledgeResult A
logic_error detail = KnowledgeResult.err (KnowledgeError.logic detail)

abbrev pub default_command_timeout_ms : ℕ
default_command_timeout_ms = 100

module _ {C : Type 0} where
  unfoldable pub new : RedisRegistry C
  new = record { names = []; pools = [] }

  -- `entry(url).or_insert(pool)`.
  unfoldable pub or_insert :
      Bytes → RedisPool C → List (Bytes × RedisPool C) → List (Bytes × RedisPool C)
  unfolding find insert
  or_insert url pool pools = elim (find Bytes-discrete url pools) [
    | some existing ↦ pools
    | none ↦ insert Bytes-discrete url pool pools
  ]

  unfoldable pub register :
      Bytes → Bytes → RedisPool C → RedisRegistry C → RedisRegistry C × KnowledgeResult (Unit {0})
  unfolding find insert or_insert
  register name url pool reg = elim (find Bytes-discrete name reg.names) [
    | some u ↦
        (reg, config_error (codes "redis provider '" ++ (name ++ codes "' already registered")))
    | none ↦ (
      record {
        names = insert Bytes-discrete name url reg.names;
        pools = or_insert url pool reg.pools;
      },
      KnowledgeResult.ok tt,
    )
  ]

  unfoldable pub resolve : Bytes → RedisRegistry C → KnowledgeResult (RedisPool C)
  unfolding find
  resolve name reg = elim (find Bytes-discrete name reg.names) [
    | none ↦ logic_error (codes "redis provider '" ++ (name ++ codes "' not found"))
    | some url ↦ elim (find Bytes-discrete url reg.pools) [
      | some pool ↦ KnowledgeResult.ok pool
      | none ↦
          logic_error
            (codes "redis pool for '" ++ (name ++ (codes "' (url=" ++ (url ++ codes ") missing"))))
    ]
  ]

  -- The pool is dropped with the last name of its URL.
  unfoldable pub remove : Bytes → RedisRegistry C → RedisRegistry C
  unfolding find erase has_value
  remove name reg = elim (find Bytes-discrete name reg.names) [
    | none ↦ reg
    | some url ↦
        let names = erase name reg.names in
        record {
          names = names;
          pools = if has_value url names then reg.pools else erase url reg.pools;
        }
  ]

  unfoldable pub remove_all : RedisRegistry C → RedisRegistry C
  remove_all reg = record { names = []; pools = [] }

  unfoldable pub close : Option Bytes → RedisRegistry C → RedisRegistry C
  unfolding remove remove_all
  close none reg = remove_all reg
  close (some name) reg = remove name reg

  -- Behind the connection: another thread may have registered a pool for this URL meanwhile.
  unfoldable pub register_or_share :
      Bytes → Bytes → RedisPool C → RedisRegistry C → RedisRegistry C × KnowledgeResult (Unit {0})
  unfolding register find
  register_or_share name url pool reg = elim (find Bytes-discrete url reg.pools) [
    | some existing ↦ register name url existing reg
    | none ↦ register name url pool reg
  ]

  -- `connect` opens a client for a URL and connects it. The registry is locked twice: `reg` is what it
  -- is at first, `later` what it is when it is locked again.
  unfoldable pub init_with_opts :
      (Bytes → KnowledgeResult C)
      → Bytes
      → Bytes
      → ℕ
      → RedisRegistry C
      → RedisRegistry C
      → RedisRegistry C × KnowledgeResult (Unit {0})
  unfolding find register register_or_share starts_with
  init_with_opts connect name url command_timeout_ms reg later =
      if starts_with (codes "redis://") url || starts_with (codes "rediss://") url
      then elim (find Bytes-discrete url reg.pools) [
        | some existing ↦ register name url existing later
        | none ↦ elim (connect url) [
          | KnowledgeResult.err e ↦ (later, KnowledgeResult.err e)
          | KnowledgeResult.ok conn ↦
              register_or_share name url
                (record { conn = conn; command_timeout = command_timeout_ms }) later
        ]
      ]
      else (later, config_error (codes "invalid redis url: '" ++ (url ++ codes "'")))

  unfoldable pub init :
      (Bytes → KnowledgeResult C)
      → Bytes
      → Bytes
      → RedisRegistry C
      → RedisRegistry C
      → RedisRegistry C × KnowledgeResult (Unit {0})
  unfolding init_with_opts
  init connect name url = init_with_opts connect name url default_command_timeout_ms
