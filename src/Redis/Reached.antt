-- ===== src/Redis/Reached.antt =====
-- `src/redis.rs`: the registries that calls lead to.
use wp_knowledge.Base.{
  ℕ, ◌≡◌, ◌≢◌, refl, sym, subst, ◌⊎◌, inl, inr, true, ◌||◌, ◌++◌, Option, none, some, arith,
  if◌then◌else◌, find, insert, Bytes, Bool-cases, Option-cases,
}
use wp_knowledge.Base.Model.{Bytes-discrete}
use wp_knowledge.Base.Text.{codes, starts_with}
use wp_knowledge.Runtime.Types.{KnowledgeError, KnowledgeResult}
use wp_knowledge.Redis.{
  RedisPool, RedisRegistry, erase, has_value, new, or_insert, register, remove, close,
  register_or_share, init_with_opts,
}
use wp_knowledge.Redis.Names.{IsUnique}
use wp_knowledge.Redis.Linked.{IsLinked, insert-IsLinked, erase-IsLinked}

module _ {C : Type 0} where
  -- A call with a name that is there changes nothing.
  pub register-known :
      (name url : Bytes) (pool : RedisPool C) (reg : RedisRegistry C) (u : Bytes)
      → find Bytes-discrete name reg.names ≡ some u
      → register name url pool reg ≡ (
        reg,
        KnowledgeResult.err (
            KnowledgeError.config
              (codes "redis provider '" ++ (name ++ codes "' already registered"))),
      )
  unfolding register
  register-known name url pool reg u e = ground (arith, e)

  pub register-fresh :
      (name url : Bytes) (pool : RedisPool C) (reg : RedisRegistry C)
      → find Bytes-discrete name reg.names ≡ none
      → register name url pool reg ≡ (
        record {
          names = insert Bytes-discrete name url reg.names;
          pools = or_insert url pool reg.pools;
        },
        KnowledgeResult.ok tt,
      )
  unfolding register
  register-fresh name url pool reg e = ground (arith, e)

  pub register-IsLinked :
      (name url : Bytes) (pool : RedisPool C) (reg : RedisRegistry C)
      → IsLinked reg
      → IsLinked (register name url pool reg).0
  register-IsLinked name url pool reg h = elim (Option-cases (find Bytes-discrete name reg.names)) [
    | inl e ↦ rw (register-fresh name url pool reg e) (insert-IsLinked name url pool reg e h)
    | inr (u, e) ↦ rw (register-known name url pool reg u e) h
  ]

  pub remove-known :
      (name : Bytes) (reg : RedisRegistry C) (url : Bytes)
      → find Bytes-discrete name reg.names ≡ some url
      → remove name reg ≡ record {
        names = erase name reg.names;
        pools = if has_value url (erase name reg.names) then reg.pools else erase url reg.pools;
      }
  unfolding remove
  remove-known name reg url e = ground (arith, e)

  pub remove-unknown :
      (name : Bytes) (reg : RedisRegistry C)
      → find Bytes-discrete name reg.names ≡ none
      → remove name reg ≡ reg
  unfolding remove
  remove-unknown name reg e = ground (arith, e)

  pub remove-IsLinked :
      (name : Bytes) (reg : RedisRegistry C) → IsLinked reg → IsLinked (remove name reg)
  remove-IsLinked name reg h = elim (Option-cases (find Bytes-discrete name reg.names)) [
    | inl e ↦ rw (remove-unknown name reg e) h
    | inr (url, e) ↦ rw (remove-known name reg url e) (erase-IsLinked name url reg e h)
  ]

  pub new-IsLinked : IsLinked {C = C} new
  unfolding new find IsUnique
  new-IsLinked = record {
    unique = tt;
    pooled = λ n u f. ground (arith, f);
    used = λ u p f. ground (arith, f);
  }

-- What a call of init does, `seen` the registry that was locked first: it registers the name with a
-- pool of the URL, or fails and leaves the registry as it is.
pub data IsInit {C : Type 0} (connect : Bytes → KnowledgeResult C) (name url : Bytes) (t : ℕ)
    (seen later : RedisRegistry C) : RedisRegistry C × KnowledgeResult (Unit {0}) → Type 0 where
  failed :
      {out : RedisRegistry C × KnowledgeResult (Unit {0})} (e : KnowledgeError)
      → out ≡ (later, KnowledgeResult.err e)
      → IsInit connect name url t seen later out
  registered :
      {out : RedisRegistry C × KnowledgeResult (Unit {0})} (pool : RedisPool C)
      → (find Bytes-discrete url later.pools ≡ some pool)
        ⊎ ((find Bytes-discrete url seen.pools ≡ some pool)
            ⊎ ((find Bytes-discrete url seen.pools ≡ none)
                × (connect url ≡ KnowledgeResult.ok pool.conn)
                × (pool.command_timeout ≡ t)))
      → out ≡ register name url pool later
      → IsInit connect name url t seen later out

module _ {C : Type 0} (connect : Bytes → KnowledgeResult C) where
  register_or_share-IsInit :
      (name url : Bytes) (t : ℕ) (pool : RedisPool C) (seen later : RedisRegistry C)
      → find Bytes-discrete url seen.pools ≡ none
      → connect url ≡ KnowledgeResult.ok pool.conn
      → pool.command_timeout ≡ t
      → IsInit connect name url t seen later (register_or_share name url pool later)
  unfolding register_or_share
  register_or_share-IsInit name url t pool seen later g c d =
      elim (Option-cases (find Bytes-discrete url later.pools)) [
        | inl f ↦ IsInit.registered pool (inr (inr (g, c, d))) (ground (arith, f))
        | inr (p, f) ↦ IsInit.registered p (inl f) (ground (arith, f))
      ]

  pub init_with_opts-IsInit :
      (name url : Bytes) (t : ℕ) (reg later : RedisRegistry C)
      → IsInit connect name url t reg later (init_with_opts connect name url t reg later)
  unfolding init_with_opts
  init_with_opts-IsInit name url t reg later =
      elim (Bool-cases
        (starts_with (codes "redis://") url || starts_with (codes "rediss://") url)) [
          | inr bad ↦
              IsInit.failed
                (KnowledgeError.config (codes "invalid redis url: '" ++ (url ++ codes "'")))
                (ground (arith, bad))
          | inl good ↦ elim (Option-cases (find Bytes-discrete url reg.pools)) [
            | inr (p, f) ↦ IsInit.registered p (inr (inl f)) (ground (arith, good, f))
            | inl f ↦ go (connect url) refl good f
          ]
        ]
    where
      go :
          (r : KnowledgeResult C)
          → connect url ≡ r
          → (starts_with (codes "redis://") url || starts_with (codes "rediss://") url) ≡ true
          → find Bytes-discrete url reg.pools ≡ none
          → IsInit connect name url t reg later (init_with_opts connect name url t reg later)
      go (KnowledgeResult.err e) q good f = IsInit.failed e (ground (arith, good, f, q))
      go (KnowledgeResult.ok conn) q good f =
          let pool : RedisPool C = record { conn = conn; command_timeout = t } in
          let same : init_with_opts connect name url t reg later
              ≡ register_or_share name url pool later =
            ground (arith, good, f, q) in
          subst (IsInit connect name url t reg later) (sym same)
            (register_or_share-IsInit name url t pool reg later f q refl)

  -- The calls that change the registry: init, with whatever registry it saw first, and close with or
  -- without a name.
  pub data Step (reg : RedisRegistry C) : RedisRegistry C → Type 0 where
    init_step :
        {out : RedisRegistry C} (name url : Bytes) (t : ℕ) (seen : RedisRegistry C)
        → out ≡ (init_with_opts connect name url t seen reg).0
        → Step reg out
    close_step : {out : RedisRegistry C} (name : Option Bytes) → out ≡ close name reg → Step reg out

  pub data Reached : RedisRegistry C → Type 0 where
    start : {reg : RedisRegistry C} → reg ≡ new → Reached reg
    after : {reg out : RedisRegistry C} → Reached reg → Step reg out → Reached out

  -- Calls that do not close `name`.
  pub data Kept (name : Bytes) (reg : RedisRegistry C) : RedisRegistry C → Type 0 where
    start : {out : RedisRegistry C} → out ≡ reg → Kept name reg out
    then_init :
        {mid out : RedisRegistry C} (n url : Bytes) (t : ℕ) (seen : RedisRegistry C)
        → Kept name reg mid
        → out ≡ (init_with_opts connect n url t seen mid).0
        → Kept name reg out
    then_close :
        {mid out : RedisRegistry C} (n : Bytes)
        → Kept name reg mid
        → n ≢ name
        → out ≡ close (some n) mid
        → Kept name reg out
