-- ===== src/Redis/Opened.antt =====
-- `src/redis.rs`: which pool a name gets.
use wp_knowledge.Base.{
  ℕ, ◌≡◌, ◌∙◌, ◌⊎◌, inl, inr, List, none, some, arith, find, find-insert_self, Bytes, Option-cases,
}
use wp_knowledge.Base.Model.{Bytes-discrete}
use wp_knowledge.Runtime.Types.{KnowledgeError, KnowledgeResult}
use wp_knowledge.Redis.{RedisPool, RedisRegistry, or_insert, resolve, init_with_opts}
use wp_knowledge.Redis.Linked.{find-or_insert-keep}
use wp_knowledge.Redis.Reached.{register-known, register-fresh, IsInit, init_with_opts-IsInit, Kept}
use wp_knowledge.Redis.Resolved.{resolve-known}
use wp_knowledge.Redis.Once.{init_with_opts-known, resolve-IsBehind, Kept-IsBehind}

-- Where the pool comes from: it was there at the last lock, or at the first, or it is new.
abbrev pub Origin :
    {C : Type 0}
    → (Bytes → KnowledgeResult C)
    → Bytes
    → ℕ
    → RedisRegistry C
    → RedisRegistry C
    → RedisPool C
    → Type 0
Origin connect url t seen later pool =
    (find Bytes-discrete url later.pools ≡ some pool)
    ⊎ ((find Bytes-discrete url later.pools ≡ none)
        × ((find Bytes-discrete url seen.pools ≡ some pool)
            ⊎ ((find Bytes-discrete url seen.pools ≡ none)
                × (connect url ≡ KnowledgeResult.ok pool.conn)
                × (pool.command_timeout ≡ t))))

module _ {C : Type 0} where
  find-or_insert-none :
      (url : Bytes) (pool : RedisPool C) (m : List (Bytes × RedisPool C))
      → find Bytes-discrete url m ≡ none
      → find Bytes-discrete url (or_insert url pool m) ≡ some pool
  unfolding or_insert
  find-or_insert-none url pool m e = ground (arith, e, find-insert_self Bytes-discrete url pool m)

  -- The pool that a registration leaves behind a URL.
  find-or_insert-Origin :
      (connect : Bytes → KnowledgeResult C) (url : Bytes) (t : ℕ) (seen later : RedisRegistry C)
      (pool : RedisPool C)
      → (find Bytes-discrete url later.pools ≡ some pool)
        ⊎ ((find Bytes-discrete url seen.pools ≡ some pool)
            ⊎ ((find Bytes-discrete url seen.pools ≡ none)
                × (connect url ≡ KnowledgeResult.ok pool.conn)
                × (pool.command_timeout ≡ t)))
      → (p : RedisPool C) × (find Bytes-discrete url (or_insert url pool later.pools) ≡ some p)
        × Origin connect url t seen later p
  find-or_insert-Origin connect url t seen later pool o =
      elim (Option-cases (find Bytes-discrete url later.pools)) [
        | inr (p, f) ↦ (p, find-or_insert-keep url url pool p later.pools f, inl f)
        | inl f ↦ elim o [
          | inl g ↦ absurd (ground (arith, f, g))
          | inr rest ↦ (pool, find-or_insert-none url pool later.pools f, inr (f, rest))
        ]
      ]

  -- The name was free and now has the pool, which stands behind its URL.
  unfoldable pub IsOpened :
      (Bytes → KnowledgeResult C)
      → Bytes
      → Bytes
      → ℕ
      → RedisRegistry C
      → RedisRegistry C
      → RedisRegistry C
      → Type 0
  IsOpened connect name url t seen later out =
      (find Bytes-discrete name later.names ≡ none)
      × (pool : RedisPool C) × (resolve name out ≡ KnowledgeResult.ok pool)
      × (find Bytes-discrete url out.pools ≡ some pool)
      × Origin connect url t seen later pool

  IsInit-IsOpened :
      {connect : Bytes → KnowledgeResult C} {name url : Bytes} {t : ℕ}
      {seen later : RedisRegistry C} {out : RedisRegistry C × KnowledgeResult (Unit {0})}
      → IsInit connect name url t seen later out
      → out.1 ≡ KnowledgeResult.ok tt
      → IsOpened connect name url t seen later out.0
  unfolding IsOpened
  IsInit-IsOpened (IsInit.failed e q) good = absurd (ground (arith, good, q))
  IsInit-IsOpened {connect} {name} {url} {t} {seen} {later} {out} (IsInit.registered pool o q)
        good =
      elim (Option-cases (find Bytes-discrete name later.names)) [
        | inr (u, f) ↦ absurd (ground (arith, good, q, register-known name url pool later u f))
        | inl f ↦
            let step = q ∙ register-fresh name url pool later f in
            let put = find-or_insert-Origin connect url t seen later pool o in
            (
              f,
              put.0,
              rw step (
                  resolve-known name url put.0 _
                    (find-insert_self Bytes-discrete name url later.names) put.1),
              rw step put.1,
              put.2,
            )
      ]

module _ {C : Type 0} (connect : Bytes → KnowledgeResult C) where
  -- When init succeeds, the name was free, it resolves afterwards to the pool behind its URL, and that
  -- pool is the one that the registry had for the URL at the second lock, else the one it had at the
  -- first, else a new one with the connection of `connect` and the timeout of the call: only in the
  -- last case does the timeout of the call count.
  pub init_with_opts-IsOpened :
      (name url : Bytes) (t : ℕ) (seen later : RedisRegistry C)
      → (init_with_opts connect name url t seen later).1 ≡ KnowledgeResult.ok tt
      → IsOpened connect name url t seen later (init_with_opts connect name url t seen later).0
  init_with_opts-IsOpened name url t seen later =
      IsInit-IsOpened (init_with_opts-IsInit connect name url t seen later)

  -- After an init that succeeds, and any calls that do not close the name, another init of the name,
  -- with whatever URL, fails and leaves the registry as it is.
  pub init_with_opts-again :
      (name url other_url : Bytes) (t other_t : ℕ) (seen later out other_seen : RedisRegistry C)
      → (init_with_opts connect name url t seen later).1 ≡ KnowledgeResult.ok tt
      → Kept connect name (init_with_opts connect name url t seen later).0 out
      → (e : KnowledgeError) × (init_with_opts connect name other_url other_t other_seen out
          ≡ (out, KnowledgeResult.err e))
  unfolding IsOpened
  init_with_opts-again name url other_url t other_t seen later out other_seen good run =
      let opened = init_with_opts-IsOpened name url t seen later good in
      let first =
        resolve-IsBehind name opened.1 (init_with_opts connect name url t seen later).0 opened.2 in
      init_with_opts-known connect name other_url first.0 other_t other_seen out
        (Kept-IsBehind connect first.0 opened.1 run first.1).0
