-- ===== src/Redis/Once.antt =====
-- `src/redis.rs`: a name is registered once, and keeps its pool until it is closed.
use wp_knowledge.Base.{
  ℕ, ◌≡◌, ◌≢◌, refl, sym, ap, ◌∙◌, inl, inr, some, arith, if◌then◌else◌, find, find-insert_ne,
  Bytes, Bool-cases, Option-cases,
}
use wp_knowledge.Base.Model.{Bytes-discrete}
use wp_knowledge.Runtime.Types.{KnowledgeError, KnowledgeResult}
use wp_knowledge.Redis.{
  RedisPool, RedisRegistry, erase, has_value, register, resolve, close, init_with_opts,
}
use wp_knowledge.Redis.Names.{find-has_value, find-erase_ne}
use wp_knowledge.Redis.Linked.{find-or_insert-keep}
use wp_knowledge.Redis.Reached.{
  register-known, register-fresh, remove-known, remove-unknown, IsInit, init_with_opts-IsInit, Kept,
}
use wp_knowledge.Redis.Resolved.{resolve-known}

-- The name has the URL, and the URL the pool.
abbrev pub IsBehind : {C : Type 0} → Bytes → Bytes → RedisPool C → RedisRegistry C → Type 0
IsBehind name url pool reg =
    (find Bytes-discrete name reg.names ≡ some url)
    × (find Bytes-discrete url reg.pools ≡ some pool)

module _ {C : Type 0} where
  pub resolve-IsBehind :
      (name : Bytes) (pool : RedisPool C) (reg : RedisRegistry C)
      → resolve name reg ≡ KnowledgeResult.ok pool
      → (url : Bytes) × IsBehind name url pool reg
  unfolding resolve
  resolve-IsBehind name pool reg e = elim (Option-cases (find Bytes-discrete name reg.names)) [
    | inl f ↦ absurd (ground (arith, e, f))
    | inr (url, f) ↦ elim (Option-cases (find Bytes-discrete url reg.pools)) [
      | inl g ↦ absurd (ground (arith, e, f, g))
      | inr (p, g) ↦ (url, ground (arith, e, f, g))
    ]
  ]

  register-IsBehind :
      (n v name url : Bytes) (fresh pool : RedisPool C) (reg : RedisRegistry C)
      → IsBehind name url pool reg
      → IsBehind name url pool (register n v fresh reg).0
  register-IsBehind n v name url fresh pool reg (e, f) =
      elim (Option-cases (find Bytes-discrete n reg.names)) [
        | inr (u, g) ↦ rw (register-known n v fresh reg u g) (e, f)
        | inl g ↦
            let apart : n ≢ name =
              λ q. ground (arith, sym g ∙ ap (λ x. find Bytes-discrete x reg.names) q ∙ e) in
            rw (register-fresh n v fresh reg g) (
              find-insert_ne Bytes-discrete n name v reg.names apart ∙ e,
              find-or_insert-keep v url fresh pool reg.pools f,
            )
      ]

  IsInit-IsBehind :
      {connect : Bytes → KnowledgeResult C} {n v : Bytes} {t : ℕ} {seen later : RedisRegistry C}
      {out : RedisRegistry C × KnowledgeResult (Unit {0})} (name url : Bytes) (pool : RedisPool C)
      → IsInit connect n v t seen later out
      → IsBehind name url pool later
      → IsBehind name url pool out.0
  IsInit-IsBehind name url pool (IsInit.failed e q) h = rw q h
  IsInit-IsBehind {n = n} {v = v} {later = later} name url pool (IsInit.registered fresh o q) h =
      rw q (register-IsBehind n v name url fresh pool later h)

  -- The URL of a name that stays has a name still, so its pool stays.
  erase-IsBehind :
      (n u name url : Bytes) (pool : RedisPool C) (reg : RedisRegistry C)
      → n ≢ name
      → IsBehind name url pool reg
      → find Bytes-discrete url
          (if has_value u (erase n reg.names) then reg.pools else erase u reg.pools)
        ≡ some pool
  erase-IsBehind n u name url pool reg other (e, f) =
      elim (Bool-cases (has_value u (erase n reg.names))) [
        | inl more ↦ rw more f
        | inr last ↦
            let stays : find Bytes-discrete name (erase n reg.names) ≡ some url =
              find-erase_ne n name reg.names other ∙ e in
            let apart : u ≢ url = λ q. ground (
              arith,
              sym last
                  ∙ ap (λ x. has_value x (erase n reg.names)) q
                  ∙ find-has_value name url (erase n reg.names) stays,
            ) in
            rw last (find-erase_ne u url reg.pools apart ∙ f)
      ]

  close-IsBehind :
      (n name url : Bytes) (pool : RedisPool C) (reg : RedisRegistry C)
      → n ≢ name
      → IsBehind name url pool reg
      → IsBehind name url pool (close (some n) reg)
  unfolding close
  close-IsBehind n name url pool reg other (e, f) =
      elim (Option-cases (find Bytes-discrete n reg.names)) [
        | inl g ↦ rw (remove-unknown n reg g) (e, f)
        | inr (u, g) ↦ rw (remove-known n reg u g) (
          find-erase_ne n name reg.names other ∙ e,
          erase-IsBehind n u name url pool reg other (e, f),
        )
      ]

module _ {C : Type 0} (connect : Bytes → KnowledgeResult C) where
  pub Kept-IsBehind :
      {name : Bytes} {reg out : RedisRegistry C} (url : Bytes) (pool : RedisPool C)
      → Kept connect name reg out
      → IsBehind name url pool reg
      → IsBehind name url pool out
  Kept-IsBehind url pool (Kept.start q) h = rw q h
  Kept-IsBehind {name} url pool (Kept.then_init {mid} n v t seen before q) h = rw q (
      IsInit-IsBehind name url pool (init_with_opts-IsInit connect n v t seen mid)
        (Kept-IsBehind url pool before h))
  Kept-IsBehind {name} url pool (Kept.then_close {mid} n before other q) h =
      rw q (close-IsBehind n name url pool mid other (Kept-IsBehind url pool before h))

  -- A name that resolves goes on resolving to the same pool, whatever other names are closed and
  -- whatever calls of init there are, until the name itself is closed.
  pub resolve-Kept :
      (name : Bytes) (pool : RedisPool C) (reg out : RedisRegistry C)
      → Kept connect name reg out
      → resolve name reg ≡ KnowledgeResult.ok pool
      → resolve name out ≡ KnowledgeResult.ok pool
  resolve-Kept name pool reg out run e =
      let at_first : (url : Bytes) × IsBehind name url pool reg =
        resolve-IsBehind name pool reg e in
      let at_last : IsBehind name at_first.0 pool out =
        Kept-IsBehind at_first.0 pool run at_first.1 in
      resolve-known name at_first.0 pool out at_last.0 at_last.1

  pub init_with_opts-known :
      (name url u : Bytes) (t : ℕ) (seen later : RedisRegistry C)
      → find Bytes-discrete name later.names ≡ some u
      → (e : KnowledgeError) × (init_with_opts connect name url t seen later
          ≡ (later, KnowledgeResult.err e))
  init_with_opts-known name url u t seen later f =
      go _ refl (init_with_opts-IsInit connect name url t seen later)
    where
      go :
          (out : RedisRegistry C × KnowledgeResult (Unit {0}))
          → init_with_opts connect name url t seen later ≡ out
          → IsInit connect name url t seen later out
          → (e : KnowledgeError) × (init_with_opts connect name url t seen later
              ≡ (later, KnowledgeResult.err e))
      go out q (IsInit.failed e r) = (e, q ∙ r)
      go out q (IsInit.registered pool o r) = (_, q ∙ r ∙ register-known name url pool later u f)
