-- ===== src/Redis/Resolved.antt =====
-- `src/redis.rs`: what a name resolves to.
use wp_knowledge.Base.{
  ℕ, ◌≡◌, ◌⊎◌, inl, inr, ◌++◌, Option, none, some, arith, find, Bytes, Option-cases,
}
use wp_knowledge.Base.Model.{Bytes-discrete}
use wp_knowledge.Base.Text.{codes}
use wp_knowledge.Runtime.Types.{KnowledgeError, KnowledgeResult}
use wp_knowledge.Redis.{RedisPool, RedisRegistry, new, resolve, remove_all, close}
use wp_knowledge.Redis.Linked.{IsLinked}
use wp_knowledge.Redis.Reached.{
  register-IsLinked, remove-IsLinked, new-IsLinked, IsInit, init_with_opts-IsInit, Step, Reached,
}

module _ {C : Type 0} where
  IsInit-IsLinked :
      {connect : Bytes → KnowledgeResult C} {name url : Bytes} {t : ℕ}
      {seen later : RedisRegistry C} {out : RedisRegistry C × KnowledgeResult (Unit {0})}
      → IsInit connect name url t seen later out
      → IsLinked later
      → IsLinked out.0
  IsInit-IsLinked (IsInit.failed e q) h = rw q h
  IsInit-IsLinked {name = name} {url = url} {later = later} (IsInit.registered pool o q) h =
      rw q (register-IsLinked name url pool later h)

  close-IsLinked :
      (name : Option Bytes) (reg : RedisRegistry C) → IsLinked reg → IsLinked (close name reg)
  unfolding close remove_all
  close-IsLinked none reg h = unfold new in new-IsLinked
  close-IsLinked (some name) reg h = remove-IsLinked name reg h

  pub resolve-unknown :
      (name : Bytes) (reg : RedisRegistry C)
      → find Bytes-discrete name reg.names ≡ none
      → resolve name reg
        ≡ KnowledgeResult.err
            (KnowledgeError.logic (codes "redis provider '" ++ (name ++ codes "' not found")))
  unfolding resolve
  resolve-unknown name reg e = ground (arith, e)

  pub resolve-known :
      (name url : Bytes) (pool : RedisPool C) (reg : RedisRegistry C)
      → find Bytes-discrete name reg.names ≡ some url
      → find Bytes-discrete url reg.pools ≡ some pool
      → resolve name reg ≡ KnowledgeResult.ok pool
  unfolding resolve
  resolve-known name url pool reg e f = ground (arith, e, f)

module _ {C : Type 0} (connect : Bytes → KnowledgeResult C) where
  pub reached-IsLinked : {reg : RedisRegistry C} → Reached connect reg → IsLinked reg
  reached-IsLinked (Reached.start q) = rw q new-IsLinked
  reached-IsLinked (Reached.after {reg} before (Step.init_step name url t seen q)) = rw q (
      IsInit-IsLinked (init_with_opts-IsInit connect name url t seen reg) (reached-IsLinked before))
  reached-IsLinked (Reached.after {reg} before (Step.close_step name q)) =
      rw q (close-IsLinked name reg (reached-IsLinked before))

  -- Whatever calls of init and close there were, with whatever other threads did between the two locks
  -- of an init: a name without a URL resolves to the error `not found`, and a name with a URL to the
  -- pool that stands behind it; the error `missing` never comes.
  pub resolve-Reached :
      (reg : RedisRegistry C) (name : Bytes)
      → Reached connect reg
      → ((find Bytes-discrete name reg.names ≡ none)
          × (resolve name reg
              ≡ KnowledgeResult.err (
                  KnowledgeError.logic
                    (codes "redis provider '" ++ (name ++ codes "' not found")))))
        ⊎ ((url : Bytes) × (pool : RedisPool C) × (find Bytes-discrete name reg.names ≡ some url)
            × (find Bytes-discrete url reg.pools ≡ some pool)
            × (resolve name reg ≡ KnowledgeResult.ok pool))
  resolve-Reached reg name r = elim (Option-cases (find Bytes-discrete name reg.names)) [
    | inl e ↦ inl (e, resolve-unknown name reg e)
    | inr (url, e) ↦
        let behind : (p : RedisPool C) × (find Bytes-discrete url reg.pools ≡ some p) =
          (reached-IsLinked r).pooled name url e in
        inr (url, behind.0, e, behind.1, resolve-known name url behind.0 reg e behind.1)
  ]
