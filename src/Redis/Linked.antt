-- ===== src/Redis/Linked.antt =====
-- `src/redis.rs`: which names and pools the registry has.
use wp_knowledge.Base.{
  ◌≡◌, ◌≢◌, sym, ap, subst, ◌∙◌, ◌⊎◌, inl, inr, List, none, some, arith, if◌then◌else◌, find,
  insert, find-insert_self, find-insert_ne, Bytes, Bool-cases, Option-cases,
}
use wp_knowledge.Base.Model.{Bytes-discrete}
use wp_knowledge.Redis.{RedisPool, RedisRegistry, erase, has_value, or_insert}
use wp_knowledge.Redis.Names.{
  IsUnique, find-erase_ne, erase-IsUnique, insert-IsUnique, find-insert-some, find-erase-some,
  find-has_value, has_value-find,
}

-- Each name has a pool, and each pool a name.
pub record IsLinked {C : Type 0} (reg : RedisRegistry C) : Type 0 where
  pub unique : IsUnique reg.names
  pub pooled :
      (name url : Bytes)
      → find Bytes-discrete name reg.names ≡ some url
      → (pool : RedisPool C) × (find Bytes-discrete url reg.pools ≡ some pool)
  pub used :
      (url : Bytes) (pool : RedisPool C)
      → find Bytes-discrete url reg.pools ≡ some pool
      → (name : Bytes) × (find Bytes-discrete name reg.names ≡ some url)

module _ {C : Type 0} where
  pub find-or_insert_self :
      (url : Bytes) (pool : RedisPool C) (m : List (Bytes × RedisPool C))
      → (p : RedisPool C) × (find Bytes-discrete url (or_insert url pool m) ≡ some p)
  unfolding or_insert
  find-or_insert_self url pool m = elim (Option-cases (find Bytes-discrete url m)) [
    | inl e ↦ (pool, ground (arith, e, find-insert_self Bytes-discrete url pool m))
    | inr (p, e) ↦ (p, ground (arith, e))
  ]

  pub find-or_insert-keep :
      (url u : Bytes) (pool p : RedisPool C) (m : List (Bytes × RedisPool C))
      → find Bytes-discrete u m ≡ some p
      → find Bytes-discrete u (or_insert url pool m) ≡ some p
  unfolding or_insert
  find-or_insert-keep url u pool p m e = elim (Option-cases (find Bytes-discrete url m)) [
    | inl f ↦
        let apart : url ≢ u =
          λ q. ground (arith, sym f ∙ ap (λ x. find Bytes-discrete x m) q ∙ e) in
        ground (arith, f, e, find-insert_ne Bytes-discrete url u pool m apart)
    | inr (q, f) ↦ ground (arith, f, e)
  ]

  find-or_insert-some :
      (url u : Bytes) (pool p : RedisPool C) (m : List (Bytes × RedisPool C))
      → find Bytes-discrete u (or_insert url pool m) ≡ some p
      → (url ≡ u) ⊎ (find Bytes-discrete u m ≡ some p)
  unfolding or_insert
  find-or_insert-some url u pool p m e = elim (Bytes-discrete url u) [
    | yes same ↦ inl same
    | no other ↦ inr (elim (Option-cases (find Bytes-discrete url m)) [
      | inl f ↦ ground (arith, e, f, find-insert_ne Bytes-discrete url u pool m other)
      | inr (q, f) ↦ ground (arith, e, f)
    ])
  ]

  -- A name that is not there yet, with a pool that is behind the URL already or now.
  pub insert-IsLinked :
      (name url : Bytes) (pool : RedisPool C) (reg : RedisRegistry C)
      → find Bytes-discrete name reg.names ≡ none
      → IsLinked reg
      → IsLinked (record {
        names = insert Bytes-discrete name url reg.names;
        pools = or_insert url pool reg.pools;
      })
  insert-IsLinked name url pool reg e h = record {
    unique = insert-IsUnique name url reg.names h.unique;
    pooled = λ n u f. elim (find-insert-some name n url u reg.names f) [
      | inl (same, which) ↦
          let now : (p : RedisPool C) × (find Bytes-discrete url (or_insert url pool reg.pools)
                ≡ some p) =
            find-or_insert_self url pool reg.pools in
          (
            now.0,
            ap (λ x. find Bytes-discrete x (or_insert url pool reg.pools)) (sym which) ∙ now.1,
          )
      | inr old ↦
          let kept : (p : RedisPool C) × (find Bytes-discrete u reg.pools ≡ some p) =
            h.pooled n u old in
          (kept.0, find-or_insert-keep url u pool kept.0 reg.pools kept.1)
    ];
    used = λ u p f. elim (find-or_insert-some url u pool p reg.pools f) [
      | inl same ↦ (name, find-insert_self Bytes-discrete name url reg.names ∙ ap some same)
      | inr old ↦
          let kept : (n : Bytes) × (find Bytes-discrete n reg.names ≡ some u) = h.used u p old in
          let apart : name ≢ kept.0 =
            λ q. ground (arith, sym e ∙ ap (λ x. find Bytes-discrete x reg.names) q ∙ kept.1) in
          (kept.0, find-insert_ne Bytes-discrete name kept.0 url reg.names apart ∙ kept.1)
    ];
  }

  pub erase-IsLinked :
      (name url : Bytes) (reg : RedisRegistry C)
      → find Bytes-discrete name reg.names ≡ some url
      → IsLinked reg
      → IsLinked (record {
        names = erase name reg.names;
        pools = if has_value url (erase name reg.names) then reg.pools else erase url reg.pools;
      })
  erase-IsLinked name url reg e h = elim (Bool-cases (has_value url (erase name reg.names))) [
    | inl more ↦ rw more (record {
      unique = erase-IsUnique name reg.names h.unique;
      pooled = λ n u f. h.pooled n u (find-erase-some name n u reg.names f).1;
      used = λ u p f.
          let old : (n : Bytes) × (find Bytes-discrete n reg.names ≡ some u) = h.used u p f in
          elim (Bytes-discrete name old.0) [
            | yes same ↦
                let which : url ≡ u =
                  ground (arith, sym e ∙ ap (λ x. find Bytes-discrete x reg.names) same ∙ old.1) in
                subst (λ x. (n : Bytes) × (find Bytes-discrete n (erase name reg.names) ≡ some x))
                  which
                  (has_value-find url (erase name reg.names)
                    (erase-IsUnique name reg.names h.unique) more)
            | no other ↦ (old.0, find-erase_ne name old.0 reg.names other ∙ old.1)
          ];
    })
    | inr last ↦ rw last (record {
      unique = erase-IsUnique name reg.names h.unique;
      pooled = λ n u f.
          let apart : url ≢ u = λ q. ground (
            arith,
            sym last
                ∙ ap (λ x. has_value x (erase name reg.names)) q
                ∙ find-has_value n u (erase name reg.names) f,
          ) in
          let old : (p : RedisPool C) × (find Bytes-discrete u reg.pools ≡ some p) =
            h.pooled n u (find-erase-some name n u reg.names f).1 in
          (old.0, find-erase_ne url u reg.pools apart ∙ old.1);
      used = λ u p f.
          let left : (url ≢ u) × (find Bytes-discrete u reg.pools ≡ some p) =
            find-erase-some url u p reg.pools f in
          let old : (n : Bytes) × (find Bytes-discrete n reg.names ≡ some u) = h.used u p left.1 in
          let apart : name ≢ old.0 = λ q.
            left.0 (ground (arith, sym e ∙ ap (λ x. find Bytes-discrete x reg.names) q ∙ old.1)) in
          (old.0, find-erase_ne name old.0 reg.names apart ∙ old.1);
    })
  ]
