-- ===== src/Cache/Scope.antt =====
-- `src/cache.rs`: what `prepare_generation_scoped` removes and what it leaves.
use wp_knowledge.Base.{
  ℕ, ◌≡◌, ◌≢◌, refl, ap, List, [], ◌∷◌, none, some, ◌⊎◌, inl, inr, arith, Option-cases, ite, if_pos,
  if_neg, find, insert, ℕ_discrete,
}
use wp_knowledge.Base.Model.{Value}
use wp_knowledge.Lru.{Lru, Member, here, there}
use wp_knowledge.Cache.Fields.{
  FieldQueryCache, EnumSizeIndex, LocalCacheKey, get_all, pop_scope, prepare_generation,
}
use wp_knowledge.Cache.Keys.{Key, key_of, index_of, get_idx-none, get_idx-some}
use wp_knowledge.Cache.Invariant.{keys_of, index_all, peek_at}

unfoldable pub LocalCacheKey-discrete : Discrete LocalCacheKey
LocalCacheKey-discrete = hlevel ℕ_discrete

module _ {T : Type 0} (L : Lru LocalCacheKey T) where
  open L use {Cache, peek, pop, keys}

  peek-pop_scope_ne :
      (scope : ℕ) (ks : List LocalCacheKey) (d : Cache) (q : LocalCacheKey)
      → q.scope_hash ≢ scope
      → peek q (pop_scope L scope ks d) ≡ peek q d
  unfolding pop_scope
  peek-pop_scope_ne scope [] d q h = refl
  peek-pop_scope_ne scope (k ∷ ks) d q h = elim (ℕ_discrete k.scope_hash scope) [
    | yes e ↦ rw (if_pos _ e) (
        rw (peek-pop_scope_ne scope ks (pop k d) q h)
          (L.peek-pop_ne k q d (λ f. h (cc (ap (λ (x : LocalCacheKey). x.scope_hash) f)))))
    | no e ↦ rw (if_neg _ e) (peek-pop_scope_ne scope ks d q h)
  ]

  -- What is gone stays gone.
  peek-pop_scope-none :
      (scope : ℕ) (ks : List LocalCacheKey) (d : Cache) (q : LocalCacheKey)
      → peek q d ≡ none
      → peek q (pop_scope L scope ks d) ≡ none
  unfolding pop_scope
  peek-pop_scope-none scope [] d q h = h
  peek-pop_scope-none scope (k ∷ ks) d q h = elim (ℕ_discrete k.scope_hash scope) [
    | yes e ↦ rw (if_pos _ e) (peek-pop_scope-none scope ks (pop k d) q (popped k d q h))
    | no e ↦ rw (if_neg _ e) (peek-pop_scope-none scope ks d q h)
  ]
    where
      popped :
          (k : LocalCacheKey) (d : Cache) (q : LocalCacheKey)
          → peek q d ≡ none
          → peek q (pop k d) ≡ none
      popped k d q h = elim (LocalCacheKey-discrete k q) [
        | yes e ↦ rw (← e) (L.peek-pop_self k d)
        | no e ↦ rw (L.peek-pop_ne k q d e) h
      ]

  peek-pop_scope_mem :
      (scope : ℕ) (ks : List LocalCacheKey) (d : Cache) (q : LocalCacheKey)
      → q.scope_hash ≡ scope
      → Member q ks
      → peek q (pop_scope L scope ks d) ≡ none
  unfolding pop_scope
  peek-pop_scope_mem scope [] d q e m = elim m [ ]
  peek-pop_scope_mem scope (k ∷ ks) d q e here =
      rw (if_pos _ e) (peek-pop_scope-none scope ks (pop q d) q (L.peek-pop_self q d))
  peek-pop_scope_mem scope (k ∷ ks) d q e (there m) =
      peek-pop_scope_mem scope ks (ite (ℕ_discrete k.scope_hash scope) (pop k d) d) q e m

  -- After the loop over the stale keys nothing of the scope is left.
  peek-pop_scope_self :
      (scope : ℕ) (d : Cache) (q : LocalCacheKey)
      → q.scope_hash ≡ scope
      → peek q (pop_scope L scope (keys d) d) ≡ none
  peek-pop_scope_self scope d q e = elim (Option-cases (peek q d)) [
    | inl gone ↦ peek-pop_scope-none scope (keys d) d q gone
    | inr (v, there_) ↦ peek-pop_scope_mem scope (keys d) d q e (L.mem-keys q v d there_)
  ]

  -- The scope's generation is the one that is announced.
  abbrev pub IsCurrent : FieldQueryCache Cache → ℕ → ℕ → Type 0
  IsCurrent c scope generation = find ℕ_discrete scope c.generations ≡ some generation

  abbrev pub forget : FieldQueryCache Cache → ℕ → ℕ → FieldQueryCache Cache
  forget c scope generation = record c {
    cache_data = pop_scope L scope (keys c.cache_data) c.cache_data;
    generations = insert ℕ_discrete scope generation c.generations;
  }

  pub prepare_generation-cases :
      (c : FieldQueryCache Cache) (scope generation : ℕ)
      → (IsCurrent c scope generation × (prepare_generation L c scope generation ≡ c))
        ⊎ ((¬ (IsCurrent c scope generation))
            × (prepare_generation L c scope generation ≡ forget c scope generation))
  unfolding prepare_generation
  prepare_generation-cases c scope generation =
      elim (Option-cases (find ℕ_discrete scope c.generations)) [
        | inl e ↦ inr ((λ f. cc), rw (e, prepare_generation) refl)
        | inr (g, e) ↦ elim (ℕ_discrete g generation) [
          | yes f ↦ inl (cc, rw (e, prepare_generation) (if_pos (ℕ_discrete g generation) f _ _))
          | no f ↦
              inr
                ((λ h. f (cc)), rw (e, prepare_generation) (if_neg (ℕ_discrete g generation) f _ _))
        ]
      ]

  forget_tables :
      (c : FieldQueryCache Cache) (scope generation : ℕ) (k : Key)
      → index_of (forget c scope generation) k ≡ index_of c k
  unfolding index_of
  forget_tables c scope generation (Key.str v) = refl
  forget_tables c scope generation _ = refl

  pub prepare_tables :
      (c : FieldQueryCache Cache) (scope generation : ℕ) (k : Key)
      → index_of (prepare_generation L c scope generation) k ≡ index_of c k
  prepare_tables c scope generation k = elim (prepare_generation-cases c scope generation) [
    | inl (_, e) ↦ rw e refl
    | inr (_, e) ↦ rw e (forget_tables c scope generation k)
  ]

  pub peek-prepare_ne :
      (c : FieldQueryCache Cache) (scope generation s : ℕ) (ix : EnumSizeIndex)
      → s ≢ scope
      → peek_at L (prepare_generation L c scope generation) s ix ≡ peek_at L c s ix
  peek-prepare_ne c scope generation s ix h = elim (prepare_generation-cases c scope generation) [
    | inl (_, e) ↦ rw e refl
    | inr (_, e) ↦ rw e (peek-pop_scope_ne scope (keys c.cache_data) c.cache_data _ h)
  ]

  pub peek-prepare_self :
      (c : FieldQueryCache Cache) (scope generation : ℕ) (ix : EnumSizeIndex)
      → ¬ (IsCurrent c scope generation)
      → peek_at L (prepare_generation L c scope generation) scope ix ≡ none
  peek-prepare_self c scope generation ix h = elim (prepare_generation-cases c scope generation) [
    | inl (same, e) ↦ absurd (h same)
    | inr (_, e) ↦ rw e (peek-pop_scope_self scope c.cache_data _ refl)
  ]

pub index_all-tables :
    {C : Type 0} (c c' : FieldQueryCache C)
    → ((k : Key) → index_of c' k ≡ index_of c k)
    → (ks : List Key) → index_all c' ks ≡ index_all c ks
unfolding index_all
index_all-tables c c' same [] = refl
index_all-tables c c' same (k ∷ ks) = ground (arith, same k, index_all-tables c c' same ks)

-- `get_all` is the look-up of the keys, if the cache takes every parameter.
pub get_all-none :
    {T : Type 0} (L : Lru LocalCacheKey T) (c : FieldQueryCache L.Cache) (vs : List Value)
    → keys_of vs ≡ none
    → get_all L c vs ≡ none
unfolding get_all keys_of
get_all-none L c [] h = cc
get_all-none L c (v ∷ vs) h = elim (Option-cases (key_of v)) [
  | inl e ↦ ground (arith, get_idx-none c v e)
  | inr (k, e) ↦ ground (arith, get_idx-some c v k e, get_all-none L c vs)
]

pub get_all-some :
    {T : Type 0} (L : Lru LocalCacheKey T) (c : FieldQueryCache L.Cache) (vs : List Value)
    (ks : List Key)
    → keys_of vs ≡ some ks
    → get_all L c vs ≡ index_all c ks
unfolding get_all keys_of index_all
get_all-some L c [] ks h = ground arith
get_all-some L c (v ∷ vs) ks h = elim (Option-cases (key_of v)) [
  | inl e ↦ absurd (ground arith)
  | inr (k, e) ↦ elim (Option-cases (keys_of vs)) [
    | inl f ↦ absurd (ground arith)
    | inr (js, f) ↦ ground (arith, get_idx-some c v k e, get_all-some L c vs js f)
  ]
]
