-- ===== src/Cache/Generations.antt =====
-- `src/cache.rs`: what a change of generation does to the reads.
use wp_knowledge.Base.{
  ℕ, ◌≡◌, ◌≢◌, refl, sym, ap, ◌∙◌, List, Option, none, some, inl, inr, find-insert_self,
  Option-cases, ℕ_discrete,
}
use wp_knowledge.Base.Model.{Value}
use wp_knowledge.Lru.{Lru}
use wp_knowledge.Cache.Fields.{
  FieldQueryCache, LocalCacheKey, size_index, get_all, fetch_at, fetch_scoped, prepare_generation,
}
use wp_knowledge.Cache.Keys.{Key, index_of}
use wp_knowledge.Cache.Invariant.{keys_of, peek_at}
use wp_knowledge.Cache.Scope.{
  IsCurrent, prepare_generation-cases, prepare_tables, peek-prepare_ne, peek-prepare_self,
  index_all-tables, get_all-none, get_all-some,
}
use wp_knowledge.Cache.Contract.{fetch_scoped_lem, fetch_at_lem}

module _ {T : Type 0} (L : Lru LocalCacheKey T) where
  open L use {Cache}

  get_all-tables :
      (c c' : FieldQueryCache Cache)
      → ((k : Key) → index_of c' k ≡ index_of c k)
      → (vs : List Value) → get_all L c' vs ≡ get_all L c vs
  get_all-tables c c' same vs = elim (Option-cases (keys_of vs)) [
    | inl e ↦ get_all-none L c' vs e ∙ sym (get_all-none L c vs e)
    | inr (ks, e) ↦
        get_all-some L c' vs ks e ∙ index_all-tables c c' same ks ∙ sym (get_all-some L c vs ks e)
  ]

  fetch_at_same :
      (c c' : FieldQueryCache Cache) (s : ℕ)
      → ((ix : _) → peek_at L c' s ix ≡ peek_at L c s ix)
      → (os : Option (List ℕ)) → fetch_at L c' s os ≡ fetch_at L c s os
  fetch_at_same c c' s same none = unfold fetch_at in refl
  fetch_at_same c c' s same (some is) = elim (Option-cases (size_index is)) [
    | inl e ↦ unfold fetch_at in rw (e, fetch_at) refl
    | inr (ix, e) ↦ fetch_at_lem L c' s is ix e ∙ same ix ∙ sym (fetch_at_lem L c s is ix e)
  ]

  fetch_at-none :
      (c : FieldQueryCache Cache) (s : ℕ)
      → ((ix : _) → peek_at L c s ix ≡ none)
      → (os : Option (List ℕ)) → fetch_at L c s os ≡ none
  fetch_at-none c s gone none = unfold fetch_at in refl
  fetch_at-none c s gone (some is) = elim (Option-cases (size_index is)) [
    | inl e ↦ unfold fetch_at in rw (e, fetch_at) refl
    | inr (ix, e) ↦ fetch_at_lem L c s is ix e ∙ gone ix
  ]

  -- A scope that enters a new generation loses every result, and a scope whose generation is
  -- announced again loses none; what other scopes read is the same in both cases, and the announced
  -- generation is current afterwards.
  pub prepare_generation_lem :
      (c : FieldQueryCache Cache) (scope generation : ℕ)
      → (IsCurrent L c scope generation → prepare_generation L c scope generation ≡ c)
        × (¬ (IsCurrent L c scope generation)
            → (params : List Value)
            → fetch_scoped L (prepare_generation L c scope generation) scope params ≡ none)
        × ((s : ℕ) (params : List Value)
            → s ≢ scope
            → fetch_scoped L (prepare_generation L c scope generation) s params
              ≡ fetch_scoped L c s params)
        × IsCurrent L (prepare_generation L c scope generation) scope generation
  prepare_generation_lem c scope generation = (same, lost, kept, current)
    where
      same : IsCurrent L c scope generation → prepare_generation L c scope generation ≡ c
      same h = elim (prepare_generation-cases L c scope generation) [
        | inl (_, e) ↦ e
        | inr (new, e) ↦ absurd (new h)
      ]

      lost :
          ¬ (IsCurrent L c scope generation)
          → (params : List Value)
          → fetch_scoped L (prepare_generation L c scope generation) scope params ≡ none
      lost new params =
          fetch_scoped_lem L _ scope params
          ∙ fetch_at-none _ scope (λ ix. peek-prepare_self L c scope generation ix new) _

      kept :
          (s : ℕ) (params : List Value)
          → s ≢ scope
          → fetch_scoped L (prepare_generation L c scope generation) s params
            ≡ fetch_scoped L c s params
      kept s params h =
          let c' = prepare_generation L c scope generation in
          fetch_scoped_lem L c' s params
          ∙ fetch_at_same c c' s (λ ix. peek-prepare_ne L c scope generation s ix h) _
          ∙ ap (fetch_at L c s)
              (get_all-tables c c' (λ k. prepare_tables L c scope generation k) params)
          ∙ sym (fetch_scoped_lem L c s params)

      current : IsCurrent L (prepare_generation L c scope generation) scope generation
      current = elim (prepare_generation-cases L c scope generation) [
        | inl (h, e) ↦ rw e h
        | inr (_, e) ↦ rw e (find-insert_self ℕ_discrete scope generation c.generations)
      ]
