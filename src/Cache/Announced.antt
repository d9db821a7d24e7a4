-- ===== src/Cache/Announced.antt =====
-- `src/cache.rs`: the generations that a local cache knows have been announced to it.
use wp_knowledge.Base.{
  ℕ, ◌≡◌, refl, sym, ap, subst, ◌∙◌, ◌⊎◌, inl, inr, List, [], ◌∷◌, Option, none, some, find, insert,
  arith, find-insert_self, find-insert_ne, Option-cases, ℕ_discrete,
}
use wp_knowledge.Base.Model.{Value}
use wp_knowledge.Lru.{Lru}
use wp_knowledge.Cache.Fields.{
  FieldQueryCache, LocalCacheKey, size_index, up_value, try_up_idx, try_up_all, save_at,
  save_scoped, prepare_generation,
}
use wp_knowledge.Cache.Scope.{IsCurrent, prepare_generation-cases}
use wp_knowledge.Cache.Contract.{start}
use wp_knowledge.Cache.Tracked.{start_gens}

up_value_gens :
    {C : Type 0} (c : FieldQueryCache C) (v : Value) → (up_value c v).0.generations ≡ c.generations
unfolding up_value
up_value_gens c (Value.chars v) = refl
up_value_gens c _ = refl

module _ {T : Type 0} (L : Lru LocalCacheKey T) where
  open L use {Cache}

  try_up_idx_gens :
      (c : FieldQueryCache Cache) (v : Value) (s g : ℕ)
      → IsCurrent L (try_up_idx L c v).0 s g
      → IsCurrent L c s g
  unfolding try_up_idx
  try_up_idx_gens c v s g e =
      start_gens L c s g
        (ap (λ (gs : List (ℕ × ℕ)). find ℕ_discrete s gs) (sym (up_value_gens (start L c) v)) ∙ e)

  try_up_all_gens :
      (c : FieldQueryCache Cache) (vs : List Value) (s g : ℕ)
      → IsCurrent L (try_up_all L c vs).0 s g
      → IsCurrent L c s g
  unfolding try_up_all
  try_up_all_gens c [] s g e = e
  try_up_all_gens c (v ∷ vs) s g e =
      try_up_idx_gens c v s g (try_up_all_gens (try_up_idx L c v).0 vs s g e)

  save_at_gens :
      (c : FieldQueryCache Cache) (s : ℕ) (is : Option (List ℕ)) (r : T)
      → (save_at L c s is r).generations ≡ c.generations
  unfolding save_at
  save_at_gens c s none r = refl
  save_at_gens c s (some is) r = elim (Option-cases (size_index is)) [
    | inl e ↦ rw (e, save_at) refl
    | inr (ix, e) ↦ rw (e, save_at) refl
  ]

  -- A save announces nothing, whatever its parameters, and whether or not it resets the cache.
  pub save_scoped_announces :
      (c : FieldQueryCache Cache) (scope : ℕ) (params : List Value) (r : T) (s g : ℕ)
      → IsCurrent L (save_scoped L c scope params r) s g
      → IsCurrent L c s g
  unfolding save_scoped
  save_scoped_announces c scope params r s g e = try_up_all_gens c params s g (
      ap (λ (gs : List (ℕ × ℕ)). find ℕ_discrete s gs)
        (sym (save_at_gens (try_up_all L c params).0 scope (try_up_all L c params).1 r))
      ∙ e)

  pub prepare_generation_announces :
      (c : FieldQueryCache Cache) (scope generation s g : ℕ)
      → IsCurrent L (prepare_generation L c scope generation) s g
      → (g ≡ generation) ⊎ IsCurrent L c s g
  prepare_generation_announces c scope generation s g e =
      elim (prepare_generation-cases L c scope generation) [
        | inl (_, same) ↦ inr (rw same at e)
        | inr (_, next) ↦
            let e' : find ℕ_discrete s (insert ℕ_discrete scope generation c.generations) ≡ some g =
              rw next at e in
            elim (ℕ_discrete scope s) [
              | yes f ↦
                  let self = find-insert_self ℕ_discrete scope generation c.generations in
                  let here =
                    subst
                      (λ x.
                        find ℕ_discrete x (insert ℕ_discrete scope generation c.generations)
                        ≡ some generation)
                      f self in
                  inl (ground arith)
              | no f ↦ inr (sym (find-insert_ne ℕ_discrete scope s generation c.generations f) ∙ e')
            ]
      ]
