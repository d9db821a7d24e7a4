-- ===== src/Cache/Alloc.antt =====
-- `src/cache.rs`: what the allocation of numbers keeps, below the limit of `MAX_LOCAL_IDX`.
use wp_knowledge.Base.{
  ℕ, ◌≤◌, ◌≡◌, subst, List, [], ◌∷◌, Option, none, some, inl, inr, arith, All, Option-cases,
}
use wp_knowledge.Lru.{Lru}
use wp_knowledge.Cache.Fields.{FieldQueryCache, LocalCacheKey}
use wp_knowledge.Cache.Keys.{
  Key, Key-discrete, index_of, add_key, add_key_self, add_key_ne, add_key_rest,
}
use wp_knowledge.Cache.Invariant.{
  index_list, index_list-size_index, index_all, Memo, peek_at, IsValid, Holds,
}

pub All-weaken : (m n : ℕ) → m ≤ n → (is : List ℕ) → All (λ i. i ≤ m) is → All (λ i. i ≤ n) is
All-weaken m n h [] a = tt
All-weaken m n h (i ∷ is) a = (omega arith, All-weaken m n h is a.1)

module _ {C : Type 0} (c c' : FieldQueryCache C) where
  -- Keys that have numbers keep them.
  abbrev pub Keeps : Type 0
  Keeps = (k : Key) (i : ℕ) → index_of c k ≡ some i → index_of c' k ≡ some i

  pub index_all-Keeps :
      Keeps → (ks : List Key) (is : List ℕ) → index_all c ks ≡ some is → index_all c' ks ≡ some is
  unfolding index_all
  index_all-Keeps keep [] is h = h
  index_all-Keeps keep (k ∷ ks) is h = elim (Option-cases (index_of c k)) [
    | inl e ↦ absurd (ground arith)
    | inr (i, e) ↦ elim (Option-cases (index_all c ks)) [
      | inl f ↦ absurd (ground arith)
      | inr (js, f) ↦ ground (arith, keep k i e, index_all-Keeps keep ks js f)
    ]
  ]

module _ {C : Type 0} (c : FieldQueryCache C) (new : Key) (fresh : index_of c new ≡ none) where
  pub add_key-Keeps : Keeps c (add_key c new)
  add_key-Keeps k i h = elim (Key-discrete new k) [
    | yes e ↦ absurd (cc)
    | no e ↦ add_key_ne c new k e ∙' h
  ]
    where
      infixr 30 ◌∙'◌
      ◌∙'◌ : {a b d : Option ℕ} → a ≡ b → b ≡ d → a ≡ d
      p ∙' q = cc

  -- Under old numbers stand only old keys.
  index_all-add_key :
      (ks : List Key) (is : List ℕ)
      → index_all (add_key c new) ks ≡ some is
      → All (λ i. i ≤ c.idx_num) is
      → index_all c ks ≡ some is
  unfolding index_all
  index_all-add_key [] is h a = h
  index_all-add_key (k ∷ ks) is h a = elim (Option-cases (index_of (add_key c new) k)) [
    | inl e ↦ absurd (ground arith)
    | inr (i, e) ↦ elim (Option-cases (index_all (add_key c new) ks)) [
      | inl f ↦ absurd (ground arith)
      | inr (js, f) ↦
          let eq : is ≡ i ∷ js = ground arith in
          let b : All (λ i. i ≤ c.idx_num) (i ∷ js) = subst (All (λ i. i ≤ c.idx_num)) eq a in
          elim (Key-discrete new k) [
            | yes same ↦ absurd (ground (arith, add_key_self c new))
            | no other ↦ ground (arith, add_key_ne c new k other, index_all-add_key ks js f b.1)
          ]
    ]
  ]

module _ {T : Type 0} (L : Lru LocalCacheKey T) where
  open L use {Cache}

  module _ (c : FieldQueryCache Cache) (m : Memo T) (holds : Holds L c m) where
    add_key-IsValid : (new : Key) → index_of c new ≡ none → IsValid L (add_key c new)
    add_key-IsValid new fresh = record {
      bounded = λ k i h. elim (Key-discrete new k) [
        | yes e ↦ ground (arith, add_key_self c new, add_key_rest c new)
        | no e ↦ ground (arith, add_key_ne c new k e, add_key_rest c new, holds.valid.bounded k i)
      ];
      injective = λ k q i h g. elim (Key-discrete new k) [
        | yes e ↦ elim (Key-discrete new q) [
          | yes f ↦ cc
          | no f ↦
              absurd
                (ground (arith, add_key_self c new, add_key_ne c new q f, holds.valid.bounded q i))
        ]
        | no e ↦ elim (Key-discrete new q) [
          | yes f ↦
              absurd
                (ground (arith, add_key_self c new, add_key_ne c new k e, holds.valid.bounded k i))
          | no f ↦
              holds.valid.injective k q i (ground (arith, add_key_ne c new k e))
                (ground (arith, add_key_ne c new q f))
        ]
      ];
      entries = λ s ix r h.
          All-weaken c.idx_num (add_key c new).idx_num (omega (arith, add_key_rest c new))
            (index_list ix)
            (holds.valid.entries s ix r (
              subst (λ d. L.peek (record { scope_hash = s; idxs = ix }) d ≡ some r)
                (add_key_rest c new).1 h));
    }

    pub add_key-Holds : (new : Key) → index_of c new ≡ none → Holds L (add_key c new) m
    add_key-Holds new fresh = record {
      valid = add_key-IsValid new fresh;
      agrees = λ s ks is ix r h g p.
          let old : peek_at L c s ix ≡ some r =
            subst (λ d. L.peek (record { scope_hash = s; idxs = ix }) d ≡ some r)
              (add_key_rest c new).1 p in
          let low : All (λ i. i ≤ c.idx_num) is =
            subst (All (λ i. i ≤ c.idx_num)) (index_list-size_index is ix g)
              (holds.valid.entries s ix r old) in
          holds.agrees s ks is ix r (index_all-add_key c new fresh ks is h low) g old;
    }
