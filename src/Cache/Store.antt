-- ===== src/Cache/Store.antt =====
-- `src/cache.rs`: what one result stored under the numbers of its keys does to the cache.
use wp_knowledge.Base.{
  ℕ, ◌≤◌, ◌≡◌, refl, sym, subst, ap, List, [], ◌∷◌, none, some, ◌⊎◌, inl, inr, arith, All,
  Option-cases,
}
use wp_knowledge.Lru.{Lru}
use wp_knowledge.Cache.Fields.{FieldQueryCache, LocalCacheKey, EnumSizeIndex, size_index, save_at}
use wp_knowledge.Cache.Keys.{Key, index_of}
use wp_knowledge.Cache.Invariant.{
  index_list, index_list-size_index, index_all, Memo, peek_at, IsValid, Agrees, Holds,
}
use wp_knowledge.Cache.Save.{set_memo, set_memo_self, set_memo_ne}
use wp_knowledge.Cache.Scope.{LocalCacheKey-discrete, index_all-tables}

module _ {T : Type 0} (L : Lru LocalCacheKey T) where
  open L use {Cache}

  module _ (c : FieldQueryCache Cache) (v : IsValid L c) where
    index_all-bounded :
        (ks : List Key) (is : List ℕ) → index_all c ks ≡ some is → All (λ i. i ≤ c.idx_num) is
    unfolding index_all
    index_all-bounded [] is h =
        let eq : [] ≡ is = ground arith in subst (All (λ i. i ≤ c.idx_num)) eq tt
    index_all-bounded (k ∷ ks) is h = elim (Option-cases (index_of c k)) [
      | inl e ↦ absurd (ground arith)
      | inr (i, e) ↦ elim (Option-cases (index_all c ks)) [
        | inl f ↦ absurd (ground arith)
        | inr (js, f) ↦
            let eq : i ∷ js ≡ is = ground arith in
            subst (All (λ i. i ≤ c.idx_num)) eq (v.bounded k i e, index_all-bounded ks js f)
      ]
    ]

    index_all-injective :
        (ks qs : List Key) (is : List ℕ)
        → index_all c ks ≡ some is
        → index_all c qs ≡ some is
        → ks ≡ qs
    unfolding index_all
    index_all-injective [] [] is h g = refl
    index_all-injective [] (q ∷ qs) is h g = absurd (ground arith)
    index_all-injective (k ∷ ks) [] is h g = absurd (ground arith)
    index_all-injective (k ∷ ks) (q ∷ qs) is h g = elim (Option-cases (index_of c k)) [
      | inl e ↦ absurd (ground arith)
      | inr (i, e) ↦ elim (Option-cases (index_all c ks)) [
        | inl f ↦ absurd (ground arith)
        | inr (js, f) ↦ ground (arith, v.injective k q i e, index_all-injective ks qs js f)
      ]
    ]

  -- The entry for a scope and a list of numbers, put into the map.
  module _ (c : FieldQueryCache Cache) (s : ℕ) (r : T) where
    abbrev pub stored : EnumSizeIndex → FieldQueryCache Cache
    stored ix = record c {
      cache_data = L.put (record { scope_hash = s; idxs = ix }) r c.cache_data;
    }

    pub save_at-none : (is : List ℕ) → size_index is ≡ none → save_at L c s (some is) r ≡ c
    unfolding save_at
    save_at-none is size = rw (size, save_at)

    pub save_at-some :
        (is : List ℕ) (ix : EnumSizeIndex)
        → size_index is ≡ some ix
        → save_at L c s (some is) r ≡ stored ix
    unfolding save_at
    save_at-some is ix size = rw (size, save_at)

    -- The numbers of the tables do not move.
    pub stored_index : (ix : EnumSizeIndex) (k : Key) → index_of (stored ix) k ≡ index_of c k
    unfolding index_of
    stored_index ix (Key.str v) = refl
    stored_index ix _ = refl

  -- Storing a result under the numbers of the keys.
  module _ (c : FieldQueryCache Cache) (m : Memo T) (h : Holds L c m) (s : ℕ) (ks : List Key)
      (is : List ℕ) (r : T) (e : index_all c ks ≡ some is) where
    peek-stored :
        (ix : EnumSizeIndex) (s' : ℕ) (ix' : EnumSizeIndex) (r' : T)
        → peek_at L (stored c s r ix) s' ix' ≡ some r'
        → ((s ≡ s') × (ix ≡ ix') × (r ≡ r'))
          ⊎ ((¬ ((s ≡ s') × (ix ≡ ix'))) × (peek_at L c s' ix' ≡ some r'))
    peek-stored ix s' ix' r' p =
        let k : LocalCacheKey = record { scope_hash = s; idxs = ix } in
        let q : LocalCacheKey = record { scope_hash = s'; idxs = ix' } in
        elim (LocalCacheKey-discrete k q) [
          | yes same ↦
              let back : L.peek k (L.put k r c.cache_data) ≡ some r' =
                subst (λ x. L.peek x (L.put k r c.cache_data) ≡ some r') (sym same) p in
              inl (
                ap (λ (x : LocalCacheKey). x.scope_hash) same,
                ap (λ (x : LocalCacheKey). x.idxs) same,
                cc (L.peek-put_self k r c.cache_data),
              )
          | no other ↦ inr (
            (λ eq. other (λ i. record { scope_hash = eq.0 i; idxs = eq.1 i })),
            elim (L.peek-put_ne k q r c.cache_data other) [
              | inl kept ↦ cc
              | inr gone ↦ absurd (ground arith)
            ],
          )
        ]

    stored-IsValid : (ix : EnumSizeIndex) → size_index is ≡ some ix → IsValid L (stored c s r ix)
    stored-IsValid ix size = record {
      bounded = λ k i f. h.valid.bounded k i (cc (stored_index c s r ix k));
      injective = λ k q i f g.
          h.valid.injective k q i (cc (stored_index c s r ix k)) (cc (stored_index c s r ix q));
      entries = λ s' ix' r' p. elim (peek-stored ix s' ix' r' p) [
        | inl (_, e2, _) ↦
            subst (λ x. All (λ i. i ≤ c.idx_num) (index_list x)) e2
              (subst (All (λ i. i ≤ c.idx_num)) (sym (index_list-size_index is ix size))
                (index_all-bounded c h.valid ks is e))
        | inr (_, old) ↦ h.valid.entries s' ix' r' old
      ];
    }

    stored-Agrees :
        (ix : EnumSizeIndex)
        → size_index is ≡ some ix
        → Agrees L (stored c s r ix) (set_memo m s ks r)
    stored-Agrees ix size s' ks' is' ix' r' f0 g p =
        let f : index_all c ks' ≡ some is' =
          cc (index_all-tables c (stored c s r ix) (stored_index c s r ix) ks') in
        elim (peek-stored ix s' ix' r' p) [
          | inl (es, ei, er) ↦
              let lists : is ≡ is' =
                cc (index_list-size_index is ix size, index_list-size_index is' ix' g) in
              let keys : ks ≡ ks' = index_all-injective c h.valid ks ks' is e (rw lists f) in
              cc (set_memo_self m s ks r s' ks' es keys)
          | inr (other, old) ↦
              let apart : ¬ ((s ≡ s') × (ks ≡ ks')) =
                λ both. other (both.0, (ground (arith, both.1))) in
              cc (set_memo_ne m s ks r s' ks' apart, h.agrees s' ks' is' ix' r' f g old)
        ]

    pub save_at-Holds : Holds L (save_at L c s (some is) r) (set_memo m s ks r)
    save_at-Holds = elim (Option-cases (size_index is)) [
      | inl size ↦ rw (save_at-none c s r is size) (record {
        valid = h.valid;
        agrees = λ s' ks' is' ix' r' f g p.
            let apart : ¬ ((s ≡ s') × (ks ≡ ks')) = λ both. (ground (arith, both.1)) in
            cc (set_memo_ne m s ks r s' ks' apart, h.agrees s' ks' is' ix' r' f g p);
      })
      | inr (ix, size) ↦
          rw (save_at-some c s r is ix size)
            (record { valid = stored-IsValid ix size; agrees = stored-Agrees ix size })
    ]
