-- ===== src/Cache/Save.antt =====
-- `src/cache.rs`: `save_scoped` against the results that it is to hold.
use wp_knowledge.Base.{
  ℕ, ◌+◌, ◌≤◌, ◌<◌, ◌≡◌, refl, ◌∙◌, List, [], ◌∷◌, Option, none, some, ◌⊎◌, inl, inr, arith, find,
  Option-cases, ite, if_pos, if_neg, ℕ_discrete, length,
}
use wp_knowledge.Base.Model.{Value}
use wp_knowledge.Lru.{Lru}
use wp_knowledge.Cache.Fields.{
  FieldQueryCache, LocalCacheKey, EnumSizeIndex, max_local_idx, up_value, reset, try_up_idx,
  cons_some, try_up_all,
}
use wp_knowledge.Cache.Keys.{
  Key, key_of, index_of, up_key, add_key_self, add_key_rest, up_value-none, up_value-some,
}
use wp_knowledge.Cache.Invariant.{keys_of, index_all, Memo, peek_at, Holds}
use wp_knowledge.Cache.Alloc.{Keeps, add_key-Keeps, add_key-Holds}

abbrev pub empty_memo : {T : Type 0} → Memo T
empty_memo s ks = none

unfoldable pub Keys-discrete : Discrete (List Key)
Keys-discrete = hlevel ℕ_discrete

unfoldable pub set_memo : {T : Type 0} → Memo T → ℕ → List Key → T → Memo T
set_memo m s ks r s' ks' =
    ite (ℕ_discrete s s') (ite (Keys-discrete ks ks') (some r) (m s' ks')) (m s' ks')

module _ {T : Type 0} (m : Memo T) (s : ℕ) (ks : List Key) (r : T) (s' : ℕ) (ks' : List Key) where
  pub set_memo_self : s ≡ s' → ks ≡ ks' → set_memo m s ks r s' ks' ≡ some r
  unfolding set_memo
  set_memo_self e f = rw (if_pos (ℕ_discrete s s') e _ _) (if_pos (Keys-discrete ks ks') f _ _)

  pub set_memo_ne : ¬ ((s ≡ s') × (ks ≡ ks')) → set_memo m s ks r s' ks' ≡ m s' ks'
  unfolding set_memo
  set_memo_ne h = elim (ℕ_discrete s s') [
    | no e ↦ if_neg (ℕ_discrete s s') e _ _
    | yes e ↦ elim (Keys-discrete ks ks') [
      | yes f ↦ absurd (h (e, f))
      | no f ↦ rw (if_pos (ℕ_discrete s s') e _ _) (if_neg (Keys-discrete ks ks') f _ _)
    ]
  ]

module _ {T : Type 0} (L : Lru LocalCacheKey T) where
  open L use {Cache}

  pub reset-Holds : (c : FieldQueryCache Cache) → Holds L (reset L c) empty_memo
  unfolding reset index_of find
  reset-Holds c = record {
    valid = record {
      bounded = bounded;
      injective = λ k q i h g. absurd (none-index k i h);
      entries = λ s ix r h. absurd (no_entry s ix r h);
    };
    agrees = λ s ks is ix r h g p. absurd (no_entry s ix r p);
  }
    where
      none-index : (k : Key) (i : ℕ) → index_of (reset L c) k ≡ some i → ⊥
      none-index (Key.str v) i h = cc
      none-index _ i h = cc

      bounded : (k : Key) (i : ℕ) → index_of (reset L c) k ≡ some i → i ≤ 0
      bounded k i h = absurd (none-index k i h)

      no_entry : (s : ℕ) (ix : EnumSizeIndex) (r : T) → peek_at L (reset L c) s ix ≡ some r → ⊥
      no_entry s ix r h = cc (L.peek-clear (record { scope_hash = s; idxs = ix }) c.cache_data)

  -- One allocation that makes no reset.
  record Upped (c : FieldQueryCache Cache) (m : Memo T) (c' : FieldQueryCache Cache) : Type 0 where
    holds : Holds L c' m
    keeps : Keeps c c'
    grows : c'.idx_num ≤ c.idx_num + 1
    gens : c'.generations ≡ c.generations

  up_key-Upped :
      (c : FieldQueryCache Cache) (m : Memo T) (k : Key)
      → Holds L c m
      → Upped c m (up_key c k).0 × (index_of (up_key c k).0 k ≡ some (up_key c k).1)
  unfolding up_key
  up_key-Upped c m k h = elim (Option-cases (index_of c k)) [
    | inl e ↦
        rw (e, up_key)
          (
            record {
              holds = add_key-Holds L c m h k e;
              keeps = add_key-Keeps c k e;
              grows = omega (arith, add_key_rest c k);
              gens = (add_key_rest c k).2;
            },
            add_key_self c k,
          )
    | inr (i, e) ↦
        rw (e, up_key)
          (record { holds = h; keeps = λ q j g. g; grows = omega arith; gens = refl }, e)
  ]

  -- The result of an allocation for a parameter: none exactly if the cache does not take it.
  abbrev Indexed : FieldQueryCache Cache → Value → Option ℕ → Type 0
  Indexed c v o =
      (key_of v ≡ none) × (o ≡ none)
      ⊎ ((k : Key) × (i : ℕ) × (key_of v ≡ some k) × (o ≡ some i) × (index_of c k ≡ some i))

  up_value-Upped :
      (c : FieldQueryCache Cache) (m : Memo T) (v : Value)
      → Holds L c m
      → Upped c m (up_value c v).0 × Indexed (up_value c v).0 v (up_value c v).1
  up_value-Upped c m v h = elim (Option-cases (key_of v)) [
    | inl e ↦
        rw (up_value-none c v e) (
          record { holds = h; keeps = λ q j g. g; grows = omega arith; gens = refl },
          inl (e, refl),
        )
    | inr (k, e) ↦
        let (u, i) = up_key-Upped c m k h in
        rw (up_value-some c v k e) (u, inr (k, (up_key c k).1, e, refl, i))
  ]

  -- Below the limit there is no reset.
  try_up_idx_low :
      (c : FieldQueryCache Cache) (v : Value)
      → c.idx_num < max_local_idx
      → try_up_idx L c v ≡ up_value c v
  unfolding try_up_idx
  try_up_idx_low c v h = ground arith

  abbrev pub IndexedAll : FieldQueryCache Cache → List Value → Option (List ℕ) → Type 0
  IndexedAll c vs o =
      (keys_of vs ≡ none) × (o ≡ none)
      ⊎ ((ks : List Key) × (is : List ℕ) × (keys_of vs ≡ some ks)
          × (o ≡ some is)
          × (index_all c ks ≡ some is))

  try_up_all-cons :
      (c : FieldQueryCache Cache) (v : Value) (vs : List Value)
      → c.idx_num < max_local_idx
      → try_up_all L c (v ∷ vs) ≡ (
        (try_up_all L (up_value c v).0 vs).0,
        cons_some (up_value c v).1 (try_up_all L (up_value c v).0 vs).1,
      )
  unfolding try_up_all
  try_up_all-cons c v vs h = rw (try_up_idx_low c v h) refl

  Indexed-cons :
      (c' c'' : FieldQueryCache Cache) (v : Value) (vs : List Value) (o : Option ℕ)
      (os : Option (List ℕ))
      → Keeps c' c''
      → Indexed c' v o
      → IndexedAll c'' vs os
      → IndexedAll c'' (v ∷ vs) (cons_some o os)
  unfolding keys_of index_all
  Indexed-cons c' c'' v vs o os keep (inl (a, b)) rest = inl (ground arith, ground arith)
  Indexed-cons c' c'' v vs o os keep (inr (k, i, a, b, e)) (inl (f, g)) =
      inl (ground arith, ground arith)
  Indexed-cons c' c'' v vs o os keep (inr (k, i, a, b, e)) (inr (ks, is, f, g, j)) =
      inr (k ∷ ks, i ∷ is, ground arith, ground arith, ground (arith, keep k i e))

  pub try_up_all-Indexed :
      (c : FieldQueryCache Cache) (m : Memo T) (vs : List Value)
      → Holds L c m
      → c.idx_num + length vs ≤ max_local_idx
      → Holds L (try_up_all L c vs).0 m
        × Keeps c (try_up_all L c vs).0
        × IndexedAll (try_up_all L c vs).0 vs (try_up_all L c vs).1
        × ((try_up_all L c vs).0.generations ≡ c.generations)
  try_up_all-Indexed c m [] h room =
      unfold try_up_all keys_of index_all in (h, λ k i e. e, inr ([], [], refl, refl, refl), refl)
  try_up_all-Indexed c m (v ∷ vs) h room =
      let c' = (up_value c v).0 in
      let (u, one) = up_value-Upped c m v h in
      let (h'', keep, rest, same) = try_up_all-Indexed c' m vs u.holds (omega (arith, u.grows)) in
      rw (try_up_all-cons c v vs (omega arith)) (
        h'',
        λ k i e. keep k i (u.keeps k i e),
        Indexed-cons c' _ v vs _ _ keep one rest,
        same ∙ u.gens,
      )
