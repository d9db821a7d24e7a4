-- ===== src/Cache/Split.antt =====
-- `src/cache.rs`: what happens when the reset falls between two parameters of one `save_scoped`.
use wp_knowledge.Base.{
  ℕ, zero, suc, ◌+◌, ◌≤◌, ◌<◌, ◌≡◌, refl, sym, ap, ◌∙◌, [], ◌∷◌, none, some, arith, find, Bytes,
}
use wp_knowledge.Base.Model.{Value}
use wp_knowledge.Lru.{Lru}
use wp_knowledge.Cache.Fields.{
  FieldQueryCache, EnumSizeIndex, LocalCacheKey, size_index, max_local_idx, with_capacity, up_value,
  reset, try_up_idx, cons_some, try_up_all, save_at, save_scoped, fetch_at, fetch_scoped,
}
use wp_knowledge.Cache.Keys.{
  Key, key_of, index_of, add_key, up_key, add_key_self, add_key_ne, add_key_rest, up_value-some,
}
use wp_knowledge.Cache.Invariant.{keys_of, index_all, peek_at}
use wp_knowledge.Cache.Alloc.{Keeps, add_key-Keeps}
use wp_knowledge.Cache.Scope.{get_all-some}
use wp_knowledge.Cache.Contract.{fetch_scoped_lem, fetch_at_lem, save_scoped_lem}

module _ {T : Type 0} (L : Lru LocalCacheKey T) where
  open L use {Cache}

  -- A new key, below the limit.
  try_up_idx_new :
      (c : FieldQueryCache Cache) (v : Value) (k : Key)
      → c.idx_num < max_local_idx
      → key_of v ≡ some k
      → index_of c k ≡ none
      → try_up_idx L c v ≡ (add_key c k, some (c.idx_num + 1))
  unfolding try_up_idx up_key
  try_up_idx_new c v k low e new =
      let one : try_up_idx L c v ≡ up_value c v = ground arith in
      one ∙ up_value-some c v k e ∙ (rw (new, up_key) refl)

  -- At the limit the tables are emptied first.
  try_up_idx_full :
      (c : FieldQueryCache Cache) (t : Bytes)
      → c.idx_num ≡ max_local_idx
      → try_up_idx L c (Value.chars t) ≡ (add_key (reset L c) (Key.str t), some 1)
  unfolding try_up_idx up_value reset add_key find
  try_up_idx_full c t full = ground arith

  try_up_all_two :
      (c : FieldQueryCache Cache) (v w : Value)
      → try_up_all L c (v ∷ w ∷ []) ≡ (
        (try_up_idx L (try_up_idx L c v).0 w).0,
        cons_some
            (try_up_idx L c v).1
            (cons_some (try_up_idx L (try_up_idx L c v).0 w).1 (some [])),
      )
  unfolding try_up_all
  try_up_all_two c v w = refl

  abbrev pub split_cache : FieldQueryCache Cache → Key → Bytes → ℕ → T → FieldQueryCache Cache
  split_cache c k t s r =
      let c' = add_key (reset L (add_key c k)) (Key.str t) in
      record c' {
        cache_data =
            L.put (record { scope_hash = s; idxs = EnumSizeIndex.idx2 max_local_idx 1 }) r
              c'.cache_data;
      }

  module _ (c : FieldQueryCache Cache) (s : ℕ) (v : Value) (k : Key) (t : Bytes) (r : T)
      (last : c.idx_num + 1 ≡ max_local_idx) (e : key_of v ≡ some k)
      (new : index_of c k ≡ none) where
    try_up_all_split :
        try_up_all L c (v ∷ Value.chars t ∷ [])
        ≡ (add_key (reset L (add_key c k)) (Key.str t), some (max_local_idx ∷ 1 ∷ []))
    try_up_all_split =
        rw
          (
            try_up_all_two c v (Value.chars t),
            try_up_idx_new c v k (omega arith) e new,
            try_up_idx_full (add_key c k) t (omega (arith, add_key_rest c k)),
            last,
          )
          refl

    pub save_split : save_scoped L c s (v ∷ Value.chars t ∷ []) r ≡ split_cache c k t s r
    save_split =
        rw (save_scoped_lem L c s (v ∷ Value.chars t ∷ []) r, try_up_all_split)
          (unfold save_at in refl)

  -- Saves whose first parameter the cache does not take give out a number and store nothing.
  unfoldable pub fill : ℕ → ℕ → T → FieldQueryCache Cache → FieldQueryCache Cache
  fill zero base r c = c
  fill (suc n) base r c =
      fill n (base + 1) r (save_scoped L c 0 (Value.null ∷ Value.big_uint base ∷ []) r)

  try_up_idx_null :
      (c : FieldQueryCache Cache)
      → c.idx_num < max_local_idx
      → try_up_idx L c Value.null ≡ (c, none)
  unfolding try_up_idx
  try_up_idx_null c low = ground arith

  fill_step :
      (c : FieldQueryCache Cache) (base : ℕ) (r : T)
      → c.idx_num < max_local_idx
      → index_of c (Key.biguint base) ≡ none
      → save_scoped L c 0 (Value.null ∷ Value.big_uint base ∷ []) r ≡ add_key c (Key.biguint base)
  fill_step c base r low new =
      rw
        (
          save_scoped_lem L c 0 (Value.null ∷ Value.big_uint base ∷ []) r,
          try_up_all_two c Value.null (Value.big_uint base),
          try_up_idx_null c low,
          try_up_idx_new c (Value.big_uint base) (Key.biguint base) low (unfold key_of in refl) new,
        )
        (unfold save_at in refl)

  -- No number is given to these keys yet.
  abbrev pub Unseen : FieldQueryCache Cache → ℕ → Type 0
  Unseen c base = (i : ℕ) → base ≤ i → index_of c (Key.biguint i) ≡ none

  pub new_Unseen : (size : ℕ) → Unseen (with_capacity L size) 0
  unfolding with_capacity index_of find
  new_Unseen size i le = refl

  Unseen-add_key :
      (c : FieldQueryCache Cache) (base : ℕ)
      → Unseen c base
      → Unseen (add_key c (Key.biguint base)) (base + 1)
  Unseen-add_key c base h i le =
      add_key_ne c (Key.biguint base) (Key.biguint i) (λ e. absurd (ground arith))
      ∙ h i (omega arith)

  fill-suc :
      (n base : ℕ) (r : T) (c : FieldQueryCache Cache)
      → c.idx_num < max_local_idx
      → Unseen c base
      → fill (suc n) base r c ≡ fill n (base + 1) r (add_key c (Key.biguint base))
  unfolding fill
  fill-suc n base r c low h =
      ap (fill n (base + 1) r) (fill_step c base r low (h base (omega arith)))

  -- What the new keys do not touch: the numbers given before, the entries, the texts.
  pub record Filled (c c' : FieldQueryCache Cache) (n : ℕ) : Type 0 where
    pub keep : Keeps c c'
    pub same : c'.cache_data ≡ c.cache_data
    pub count : c'.idx_num ≡ c.idx_num + n
    pub texts : (t : Bytes) → index_of c' (Key.str t) ≡ index_of c (Key.str t)

  pub fill-Filled :
      (n base : ℕ) (r : T) (c : FieldQueryCache Cache)
      → c.idx_num + n ≤ max_local_idx
      → Unseen c base
      → Filled c (fill n base r c) n
  fill-Filled zero base r c room h =
      unfold fill in
      record { keep = λ k i e. e; same = refl; count = omega arith; texts = λ t. refl }
  fill-Filled (suc n) base r c room h =
      let k = Key.biguint base in
      let rest = add_key_rest c k in
      let f =
        fill-Filled n (base + 1) r (add_key c k) (omega (arith, rest)) (Unseen-add_key c base h) in
      rw (fill-suc n base r c (omega arith) h) (record {
        keep = λ q i e. f.keep q i (add_key-Keeps c k (h base (omega arith)) q i e);
        same = f.same ∙ rest.1;
        count = omega (arith, rest, f.count);
        texts = λ t. f.texts t ∙ add_key_ne c k (Key.str t) (λ e. cc);
      })

  -- The last of the new keys has the last number.
  pub fill_last :
      (n base : ℕ) (r : T) (c : FieldQueryCache Cache)
      → c.idx_num + suc n ≤ max_local_idx
      → Unseen c base
      → index_of (fill (suc n) base r c) (Key.biguint (base + n)) ≡ some (c.idx_num + suc n)
  fill_last zero base r c room h =
      let e : base + 0 ≡ base = omega arith in
      let f : c.idx_num + 1 ≡ c.idx_num + suc 0 = omega arith in
      rw (fill-suc 0 base r c (omega arith) h, e)
        (unfold fill in (add_key_self c (Key.biguint base) ∙ ap some f))
  fill_last (suc n) base r c room h =
      let c' = add_key c (Key.biguint base) in
      let rest = add_key_rest c (Key.biguint base) in
      let e : base + 1 + n ≡ base + suc n = omega arith in
      let f : c'.idx_num + suc n ≡ c.idx_num + suc (suc n) = omega (arith, rest) in
      let ih = fill_last n (base + 1) r c' (omega (arith, rest)) (Unseen-add_key c base h) in
      rw (fill-suc (suc n) base r c (omega arith) h) (
        ap (λ (x : ℕ). index_of (fill (suc n) (base + 1) r c') (Key.biguint x)) (sym e)
        ∙ ih
        ∙ ap some f)

  pub fetch_two :
      (c : FieldQueryCache Cache) (s : ℕ) (v w : Value) (k q : Key) (i j : ℕ)
      → key_of v ≡ some k
      → key_of w ≡ some q
      → index_of c k ≡ some i
      → index_of c q ≡ some j
      → fetch_scoped L c s (v ∷ w ∷ []) ≡ peek_at L c s (EnumSizeIndex.idx2 i j)
  fetch_two c s v w k q i j ev ew ek eq =
      let ks : keys_of (v ∷ w ∷ []) ≡ some (k ∷ q ∷ []) = unfold keys_of in ground arith in
      let is : index_all c (k ∷ q ∷ []) ≡ some (i ∷ j ∷ []) = unfold index_all in ground arith in
      fetch_scoped_lem L c s (v ∷ w ∷ [])
      ∙ ap (fetch_at L c s) (get_all-some L c (v ∷ w ∷ []) (k ∷ q ∷ []) ks ∙ is)
      ∙ fetch_at_lem L c s (i ∷ j ∷ []) (EnumSizeIndex.idx2 i j) (unfold size_index in refl)
