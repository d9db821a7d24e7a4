-- ===== src/Cache/Contract.antt =====
-- `src/cache.rs`: what a caller of the local cache may rely on.
use wp_knowledge.Base.{
  ℕ, ◌+◌, ◌≤◌, ◌≡◌, refl, ap, ◌∙◌, List, [], ◌∷◌, Option, none, some, ◌⊎◌, inl, inr, arith,
  Option-cases, leb, if◌then◌else◌, length, Bool-cases,
}
use wp_knowledge.Base.Model.{Value}
use wp_knowledge.Lru.{Lru}
use wp_knowledge.Cache.Fields.{
  FieldQueryCache, LocalCacheKey, EnumSizeIndex, size_index, max_local_idx, reset, try_up_idx,
  try_up_all, save_at, save_scoped, get_all, fetch_at, fetch_scoped,
}
use wp_knowledge.Cache.Keys.{Key, key_of, index_of}
use wp_knowledge.Cache.Invariant.{keys_of, index_all, Memo, peek_at, Holds}
use wp_knowledge.Cache.Save.{empty_memo, set_memo, reset-Holds, IndexedAll, try_up_all-Indexed}
use wp_knowledge.Cache.Scope.{index_all-tables, get_all-none, get_all-some}
use wp_knowledge.Cache.Store.{save_at-Holds, save_at-some, stored, stored_index}

length-keys_of :
    (params : List Value) (ks : List Key) → keys_of params ≡ some ks → length ks ≡ length params
unfolding keys_of
length-keys_of [] ks e = ground arith
length-keys_of (v ∷ vs) ks e = elim (Option-cases (key_of v)) [
  | inl f ↦ absurd (ground arith)
  | inr (k, f) ↦ elim (Option-cases (keys_of vs)) [
    | inl g ↦ absurd (ground arith)
    | inr (qs, g) ↦ ground (arith, length-keys_of vs qs g)
  ]
]

length-index_all :
    {C : Type 0} (c : FieldQueryCache C) (ks : List Key) (is : List ℕ)
    → index_all c ks ≡ some is
    → length is ≡ length ks
unfolding index_all
length-index_all c [] is e = ground arith
length-index_all c (k ∷ ks) is e = elim (Option-cases (index_of c k)) [
  | inl f ↦ absurd (ground arith)
  | inr (i, f) ↦ elim (Option-cases (index_all c ks)) [
    | inl g ↦ absurd (ground arith)
    | inr (js, g) ↦ ground (arith, length-index_all c ks js g)
  ]
]

module _ {T : Type 0} (L : Lru LocalCacheKey T) where
  open L use {Cache}

  -- No reset falls between two parameters of one call: it is due before the first, or not at all.
  abbrev pub IsWhole : FieldQueryCache Cache → List Value → Type 0
  IsWhole c params = (max_local_idx ≤ c.idx_num) ⊎ (c.idx_num + length params ≤ max_local_idx)

  abbrev pub IsArray : List Value → Type 0
  IsArray params = (1 ≤ length params) × (length params ≤ 6)

  -- The results expected after a save: none of the old ones if the tables are reset.
  abbrev pub survivors : FieldQueryCache Cache → Memo T → Memo T
  survivors c m = if leb max_local_idx c.idx_num then empty_memo else m

  abbrev pub after_save : FieldQueryCache Cache → Memo T → ℕ → List Value → T → Memo T
  after_save c m s params r = elim (keys_of params) [
    | none ↦ survivors c m
    | some ks ↦ set_memo (survivors c m) s ks r
  ]

  -- A full cache is reset by the first parameter.
  abbrev pub start : FieldQueryCache Cache → FieldQueryCache Cache
  start c = if leb max_local_idx c.idx_num then reset L c else c

  pub try_up_all-start :
      (c : FieldQueryCache Cache) (v : Value) (vs : List Value)
      → try_up_all L c (v ∷ vs) ≡ try_up_all L (start c) (v ∷ vs)
  unfolding try_up_all try_up_idx reset
  try_up_all-start c v vs = elim (Bool-cases (leb max_local_idx c.idx_num)) [
    | inl e ↦ rw e refl
    | inr e ↦ rw e (rw e refl)
  ]

  pub start-Holds :
      (c : FieldQueryCache Cache) (m : Memo T) → Holds L c m → Holds L (start c) (survivors c m)
  start-Holds c m h = elim (Bool-cases (leb max_local_idx c.idx_num)) [
    | inl e ↦ rw e (reset-Holds L c)
    | inr e ↦ rw e h
  ]

  pub start-room :
      (c : FieldQueryCache Cache) (params : List Value)
      → IsArray params
      → IsWhole c params
      → (start c).idx_num + length params ≤ max_local_idx
  unfolding reset
  start-room c params a w = ground arith

  save_at_absent : (c : FieldQueryCache Cache) (s : ℕ) (r : T) → save_at L c s none r ≡ c
  unfolding save_at
  save_at_absent c s r = refl

  save_of_Indexed :
      (c : FieldQueryCache Cache) (m : Memo T) (s : ℕ) (params : List Value) (os : Option (List ℕ))
      (r : T)
      → Holds L c m
      → IndexedAll L c params os
      → Holds L
          (save_at L c s os r)
          (elim (keys_of params) [ none ↦ m | some ks ↦ set_memo m s ks r ])
  save_of_Indexed c m s params os r h (inl (e, f)) = rw (e, f, save_at_absent c s r) h
  save_of_Indexed c m s params os r h (inr (ks, is, e, f, g)) =
      rw (e, f) (save_at-Holds L c m h s ks is r g)

  pub save_scoped_lem :
      (c : FieldQueryCache Cache) (s : ℕ) (params : List Value) (r : T)
      → save_scoped L c s params r
        ≡ save_at L (try_up_all L c params).0 s (try_up_all L c params).1 r
  unfolding save_scoped
  save_scoped_lem c s params r = refl

  -- After a save in one piece the cache is well formed, and all that can be read from it is what
  -- was there before, less a reset or evictions, with the new result for its scope and parameters.
  pub save_scoped-Holds :
      (c : FieldQueryCache Cache) (m : Memo T) (s : ℕ) (params : List Value) (r : T)
      → Holds L c m
      → IsArray params
      → IsWhole c params
      → Holds L (save_scoped L c s params r) (after_save c m s params r)
  save_scoped-Holds c m s [] r h a w = absurd (omega arith)
  save_scoped-Holds c m s (v ∷ vs) r h a w =
      let ps = v ∷ vs in
      let (held, _, indexed, _) =
        try_up_all-Indexed L (start c) (survivors c m) ps (start-Holds c m h)
          (start-room c ps a w) in
      rw (save_scoped_lem c s ps r, try_up_all-start c v vs)
        (save_of_Indexed _ (survivors c m) s ps _ r held indexed)

  -- A hit is never stale and never another query's: what `fetch_scoped` returns is what is expected
  -- for this scope and these parameters.
  pub fetch_scoped_sound :
      (c : FieldQueryCache Cache) (m : Memo T) (s : ℕ) (params : List Value) (r : T)
      → Holds L c m
      → fetch_scoped L c s params ≡ some r
      → (ks : List Key) × (keys_of params ≡ some ks) × (m s ks ≡ some r)
  unfolding fetch_scoped fetch_at
  fetch_scoped_sound c m s params r h hit = elim (Option-cases (keys_of params)) [
    | inl e ↦ absurd (ground (arith, get_all-none L c params e))
    | inr (ks, e) ↦ elim (Option-cases (index_all c ks)) [
      | inl f ↦ absurd (ground (arith, get_all-some L c params ks e))
      | inr (is, f) ↦ elim (Option-cases (size_index is)) [
        | inl g ↦ absurd (ground (arith, get_all-some L c params ks e))
        | inr (ix, g) ↦
            let p : peek_at L c s ix ≡ some r = ground (arith, get_all-some L c params ks e) in
            (ks, e, h.agrees s ks is ix r f g p)
      ]
    ]
  ]

  size_index_array :
      (is : List ℕ)
      → 1 ≤ length is
      → length is ≤ 6
      → (ix : EnumSizeIndex) × (size_index is ≡ some ix)
  unfolding size_index
  size_index_array [] low high = absurd (omega arith)
  size_index_array (a ∷ []) low high = (_, refl)
  size_index_array (a ∷ b ∷ []) low high = (_, refl)
  size_index_array (a ∷ b ∷ c ∷ []) low high = (_, refl)
  size_index_array (a ∷ b ∷ c ∷ d ∷ []) low high = (_, refl)
  size_index_array (a ∷ b ∷ c ∷ d ∷ e ∷ []) low high = (_, refl)
  size_index_array (a ∷ b ∷ c ∷ d ∷ e ∷ f ∷ []) low high = (_, refl)
  size_index_array _ low high = absurd (omega arith)

  lengths :
      (c : FieldQueryCache Cache) (params : List Value) (ks : List Key) (is : List ℕ)
      → keys_of params ≡ some ks
      → index_all c ks ≡ some is
      → length is ≡ length params
  lengths c params ks is e f = length-index_all c ks is f ∙ length-keys_of params ks e

  pub fetch_scoped_lem :
      (c : FieldQueryCache Cache) (s : ℕ) (params : List Value)
      → fetch_scoped L c s params ≡ fetch_at L c s (get_all L c params)
  unfolding fetch_scoped
  fetch_scoped_lem c s params = refl

  pub fetch_at_lem :
      (c : FieldQueryCache Cache) (s : ℕ) (is : List ℕ) (ix : EnumSizeIndex)
      → size_index is ≡ some ix
      → fetch_at L c s (some is) ≡ peek_at L c s ix
  unfolding fetch_at
  fetch_at_lem c s is ix g = rw (g, fetch_at) refl

  fetch_stored :
      (c : FieldQueryCache Cache) (s : ℕ) (params : List Value) (r : T) (ks : List Key)
      (is : List ℕ) (ix : EnumSizeIndex)
      → keys_of params ≡ some ks
      → index_all c ks ≡ some is
      → size_index is ≡ some ix
      → fetch_scoped L (save_at L c s (some is) r) s params ≡ some r
  fetch_stored c s params r ks is ix e f g = rw (save_at-some L c s r is ix g) (
      let c' = stored L c s r ix in
      let k : LocalCacheKey = record { scope_hash = s; idxs = ix } in
      let found : get_all L c' params ≡ some is =
        get_all-some L c' params ks e ∙ index_all-tables c c' (stored_index L c s r ix) ks ∙ f in
      fetch_scoped_lem c' s params
      ∙ ap (fetch_at L c' s) found
      ∙ fetch_at_lem c' s is ix g
      ∙ L.peek-put_self k r c.cache_data)

  read_back :
      (c : FieldQueryCache Cache) (s : ℕ) (params : List Value) (os : Option (List ℕ)) (r : T)
      (ks : List Key)
      → keys_of params ≡ some ks
      → IsArray params
      → IndexedAll L c params os
      → fetch_scoped L (save_at L c s os r) s params ≡ some r
  read_back c s params os r ks e a (inl (f, g)) = absurd (ground arith)
  read_back c s params os r ks e a (inr (qs, is, f, g, j)) =
      let n : length is ≡ length params = lengths c params qs is f j in
      let (ix, size) = size_index_array is (omega arith) (omega arith) in
      rw g (fetch_stored c s params r qs is ix f j size)

  -- A save in one piece of parameters that the cache takes is read back at once.
  pub fetch_scoped-save_scoped :
      (c : FieldQueryCache Cache) (m : Memo T) (s : ℕ) (params : List Value) (r : T) (ks : List Key)
      → Holds L c m
      → IsArray params
      → IsWhole c params
      → keys_of params ≡ some ks
      → fetch_scoped L (save_scoped L c s params r) s params ≡ some r
  fetch_scoped-save_scoped c m s [] r ks h a w e = absurd (omega arith)
  fetch_scoped-save_scoped c m s (v ∷ vs) r ks h a w e =
      let ps = v ∷ vs in
      let (held, _, indexed, _) =
        try_up_all-Indexed L (start c) (survivors c m) ps (start-Holds c m h)
          (start-room c ps a w) in
      rw (save_scoped_lem c s ps r, try_up_all-start c v vs) (read_back _ s ps _ r ks e a indexed)
