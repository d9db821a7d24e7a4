-- ===== src/Cache/Invariant.antt =====
-- `src/cache.rs`: when the local cache is well formed, and what it means that it holds the results
-- that were saved.
use wp_knowledge.Base.{ℕ, ◌≤◌, ◌≡◌, List, [], ◌∷◌, Option, none, some, arith, All}
use wp_knowledge.Base.Model.{Value}
use wp_knowledge.Lru.{Lru}
use wp_knowledge.Cache.Fields.{FieldQueryCache, EnumSizeIndex, LocalCacheKey, size_index}
use wp_knowledge.Cache.Keys.{Key, key_of, index_of}

pub index_list : EnumSizeIndex → List ℕ
index_list (EnumSizeIndex.idx1 a) = a ∷ []
index_list (EnumSizeIndex.idx2 a b) = a ∷ b ∷ []
index_list (EnumSizeIndex.idx3 a b c) = a ∷ b ∷ c ∷ []
index_list (EnumSizeIndex.idx4 a b c d) = a ∷ b ∷ c ∷ d ∷ []
index_list (EnumSizeIndex.idx5 a b c d e) = a ∷ b ∷ c ∷ d ∷ e ∷ []
index_list (EnumSizeIndex.idx6 a b c d e f) = a ∷ b ∷ c ∷ d ∷ e ∷ f ∷ []

pub index_list-size_index :
    (is : List ℕ) (ix : EnumSizeIndex) → size_index is ≡ some ix → index_list ix ≡ is
unfolding size_index index_list
index_list-size_index (a ∷ []) ix h = ground arith
index_list-size_index (a ∷ b ∷ []) ix h = ground arith
index_list-size_index (a ∷ b ∷ c ∷ []) ix h = ground arith
index_list-size_index (a ∷ b ∷ c ∷ d ∷ []) ix h = ground arith
index_list-size_index (a ∷ b ∷ c ∷ d ∷ e ∷ []) ix h = ground arith
index_list-size_index (a ∷ b ∷ c ∷ d ∷ e ∷ f ∷ []) ix h = ground arith
index_list-size_index _ ix h = cc

-- The keys of the parameters, if the cache takes every one.
unfoldable pub keys_of : List Value → Option (List Key)
keys_of [] = some []
keys_of (v ∷ vs) = elim (key_of v) [
  | none ↦ none
  | some k ↦ elim (keys_of vs) [ none ↦ none | some ks ↦ some (k ∷ ks) ]
]

unfoldable pub index_all : {C : Type 0} → FieldQueryCache C → List Key → Option (List ℕ)
index_all c [] = some []
index_all c (k ∷ ks) = elim (index_of c k) [
  | none ↦ none
  | some i ↦ elim (index_all c ks) [ none ↦ none | some is ↦ some (i ∷ is) ]
]

-- The results that a caller may expect: for a scope and the keys of the parameters.
abbrev pub Memo : Type 0 → Type 0
Memo T = ℕ → List Key → Option T

module _ {T : Type 0} (L : Lru LocalCacheKey T) where
  open L use {Cache, peek}

  abbrev pub peek_at : FieldQueryCache Cache → ℕ → EnumSizeIndex → Option T
  peek_at c s ix = peek (record { scope_hash = s; idxs = ix }) c.cache_data

  pub record IsValid (c : FieldQueryCache Cache) : Type 0 where
    -- Every number in a table was given out.
    pub bounded : (k : Key) (i : ℕ) → index_of c k ≡ some i → i ≤ c.idx_num
    -- No two keys have one number, whatever their tables.
    pub injective : (k q : Key) (i : ℕ) → index_of c k ≡ some i → index_of c q ≡ some i → k ≡ q
    -- No entry is stored under a number that is still to come.
    pub entries :
        (s : ℕ) (ix : EnumSizeIndex) (r : T)
        → peek_at c s ix ≡ some r
        → All (λ i. i ≤ c.idx_num) (index_list ix)

  -- Every result that the numbers of some keys lead to is the one that `m` holds for the keys.
  abbrev pub Agrees : FieldQueryCache Cache → Memo T → Type 0
  Agrees c m =
      (s : ℕ) (ks : List Key) (is : List ℕ) (ix : EnumSizeIndex) (r : T)
      → index_all c ks ≡ some is
      → size_index is ≡ some ix
      → peek_at c s ix ≡ some r
      → m s ks ≡ some r

  pub record Holds (c : FieldQueryCache Cache) (m : Memo T) : Type 0 where
    pub valid : IsValid c
    pub agrees : Agrees c m
