-- ===== src/Cache/StaleHit.antt =====
-- `src/cache.rs`: a fetch after a save that a reset split between two parameters.
use wp_knowledge.Base.{
  ℕ, suc, ◌+◌, ◌≡◌, ◌≤◌, refl, sym, ap, ◌∙◌, [], ◌∷◌, some, none, arith, Bytes, find,
}
use wp_knowledge.Base.Model.{Value}
use wp_knowledge.Lru.{Lru}
use wp_knowledge.Cache.Fields.{
  FieldQueryCache, EnumSizeIndex, LocalCacheKey, max_local_idx, with_capacity, reset, save_scoped,
  fetch_scoped,
}
use wp_knowledge.Cache.Keys.{Key, key_of, index_of, add_key, add_key_self}
use wp_knowledge.Cache.Invariant.{peek_at}
use wp_knowledge.Cache.Split.{
  split_cache, save_split, fill, Unseen, new_Unseen, fill-Filled, fill_last, fetch_two,
}

module _ {T : Type 0} (L : Lru LocalCacheKey T) (size s : ℕ) (u t : Bytes) (r r' : T) (n : ℕ) where
  open L use {Cache}

  -- A new cache with all numbers but one given out, and nothing stored.
  abbrev before : FieldQueryCache Cache
  before = fill L (suc n) 0 r' (with_capacity L size)

  abbrev pair_saved : FieldQueryCache Cache
  pair_saved = save_scoped L before s (Value.chars u ∷ Value.chars t ∷ []) r

  split_Unseen : Unseen L (split_cache L before (Key.str u) t s r) 0
  unfolding add_key reset index_of find
  split_Unseen i le = refl

  split_idx_num : (split_cache L before (Key.str u) t s r).idx_num ≡ 1
  unfolding add_key reset
  split_idx_num = refl

  reset_idx_num : (c : FieldQueryCache Cache) → (reset L c).idx_num ≡ 0
  unfolding reset
  reset_idx_num c = refl

  split_index : index_of (split_cache L before (Key.str u) t s r) (Key.str t) ≡ some 1
  unfolding index_of
  split_index =
      let c = reset L (add_key before (Key.str u)) in
      add_key_self c (Key.str t)
      ∙ ap some (omega (arith, reset_idx_num (add_key before (Key.str u))))

  new_idx_num : (with_capacity L size).idx_num ≡ 0
  unfolding with_capacity
  new_idx_num = refl

  new_text : index_of (with_capacity L size) (Key.str u) ≡ none
  unfolding with_capacity index_of find
  new_text = refl

  split_peek :
      peek_at L (split_cache L before (Key.str u) t s r) s (EnumSizeIndex.idx2 max_local_idx 1)
      ≡ some r
  split_peek =
      L.peek-put_self (record { scope_hash = s; idxs = EnumSizeIndex.idx2 max_local_idx 1 }) r _

  -- The cache after a second series of such saves.
  abbrev pub refilled : FieldQueryCache Cache
  refilled = fill L (suc n) 0 r' pair_saved

  -- With the largest number but one given out, a save for the texts `u` and `t` splits: the reset falls
  -- between them. Once the numbers are given out again, a fetch for the integer `n` and the text `t`,
  -- for which nothing was ever saved, returns the result of that save.
  pub wrong_hit :
      n + 2 ≡ max_local_idx
      → fetch_scoped L refilled s (Value.big_uint n ∷ Value.chars t ∷ []) ≡ some r
  wrong_hit limit =
      let d = split_cache L before (Key.str u) t s r in
      let f0 =
        fill-Filled L (suc n) 0 r' (with_capacity L size) (omega (arith, new_idx_num))
          (new_Unseen L size) in
      let saved : pair_saved ≡ d =
        save_split L before s (Value.chars u) (Key.str u) t r (omega (arith, f0.count, new_idx_num))
          (unfold key_of in refl) (f0.texts u ∙ new_text) in
      let room : d.idx_num + suc n ≤ max_local_idx = omega (arith, split_idx_num) in
      let f = fill-Filled L (suc n) 0 r' d room split_Unseen in
      let zero_add : 0 + n ≡ n = omega arith in
      let top : d.idx_num + suc n ≡ max_local_idx = omega (arith, split_idx_num) in
      let last : index_of (fill L (suc n) 0 r' d) (Key.biguint n) ≡ some max_local_idx =
        ap (λ (x : ℕ). index_of (fill L (suc n) 0 r' d) (Key.biguint x)) (sym zero_add)
        ∙ fill_last L n 0 r' d room split_Unseen
        ∙ ap some top in
      rw saved (
        fetch_two L (fill L (suc n) 0 r' d) s (Value.big_uint n) (Value.chars t) (Key.biguint n)
          (Key.str t) max_local_idx 1 (unfold key_of in refl) (unfold key_of in refl) last
          (f.texts t ∙ split_index)
        ∙ ap (L.peek (record { scope_hash = s; idxs = EnumSizeIndex.idx2 max_local_idx 1 })) f.same
        ∙ split_peek)
