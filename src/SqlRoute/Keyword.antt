-- ===== src/SqlRoute/Keyword.antt =====
-- `src/sql_route.rs`: what `find_keyword` finds.
use wp_knowledge.Base.{
  ℕ, zero, suc, ◌+◌, ◌-◌, ◌<◌, ◌≡◌, refl, sym, subst, ◌∙◌, Bool, true, false, [], ◌∷◌, Option, none,
  some, arith, ◌==◌, Bytes, drop,
}
use wp_knowledge.SqlRoute.Scan.{block_len, keyword_here, find_keyword_from, find_keyword}

-- The byte at offset `j` stands outside literals and comments; `skip` bytes at the head are inside.
unfoldable pub top_level : ℕ → Bytes → ℕ → Bool
top_level skip [] j = false
top_level (suc skip) (b ∷ r) zero = false
top_level (suc skip) (b ∷ r) (suc j) = top_level skip r j
top_level zero (b ∷ r) zero = block_len (b ∷ r) == 0
top_level zero (b ∷ r) (suc j) = top_level (block_len (b ∷ r) - 1) r j

-- The byte before offset `j`.
unfoldable pub byte_before : Option ℕ → ℕ → Bytes → Option ℕ
byte_before prev zero s = prev
byte_before prev (suc j) [] = none
byte_before prev (suc j) (b ∷ r) = byte_before (some b) j r

module _ (keyword : Bytes) where
  abbrev pub found : Option ℕ → Bytes → ℕ → Bool
  found prev s j = keyword_here keyword (byte_before prev j s) (drop j s)

  abbrev NoneBefore : Option ℕ → ℕ → Bytes → ℕ → Type 0
  NoneBefore prev skip s j = (k : ℕ) → k < j → top_level skip s k ≡ true → found prev s k ≡ false

  shift :
      (prev : Option ℕ) (skip skip' : ℕ) (b : ℕ) (r : Bytes) (j : ℕ)
      → ((k : ℕ) → top_level skip (b ∷ r) (suc k) ≡ top_level skip' r k)
      → (top_level skip (b ∷ r) 0 ≡ true → found prev (b ∷ r) 0 ≡ false)
      → NoneBefore (some b) skip' r j
      → NoneBefore prev skip (b ∷ r) (suc j)
  shift prev skip skip' b r j same head none_before zero lt top = head top
  shift prev skip skip' b r j same head none_before (suc k) lt top =
      unfold byte_before in none_before k (omega arith) (cc (same k))

  -- The result `i` of a search that begins at index `idx` stands at the first offset that fits.
  abbrev FoundAt : Option ℕ → ℕ → ℕ → Bytes → ℕ → Type 0
  FoundAt prev idx skip s i =
      (j : ℕ) × (i ≡ idx + j)
      × (top_level skip s j ≡ true)
      × (found prev s j ≡ true)
      × NoneBefore prev skip s j

  abbrev NoneAt : Option ℕ → ℕ → Bytes → Type 0
  NoneAt prev skip s = (k : ℕ) → top_level skip s k ≡ true → found prev s k ≡ false

  module _ (prev : Option ℕ) (skip skip' b : ℕ) (r : Bytes)
      (same : (k : ℕ) → top_level skip (b ∷ r) (suc k) ≡ top_level skip' r k)
      (head : top_level skip (b ∷ r) 0 ≡ true → found prev (b ∷ r) 0 ≡ false) where
    FoundAt-tail :
        (idx i : ℕ) → FoundAt (some b) (idx + 1) skip' r i → FoundAt prev idx skip (b ∷ r) i
    unfolding byte_before
    FoundAt-tail idx i (j, at, top, hit, before) =
        (suc j, omega arith, same j ∙ top, hit, shift prev skip skip' b r j same head before)

    NoneAt-tail : NoneAt (some b) skip' r → NoneAt prev skip (b ∷ r)
    unfolding byte_before
    NoneAt-tail h zero top = head top
    NoneAt-tail h (suc k) top = h k (sym (same k) ∙ top)

  -- What the loop does with the byte at the head.
  find_skip :
      (prev : Option ℕ) (idx skip b : ℕ) (r : Bytes)
      → find_keyword_from keyword prev idx (suc skip) (b ∷ r)
        ≡ find_keyword_from keyword (some b) (idx + 1) skip r
  unfolding find_keyword_from
  find_skip prev idx skip b r = refl

  data Head (prev : Option ℕ) (idx b : ℕ) (r : Bytes) : Type 0 where
    hit :
        block_len (b ∷ r) ≡ 0
        → found prev (b ∷ r) 0 ≡ true
        → find_keyword_from keyword prev idx 0 (b ∷ r) ≡ some idx
        → Head prev idx b r
    pass :
        (top_level 0 (b ∷ r) 0 ≡ true → found prev (b ∷ r) 0 ≡ false)
        → find_keyword_from keyword prev idx 0 (b ∷ r)
          ≡ find_keyword_from keyword (some b) (idx + 1) (block_len (b ∷ r) - 1) r
        → Head prev idx b r

  head_of : (prev : Option ℕ) (idx b : ℕ) (r : Bytes) → Head prev idx b r
  unfolding find_keyword_from top_level byte_before
  head_of prev idx b r = go (block_len (b ∷ r)) (found prev (b ∷ r) 0) refl refl
    where
      go : (n : ℕ) (h : Bool) → block_len (b ∷ r) ≡ n → found prev (b ∷ r) 0 ≡ h → Head prev idx b r
      go zero true e f = hit e f (ground arith)
      go zero false e f = pass (λ t. f) (ground arith)
      go (suc n) h e f = pass (λ t. absurd (ground arith)) (ground arith)

  tail_same :
      (b : ℕ) (r : Bytes) (k : ℕ)
      → top_level 0 (b ∷ r) (suc k) ≡ top_level (block_len (b ∷ r) - 1) r k
  unfolding top_level
  tail_same b r k = refl

  search_some :
      (prev : Option ℕ) (idx skip : ℕ) (s : Bytes) (i : ℕ)
      → find_keyword_from keyword prev idx skip s ≡ some i
      → FoundAt prev idx skip s i
  search_some prev idx skip [] i e = absurd (unfold find_keyword_from in ground arith)
  search_some prev idx (suc skip) (b ∷ r) i e =
      FoundAt-tail prev (suc skip) skip b r (λ k. unfold top_level in refl)
        (λ t. unfold top_level in cc) idx i
        (search_some (some b) (idx + 1) skip r i (sym (find_skip prev idx skip b r) ∙ e))
  search_some prev idx zero (b ∷ r) i e = elim (head_of prev idx b r) [
    | hit empty yes_ eq ↦
        (0, ground arith, unfold top_level in ground arith, yes_, λ k lt t. absurd (omega arith))
    | pass miss eq ↦
        FoundAt-tail prev 0 (block_len (b ∷ r) - 1) b r (tail_same b r) miss idx i
          (search_some (some b) (idx + 1) (block_len (b ∷ r) - 1) r i (sym eq ∙ e))
  ]

  no_top : (skip k : ℕ) → top_level skip [] k ≡ true → ⊥
  unfolding top_level
  no_top skip k t = absurd (ground arith)

  search_none :
      (prev : Option ℕ) (idx skip : ℕ) (s : Bytes)
      → find_keyword_from keyword prev idx skip s ≡ none
      → NoneAt prev skip s
  search_none prev idx skip [] e = λ k t. absurd (no_top skip k t)
  search_none prev idx (suc skip) (b ∷ r) e =
      NoneAt-tail prev (suc skip) skip b r (λ k. unfold top_level in refl)
        (λ t. unfold top_level in cc)
        (search_none (some b) (idx + 1) skip r (sym (find_skip prev idx skip b r) ∙ e))
  search_none prev idx zero (b ∷ r) e = elim (head_of prev idx b r) [
    | hit empty yes_ eq ↦ absurd (ground arith)
    | pass miss eq ↦
        NoneAt-tail prev 0 (block_len (b ∷ r) - 1) b r (tail_same b r) miss
          (search_none (some b) (idx + 1) (block_len (b ∷ r) - 1) r (sym eq ∙ e))
  ]

-- `find_keyword` returns the first position which its own tests, `block_len` and `keyword_here`, let
-- pass, and nothing only if there is no such position.
pub find_keyword_first :
    (sql keyword : Bytes)
    → ((i : ℕ)
        → find_keyword sql keyword ≡ some i
        → (top_level 0 sql i ≡ true)
          × (found keyword none sql i ≡ true)
          × ((k : ℕ) → k < i → top_level 0 sql k ≡ true → found keyword none sql k ≡ false))
      × (find_keyword sql keyword ≡ none
          → (k : ℕ) → top_level 0 sql k ≡ true
          → found keyword none sql k ≡ false)
unfolding find_keyword
find_keyword_first sql keyword = (some_case, λ e. search_none keyword none 0 0 sql e)
  where
    some_case :
        (i : ℕ)
        → find_keyword_from keyword none 0 0 sql ≡ some i
        → (top_level 0 sql i ≡ true)
          × (found keyword none sql i ≡ true)
          × ((k : ℕ) → k < i → top_level 0 sql k ≡ true → found keyword none sql k ≡ false)
    some_case i e =
        let (j, at, top, hit_, before) = search_some keyword none 0 0 sql i e in
        let same : j ≡ i = omega arith in
        subst
          (λ x.
            (top_level 0 sql x ≡ true)
            × (found keyword none sql x ≡ true)
            × ((k : ℕ) → k < x → top_level 0 sql k ≡ true → found keyword none sql k ≡ false))
          same (top, hit_, before)
