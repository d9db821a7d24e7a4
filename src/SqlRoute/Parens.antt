-- ===== src/SqlRoute/Parens.antt =====
-- `src/sql_route.rs`: what `matching_paren` finds.
use wp_knowledge.Base.{
  ℕ, zero, suc, ◌+◌, ◌-◌, ◌<◌, ◌≤◌, ◌≡◌, refl, sym, ◌∙◌, ◌&&◌, [], ◌∷◌, none, some, arith, ◌==◌,
  if◌then◌else◌, Bytes, drop, length, ap,
}
use wp_knowledge.SqlRoute.Scan.{block_len, Paren, paren_of, matching_paren_from, matching_paren}

-- How many of the first `j` bytes are `p` and stand outside literals and comments.
unfoldable pub count_top : ℕ → ℕ → Bytes → ℕ → ℕ
count_top p skip s zero = 0
count_top p skip [] (suc j) = 0
count_top p (suc skip) (b ∷ r) (suc j) = count_top p skip r j
count_top p zero (b ∷ r) (suc j) =
    (if block_len (b ∷ r) == 0 && b == p then 1 else 0) + count_top p (block_len (b ∷ r) - 1) r j

abbrev pub opens : ℕ → Bytes → ℕ → ℕ
opens = count_top b'('

abbrev pub closes : ℕ → Bytes → ℕ → ℕ
closes = count_top b')'

-- The result `i` of a loop that begins at index `idx` and depth `d`: at its offset the parentheses
-- balance for the first time, by a closing one.
abbrev BalancedAt : ℕ → ℕ → ℕ → Bytes → ℕ → Type 0
BalancedAt d idx skip s i =
    (j : ℕ) × (i ≡ idx + j)
    × (j < length s)
    × (closes skip s (suc j) ≡ opens skip s (suc j) + d)
    × (closes skip s (suc j) ≡ closes skip s j + 1)
    × (0 < d → (k : ℕ) → k ≤ j → closes skip s k < opens skip s k + d)

-- One byte on, which changes the depth from `d` to `d'`.
module _ (d d' skip skip' b o c : ℕ) (r : Bytes)
    (open_ : (j : ℕ) → opens skip (b ∷ r) (suc j) ≡ o + opens skip' r j)
    (close_ : (j : ℕ) → closes skip (b ∷ r) (suc j) ≡ c + closes skip' r j) (depth : d + o ≡ c + d')
    (deep : 0 < d → 0 < d') where
  BalancedAt-tail :
      (idx i : ℕ) → BalancedAt d' (idx + 1) skip' r i → BalancedAt d idx skip (b ∷ r) i
  BalancedAt-tail idx i (j, at, lt, eq, last, all) = (
    suc j,
    omega arith,
    omega arith,
    omega (arith, open_ (suc j), close_ (suc j)),
    omega (arith, close_ (suc j), close_ j),
    below,
  )
    where
      below : 0 < d → (k : ℕ) → k ≤ suc j → closes skip (b ∷ r) k < opens skip (b ∷ r) k + d
      below pos zero le = unfold count_top in omega arith
      below pos (suc k) le = omega (arith, open_ k, close_ k, all (deep pos) k (omega arith))

pub paren_skip :
    (d idx skip b : ℕ) (r : Bytes)
    → matching_paren_from d idx (suc skip) (b ∷ r) ≡ matching_paren_from d (idx + 1) skip r
unfolding matching_paren_from
paren_skip d idx skip b r = refl

-- What the loop does with a byte at which no literal or comment is being passed: it goes on, at a new
-- depth, it stops, or it fails.
pub data Head (d idx b : ℕ) (r : Bytes) : Type 0 where
  go_on :
      (d' o c : ℕ)
      → d + o ≡ c + d'
      → (0 < d → 0 < d')
      → ((j : ℕ) → opens 0 (b ∷ r) (suc j) ≡ o + opens (block_len (b ∷ r) - 1) r j)
      → ((j : ℕ) → closes 0 (b ∷ r) (suc j) ≡ c + closes (block_len (b ∷ r) - 1) r j)
      → matching_paren_from d idx 0 (b ∷ r)
        ≡ matching_paren_from d' (idx + 1) (block_len (b ∷ r) - 1) r
      → Head d idx b r
  stop :
      d ≡ 1
      → opens 0 (b ∷ r) 1 ≡ 0
      → closes 0 (b ∷ r) 1 ≡ 1
      → matching_paren_from d idx 0 (b ∷ r) ≡ some idx
      → Head d idx b r
  fail : d ≡ 0 → matching_paren_from d idx 0 (b ∷ r) ≡ none → Head d idx b r

pub head_of : (d idx b : ℕ) (r : Bytes) → Head d idx b r
unfolding matching_paren_from count_top paren_of
head_of d idx b r = go (block_len (b ∷ r)) (paren_of b) d refl refl refl
  where
    go :
        (n : ℕ) (p : Paren) (e : ℕ)
        → block_len (b ∷ r) ≡ n
        → paren_of b ≡ p
        → d ≡ e
        → Head d idx b r
    go (suc n) p e f g h =
        go_on d 0 0 (omega arith) (λ x. omega arith) (λ j. ground arith) (λ j. ground arith)
          (ground arith)
    go zero Paren.open_ e f g h =
        go_on (d + 1) 1 0 (omega arith) (λ x. omega arith) (λ j. ground arith) (λ j. ground arith)
          (ground arith)
    go zero Paren.plain e f g h =
        go_on d 0 0 (omega arith) (λ x. omega arith) (λ j. ground arith) (λ j. ground arith)
          (ground arith)
    go zero Paren.close zero f g h = fail h (ground arith)
    go zero Paren.close (suc zero) f g h = stop h (ground arith) (ground arith) (ground arith)
    go zero Paren.close (suc (suc e)) f g h =
        go_on (suc e) 0 1 (omega arith) (λ x. omega arith) (λ j. ground arith) (λ j. ground arith)
          (ground arith)

paren_sound :
    (d idx skip : ℕ) (s : Bytes) (i : ℕ)
    → matching_paren_from d idx skip s ≡ some i
    → BalancedAt d idx skip s i
paren_sound d idx skip [] i e = absurd (unfold matching_paren_from in ground arith)
paren_sound d idx (suc skip) (b ∷ r) i e =
    BalancedAt-tail d d (suc skip) skip b 0 0 r (λ j. unfold count_top in omega arith)
      (λ j. unfold count_top in omega arith) (omega arith) (λ x. x) idx i
      (paren_sound d (idx + 1) skip r i (sym (paren_skip d idx skip b r) ∙ e))
paren_sound d idx zero (b ∷ r) i e = elim (head_of d idx b r) [
  | go_on d' o c depth deep os cs eq ↦
      BalancedAt-tail d d' 0 (block_len (b ∷ r) - 1) b o c r os cs depth deep idx i
        (paren_sound d' (idx + 1) (block_len (b ∷ r) - 1) r i (sym eq ∙ e))
  | stop one os cs eq ↦ (
    0,
    ground arith,
    omega arith,
    omega arith,
    unfold count_top in omega arith,
    λ pos k le. let z : k ≡ 0 = omega arith in rw z (unfold count_top in omega arith),
  )
  | fail none_ eq ↦ absurd (ground arith)
]

pub matching_paren_lem :
    (sql : Bytes) (open_pos : ℕ)
    → matching_paren sql open_pos ≡ matching_paren_from 0 open_pos 0 (drop open_pos sql)
unfolding matching_paren
matching_paren_lem sql open_pos = refl

pub open_counts :
    (r : Bytes) (j : ℕ)
    → (opens 0 (b'(' ∷ r) (suc j) ≡ 1 + opens 0 r j) × (closes 0 (b'(' ∷ r) (suc j) ≡ closes 0 r j)
unfolding count_top block_len
open_counts r j = (refl, omega arith)

pub matching_paren_lt :
    (sql : Bytes) (open_pos i : ℕ)
    → matching_paren sql open_pos ≡ some i
    → i < open_pos + length (drop open_pos sql)
matching_paren_lt sql open_pos i e =
    let (j, at, lt, _, _, _) =
      paren_sound 0 open_pos 0 (drop open_pos sql) i (sym (matching_paren_lem sql open_pos) ∙ e) in
    omega arith

pub open_step :
    (idx : ℕ) (r : Bytes)
    → matching_paren_from 0 idx 0 (b'(' ∷ r) ≡ matching_paren_from 1 (idx + 1) 0 r
unfolding matching_paren_from block_len paren_of
open_step idx r = refl

-- `matching_paren` at an opening parenthesis returns a later position inside the text, of a closing
-- parenthesis outside these blocks, where for the first time as many parentheses are closed
-- as were opened, those in the blocks of `block_len` aside.
pub matching_paren_balanced :
    (sql : Bytes) (open_pos i : ℕ) (r : Bytes)
    → drop open_pos sql ≡ b'(' ∷ r
    → matching_paren sql open_pos ≡ some i
    → (j : ℕ) × (i ≡ open_pos + j)
      × (0 < j)
      × (j < length (b'(' ∷ r))
      × (closes 0 (b'(' ∷ r) (suc j) ≡ opens 0 (b'(' ∷ r) (suc j))
      × (closes 0 (b'(' ∷ r) (suc j) ≡ closes 0 (b'(' ∷ r) j + 1)
      × ((k : ℕ) → 0 < k → k ≤ j → closes 0 (b'(' ∷ r) k < opens 0 (b'(' ∷ r) k)
matching_paren_balanced sql open_pos i r at_open e =
    let start : matching_paren_from 0 open_pos 0 (b'(' ∷ r) ≡ some i =
      ap (matching_paren_from 0 open_pos 0) (sym at_open)
      ∙ sym (matching_paren_lem sql open_pos)
      ∙ e in
    let (j, at, lt, eq, last, below) =
      paren_sound 1 (open_pos + 1) 0 r i (sym (open_step open_pos r) ∙ start) in
    (
      suc j,
      omega arith,
      omega arith,
      omega arith,
      omega (arith, open_counts r (suc j)),
      omega (arith, open_counts r (suc j), open_counts r j),
      under j (below (omega arith)),
    )
  where
    under :
        (j : ℕ)
        → ((k : ℕ) → k ≤ j → closes 0 r k < opens 0 r k + 1)
        → (k : ℕ) → 0 < k
        → k ≤ suc j
        → closes 0 (b'(' ∷ r) k < opens 0 (b'(' ∷ r) k
    under j h zero pos le = absurd (omega arith)
    under j h (suc k) pos le = omega (arith, open_counts r k, h k (omega arith))
