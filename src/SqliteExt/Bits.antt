-- ===== src/SqliteExt/Bits.antt =====
-- Masks of `u32`, as `src/sqlite_ext.rs` uses them, in arithmetic.
use wp_knowledge.Base.{
  ℕ, zero, suc, ◌+◌, ◌*◌, ◌/◌, ◌%◌, ◌≤◌, ◌<◌, ◌≡◌, refl, ap, ◌∙◌, arith, min, max,
}
use Prim.Native.Nat.{digits, bitwise, bit_and, bit_or, bit_and-bitwise, bit_or-bitwise}

-- An operation on digits, where a first number that has run out counts as zeros.
module _ (z : ℕ → ℕ) (f : ℕ → ℕ → ℕ) (out : (b : ℕ) → z b ≡ z (b / 2) * 2 + f 0 (b % 2)) where
  digits_enough : (n m a b : ℕ) → a ≤ n → a ≤ m → digits z f n a b ≡ digits z f m a b
  digits_enough zero zero a b h k = refl
  digits_enough zero (suc m) zero b h k = refl
  digits_enough zero (suc m) (suc a) b h k = absurd (omega arith)
  digits_enough (suc n) zero zero b h k = refl
  digits_enough (suc n) zero (suc a) b h k = absurd (omega arith)
  digits_enough (suc n) (suc m) zero b h k = refl
  digits_enough (suc n) (suc m) (suc a) b h k =
      ap (λ x. x * 2 + f (suc a % 2) (b % 2))
        (digits_enough n m (suc a / 2) (b / 2) (omega arith) (omega arith))

  bitwise_step : (a b : ℕ) → bitwise z f a b ≡ bitwise z f (a / 2) (b / 2) * 2 + f (a % 2) (b % 2)
  bitwise_step zero b = out b
  bitwise_step (suc a) b =
      ap (λ x. x * 2 + f (suc a % 2) (b % 2))
        (digits_enough a (suc a / 2) (suc a / 2) (b / 2) (omega arith) (omega arith))

and_step : (a b : ℕ) → bit_and a b ≡ bit_and (a / 2) (b / 2) * 2 + min (a % 2) (b % 2)
and_step a b = omega (
  arith,
  bit_and-bitwise a b,
  bit_and-bitwise (a / 2) (b / 2),
  bitwise_step (λ b. zero) min (λ b. omega arith) a b,
)

or_step : (a b : ℕ) → bit_or a b ≡ bit_or (a / 2) (b / 2) * 2 + max (a % 2) (b % 2)
or_step a b = omega (
  arith,
  bit_or-bitwise a b,
  bit_or-bitwise (a / 2) (b / 2),
  bitwise_step (λ b. b) max (λ b. omega arith) a b,
)

-- `a` with its last `k` digits made zeros.
unfoldable pub floor : ℕ → ℕ → ℕ
floor zero a = a
floor (suc k) a = floor k (a / 2) * 2

-- `w` ones, and `k` zeros behind them.
unfoldable pub ones : ℕ → ℕ
ones zero = 0
ones (suc w) = ones w * 2 + 1

unfoldable pub shifted : ℕ → ℕ → ℕ
shifted zero n = n
shifted (suc k) n = shifted k n * 2

unfoldable pub power : ℕ → ℕ
power zero = 1
power (suc k) = power k * 2

and-ones : (w a : ℕ) → a < power w → bit_and a (ones w) ≡ a
unfolding ones power
and-ones zero zero h = bit_and-bitwise 0 0
and-ones zero (suc a) h = absurd (omega arith)
and-ones (suc w) a h =
    let half : (ones w * 2 + 1) / 2 ≡ ones w = omega arith in
    and_step a (ones w * 2 + 1)
    ∙ ap (λ x. bit_and (a / 2) x * 2 + min (a % 2) ((ones w * 2 + 1) % 2)) half
    ∙ omega (arith, and-ones w (a / 2) (omega arith))

pub and-shifted : (w k a : ℕ) → a < shifted k (power w) → bit_and a (shifted k (ones w)) ≡ floor k a
unfolding shifted floor power
and-shifted w zero a h = and-ones w a h
and-shifted w (suc k) a h =
    let half : shifted k (ones w) * 2 / 2 ≡ shifted k (ones w) = omega arith in
    and_step a (shifted k (ones w) * 2)
    ∙ ap (λ x. bit_and (a / 2) x * 2 + min (a % 2) (shifted k (ones w) * 2 % 2)) half
    ∙ omega (arith, and-shifted w k (a / 2) (omega arith))

or_nothing : (n a : ℕ) → a ≤ n → bit_or a 0 ≡ a
or_nothing n zero h = bit_or-bitwise 0 0
or_nothing zero (suc a) h = absurd (omega arith)
or_nothing (suc n) (suc a) h =
    omega (arith, or_step (suc a) 0, or_nothing n (suc a / 2) (omega arith))

pub or-ones : (k a : ℕ) → bit_or (floor k a) (ones k) ≡ floor k a + ones k
unfolding floor ones
or-ones zero a = omega (arith, or_nothing a a (omega arith))
or-ones (suc k) a =
    let half : (ones k * 2 + 1) / 2 ≡ ones k = omega arith in
    let half' : floor k (a / 2) * 2 / 2 ≡ floor k (a / 2) = omega arith in
    or_step (floor k (a / 2) * 2) (ones k * 2 + 1)
    ∙ ap
        (λ x.
          bit_or (floor k (a / 2) * 2 / 2) x * 2
          + max (floor k (a / 2) * 2 % 2) ((ones k * 2 + 1) % 2))
        half
    ∙ ap (λ x. bit_or x (ones k) * 2 + max (floor k (a / 2) * 2 % 2) ((ones k * 2 + 1) % 2)) half'
    ∙ omega (arith, or-ones k (a / 2))

-- The numbers with the same digits but for the last `k` are those in one range.
pub same_floor :
    (k a x : ℕ)
    → ((floor k x ≡ floor k a) → (floor k a ≤ x) × (x ≤ floor k a + ones k))
      × ((floor k a ≤ x) → (x ≤ floor k a + ones k) → floor k x ≡ floor k a)
unfolding floor ones
same_floor zero a x = (λ e. (omega arith, omega arith), λ h k. omega arith)
same_floor (suc k) a x =
    let (there, back) = same_floor k (a / 2) (x / 2) in
    (
      λ e. let (lo, hi) = there (omega arith) in (omega arith, omega arith),
      λ h l. omega (arith, back (omega arith) (omega arith)),
    )

pub floor-le : (k a : ℕ) → floor k a ≤ a
unfolding floor
floor-le zero a = omega arith
floor-le (suc k) a = omega (arith, floor-le k (a / 2))

pub floor_top : (k m a : ℕ) → a < shifted k m → floor k a + ones k < shifted k m
unfolding floor ones shifted
floor_top zero m a h = omega arith
floor_top (suc k) m a h = omega (arith, floor_top k m (a / 2) (omega arith))
