-- ===== src/SqliteExt/Octets.antt =====
-- `src/sqlite_ext.rs`: the decimal texts of the parts of an address.
use wp_knowledge.Base.{
  ℕ, zero, suc, ◌+◌, ◌/◌, ◌%◌, ◌≤◌, ◌<◌, ◌≡◌, ap, ◌∙◌, inl, inr, [], ◌∷◌, ◌++◌, some, leb, All,
  arith, Bool-cases, leb→le,
}
use wp_knowledge.Base.Text.{decimal, decimal_from}
use wp_knowledge.Vel.Text.{digits_value}
use wp_knowledge.SqliteExt.{parse_octet}

decimal_from-one : (f n : ℕ) → n ≤ 9 → decimal_from f n ≡ (n + b'0') ∷ []
unfolding decimal_from
decimal_from-one zero n h = ground arith
decimal_from-one (suc f) n h = ground arith

decimal_from-more :
    (f n : ℕ) → 10 ≤ n → decimal_from (suc f) n ≡ decimal_from f (n / 10) ++ ((n % 10 + b'0') ∷ [])
unfolding decimal_from
decimal_from-more f n h = ground arith

one_digit : (n : ℕ) → n ≤ 9 → decimal n ≡ (n + b'0') ∷ []
unfolding decimal
one_digit n h = decimal_from-one n n h

two_digits : (n : ℕ) → 10 ≤ n → n ≤ 99 → decimal n ≡ (n / 10 + b'0') ∷ (n % 10 + b'0') ∷ []
unfolding decimal
two_digits (suc n) h k =
    decimal_from-more n (suc n) h
    ∙ ap (λ s. s ++ ((suc n % 10 + b'0') ∷ [])) (decimal_from-one n (suc n / 10) (omega arith))
two_digits zero h k = absurd (omega arith)

three_digits :
    (n : ℕ)
    → 100 ≤ n
    → n ≤ 999
    → decimal n ≡ (n / 100 + b'0') ∷ (n / 10 % 10 + b'0') ∷ (n % 10 + b'0') ∷ []
unfolding decimal
three_digits (suc (suc n)) h k =
    let m : ℕ = suc (suc n) in
    decimal_from-more (suc n) m (omega arith)
    ∙ ap (λ s. s ++ ((m % 10 + b'0') ∷ []))
        (decimal_from-more n (m / 10) (omega arith)
          ∙ ap (λ s. s ++ ((m / 10 % 10 + b'0') ∷ []))
              (decimal_from-one n (m / 10 / 10) (omega arith)))
    ∙ ap (λ (d : ℕ). (d + b'0') ∷ (m / 10 % 10 + b'0') ∷ (m % 10 + b'0') ∷ []) (omega arith)
three_digits (suc zero) h k = absurd (omega arith)
three_digits zero h k = absurd (omega arith)

-- A part of an address is read back.
pub parse_octet-decimal : (n : ℕ) → n < 256 → parse_octet (decimal n) ≡ some n
unfolding parse_octet digits_value
parse_octet-decimal n h = elim (Bool-cases (leb n 9)) [
  | inl one ↦ rw (one_digit n (ground arith)) (ground arith)
  | inr more ↦ elim (Bool-cases (leb n 99)) [
    | inl two ↦ rw (two_digits n (ground arith) (ground arith)) (ground arith)
    | inr three ↦ rw (three_digits n (ground arith) (ground arith)) (ground arith)
  ]
]

abbrev pub IsDigit : ℕ → Type 0
IsDigit c = (b'0' ≤ c) × (c ≤ b'9')

pub decimal-IsDigit : (n : ℕ) → n < 256 → All IsDigit (decimal n)
decimal-IsDigit n h = elim (Bool-cases (leb n 9)) [
  | inl one ↦ rw (one_digit n (ground arith)) (omega (arith, leb→le n 9 one))
  | inr more ↦ elim (Bool-cases (leb n 99)) [
    | inl two ↦ rw (two_digits n (ground arith) (ground arith)) (omega (arith, leb→le n 99 two))
    | inr three ↦ rw (three_digits n (ground arith) (ground arith)) (omega arith)
  ]
]
