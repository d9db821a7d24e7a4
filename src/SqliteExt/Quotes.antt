-- ===== src/SqliteExt/Quotes.antt =====
-- `src/sqlite_ext.rs`: what `trim_quotes` takes away.
use wp_knowledge.Base.{
  ℕ, zero, suc, ◌+◌, ◌-◌, ◌≤◌, ◌<◌, ◌≡◌, ◌≢◌, refl, sym, ap, subst, ◌∙◌, ◌⊎◌, inl, inr, [], ◌∷◌,
  ◌++◌, ◌==◌, if◌then◌else◌, Bytes, length, length-append, take, arith, Bool-cases, append_assoc,
}
use mathlib.Core.List.{reverse, reverse-append}
use wp_knowledge.Base.Text.{trim}
use wp_knowledge.SqliteExt.Texts.{byte_at, hidx, slice, unquoted, trim_quotes}
use wp_knowledge.SqliteExt.Printed.{whitespace_len-visible, whitespace_len_back-visible, trim-kept}

abbrev pub IsQuote : ℕ → Type 0
IsQuote q = (q ≡ b'"') ⊎ (q ≡ b'\'')

byte_at-last : (s : Bytes) (c : ℕ) → byte_at (length s) (s ++ (c ∷ [])) ≡ c
unfolding byte_at
byte_at-last [] c = refl
byte_at-last (x ∷ s) c = ground (arith, byte_at-last s c)

take-append : (k : ℕ) (s t : Bytes) → k ≤ length s → take k (s ++ t) ≡ take k s
take-append zero s t h = refl
take-append (suc k) [] t h = absurd (omega arith)
take-append (suc k) (x ∷ s) t h = ap (λ r. x ∷ r) (take-append k s t (omega arith))

take-all : (s : Bytes) → take (length s) s ≡ s
take-all [] = refl
take-all (x ∷ s) = ap (λ r. x ∷ r) (take-all s)

take-length : (s t : Bytes) → take (length s) (s ++ t) ≡ s
take-length s t = take-append (length s) s t (omega arith) ∙ take-all s

byte_at-append : (i : ℕ) (s t : Bytes) → i < length s → byte_at i (s ++ t) ≡ byte_at i s
unfolding byte_at
byte_at-append i [] t h = absurd (omega arith)
byte_at-append i (x ∷ s) t h = elim (Bool-cases (i == 0)) [
  | inl first ↦ ground arith
  | inr more ↦ ground (arith, byte_at-append (i - 1) s t (ground arith))
]

-- A text between a visible first and a visible last character is not trimmed.
trim-ends :
    (a b : ℕ) (s : Bytes)
    → 33 ≤ a
    → a ≤ 126
    → 33 ≤ b
    → b ≤ 126
    → trim (a ∷ (s ++ (b ∷ []))) ≡ a ∷ (s ++ (b ∷ []))
trim-ends a b s h k l m =
    trim-kept (a ∷ (s ++ (b ∷ []))) (whitespace_len-visible a (s ++ (b ∷ [])) h k)
      (rw (reverse-append (a ∷ s) (b ∷ [])) (whitespace_len_back-visible b (reverse (a ∷ s)) l m))

unquoted_lem :
    (t : Bytes) (h n q : ℕ)
    → hidx t ≡ h
    → length t ≡ suc (suc n)
    → byte_at h t ≡ q
    → byte_at (suc n) t ≡ q
    → IsQuote q
    → unquoted t ≡ slice (h + 1) (if byte_at n t == 0x5C then n else suc n) t
unfolding unquoted
unquoted_lem t h n q e l a b quote =
    let last : suc (suc n) - 1 ≡ suc n = omega arith in
    let before_last : suc n - 1 ≡ n = omega arith in
    rw (e, l, last, before_last, a, b) (ground (arith, quote))

slice_short :
    (q : ℕ) (s : Bytes)
    → q ≢ 0x5C
    → byte_at (length s) (q ∷ s) ≡ 0x5C
    → slice 1 (length s) (q ∷ (s ++ (q ∷ []))) ≡ take (length s - 1) s
unfolding slice byte_at
slice_short q [] h e = absurd (h e)
slice_short q (x ∷ r) h e =
    let one : suc (length r) - 1 ≡ length r = omega arith in
    ground (arith, one, take-append (length r) (x ∷ r) (q ∷ []) (omega arith))

module _ (q : ℕ) (quote : IsQuote q) (s : Bytes) where
  abbrev plain : Bytes
  plain = q ∷ (s ++ (q ∷ []))

  abbrev escaped : Bytes
  escaped = 0x5C ∷ (q ∷ (s ++ (0x5C ∷ q ∷ [])))

  hidx-plain : hidx plain ≡ 0
  unfolding hidx byte_at
  hidx-plain = ground arith

  hidx-escaped : hidx escaped ≡ 1
  unfolding hidx byte_at
  hidx-escaped = ground arith

  byte_at-plain : byte_at (length s) plain ≡ byte_at (length s) (q ∷ s)
  byte_at-plain = byte_at-append (length s) (q ∷ s) (q ∷ []) (omega arith)

  unquoted-plain :
      unquoted plain
      ≡ slice 1 (if byte_at (length s) (q ∷ s) == 0x5C then length s else suc (length s)) plain
  unfolding byte_at
  unquoted-plain =
      unquoted_lem plain 0 (length s) q hidx-plain (omega (arith, length-append s (q ∷ []))) refl
        (byte_at-last (q ∷ s) q) quote
      ∙ ap (λ (c : ℕ). slice 1 (if c == 0x5C then length s else suc (length s)) plain) byte_at-plain

  slice-plain :
      slice 1 (if byte_at (length s) (q ∷ s) == 0x5C then length s else suc (length s)) plain
      ≡ (if byte_at (length s) (q ∷ s) == 0x5C then take (length s - 1) s else s)
  slice-plain = elim (Bool-cases (byte_at (length s) (q ∷ s) == 0x5C)) [
    | inl short ↦ rw short (slice_short q s (λ e. ground (arith, quote, e)) (ground (arith, short)))
    | inr whole ↦ rw whole (unfold slice in ground (arith, take-length s (q ∷ [])))
  ]

  abbrev front : Bytes
  front = 0x5C ∷ (q ∷ (s ++ (0x5C ∷ [])))

  escaped_lem : front ++ (q ∷ []) ≡ escaped
  escaped_lem = ap (λ r. 0x5C ∷ (q ∷ r)) (append_assoc s (0x5C ∷ []) (q ∷ []))

  length-front : length front ≡ suc (suc (suc (length s)))
  length-front = omega (arith, length-append s (0x5C ∷ []))

  byte_at-escaped : byte_at (suc (suc (length s))) escaped ≡ 0x5C
  byte_at-escaped =
      ap (byte_at (suc (suc (length s)))) (sym escaped_lem)
      ∙ byte_at-append (suc (suc (length s))) front (q ∷ []) (omega (arith, length-front))
      ∙ byte_at-last (0x5C ∷ (q ∷ s)) 0x5C

  last-escaped : byte_at (suc (suc (suc (length s)))) escaped ≡ q
  last-escaped =
      ap (byte_at (suc (suc (suc (length s))))) (sym escaped_lem)
      ∙ ap (λ i. byte_at i (front ++ (q ∷ []))) (sym length-front)
      ∙ byte_at-last front q

  unquoted-escaped : unquoted escaped ≡ slice 2 (suc (suc (length s))) escaped
  unfolding byte_at
  unquoted-escaped =
      unquoted_lem escaped 1 (suc (suc (length s))) q hidx-escaped
        (omega (arith, length-append s (0x5C ∷ q ∷ []))) refl last-escaped quote
      ∙ ap
          (λ (c : ℕ).
            slice 2 (if c == 0x5C then suc (suc (length s)) else suc (suc (suc (length s))))
              escaped)
          byte_at-escaped

  slice-escaped : slice 2 (suc (suc (length s))) escaped ≡ s
  unfolding slice
  slice-escaped = ground (arith, take-length s (0x5C ∷ q ∷ []))

  trim-escaped : trim escaped ≡ escaped
  trim-escaped =
      subst (λ t. trim t ≡ t) escaped_lem
        (trim-ends 0x5C q (q ∷ (s ++ (0x5C ∷ []))) (omega arith) (omega arith)
          (omega (arith, quote)) (omega (arith, quote)))

trim_quotes-kept : (t : Bytes) → trim t ≡ t → 2 ≤ length t → trim_quotes t ≡ unquoted t
unfolding trim_quotes
trim_quotes-kept t e l = rw e (ground arith)

-- A text between two quotes of one kind, single or double, is what is left of it, but for a backslash
-- at its end, which counts as the escape of the closing quote. Of a text between two escaped quotes
-- the text is left as it is, whatever it holds.
pub trim_quotes-quoted :
    (q : ℕ) (s : Bytes)
    → IsQuote q
    → (trim_quotes (q ∷ (s ++ (q ∷ [])))
        ≡ (if byte_at (length s) (q ∷ s) == 0x5C then take (length s - 1) s else s))
      × (trim_quotes (0x5C ∷ (q ∷ (s ++ (0x5C ∷ q ∷ [])))) ≡ s)
trim_quotes-quoted q s quote = (
  trim_quotes-kept (q ∷ (s ++ (q ∷ [])))
        (trim-ends q q s (omega (arith, quote)) (omega (arith, quote)) (omega (arith, quote))
          (omega (arith, quote)))
        (omega (arith, length-append s (q ∷ [])))
      ∙ unquoted-plain q quote s
      ∙ slice-plain q quote s,
  trim_quotes-kept (0x5C ∷ (q ∷ (s ++ (0x5C ∷ q ∷ [])))) (trim-escaped q quote s)
        (omega (arith, length-append s (0x5C ∷ q ∷ [])))
      ∙ unquoted-escaped q quote s
      ∙ slice-escaped q quote s,
)
