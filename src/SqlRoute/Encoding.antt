-- ===== src/SqlRoute/Encoding.antt =====
-- `src/sql_route.rs`: `strip_provider_prefix` on a query with nothing to strip.
use wp_knowledge.Base.{
  ℕ, zero, suc, ◌+◌, ◌-◌, ◌<◌, ◌≡◌, refl, ap, ◌∙◌, false, [], ◌∷◌, ◌++◌, Option, none, some, arith,
  ◌==◌, leb, if◌then◌else◌, Bytes, length, All, length-append,
}
use wp_knowledge.Base.Text.{push_char}
use wp_knowledge.SqlRoute.Strip.{copied_len, prefix_here, Mode, strip_from, strip_provider_prefix}

-- No reference with the name stands where the scan looks for one; `skip` bytes at the head belong to
-- a literal or comment.
abbrev pub IsQuiet : Bytes → Option ℕ → ℕ → Bytes → Type 0
IsQuiet name prev skip [] = Unit
IsQuiet name prev (suc skip) (b ∷ r) = IsQuiet name (some b) skip r
IsQuiet name prev zero (b ∷ r) =
    (copied_len (b ∷ r) ≡ 0 → prefix_here name prev (b ∷ r) ≡ false)
    × IsQuiet name (some b) (copied_len (b ∷ r) - 1) r

-- How many bytes outside literals and comments are not ASCII.
unfoldable pub wide : ℕ → Bytes → ℕ
wide skip [] = 0
wide (suc skip) (b ∷ r) = wide skip r
wide zero (b ∷ r) =
    (if copied_len (b ∷ r) == 0 then if leb 128 b then 1 else 0 else 0)
    + wide (copied_len (b ∷ r) - 1) r

wide_skip : (k b : ℕ) (r : Bytes) → wide (suc k) (b ∷ r) ≡ wide k r
unfolding wide
wide_skip k b r = refl

wide_block :
    (b : ℕ) (r : Bytes) (n : ℕ)
    → copied_len (b ∷ r) ≡ suc n
    → wide 0 (b ∷ r) ≡ wide (copied_len (b ∷ r) - 1) r
unfolding wide
wide_block b r n e = ground arith

wide_plain :
    (b : ℕ) (r : Bytes)
    → copied_len (b ∷ r) ≡ 0
    → wide 0 (b ∷ r) ≡ (if leb 128 b then 1 else 0) + wide (copied_len (b ∷ r) - 1) r
unfolding wide
wide_plain b r e = ground arith

length-push_char : (b : ℕ) → length (push_char b) ≡ (if leb 128 b then 2 else 1)
unfolding push_char
length-push_char b = ground arith

push_char_ascii : (b : ℕ) → b < 128 → push_char b ≡ b ∷ []
unfolding push_char
push_char_ascii b h = ground arith

-- The rest `out` of the scan after a byte: one byte is kept, a pushed character may take two.
length_block :
    (b : ℕ) (r : Bytes) (n : ℕ)
    → copied_len (b ∷ r) ≡ suc n
    → (out : Bytes) → length out ≡ length r + wide (copied_len (b ∷ r) - 1) r
    → length (b ∷ out) ≡ length (b ∷ r) + wide 0 (b ∷ r)
length_block b r n e out ih = omega (arith, ih, wide_block b r n e)

length_plain :
    (b : ℕ) (r : Bytes)
    → copied_len (b ∷ r) ≡ 0
    → (out : Bytes) → length out ≡ length r + wide (copied_len (b ∷ r) - 1) r
    → length (push_char b ++ out) ≡ length (b ∷ r) + wide 0 (b ∷ r)
length_plain b r e out ih =
    let w = wide_plain b r e in
    let p = length-push_char b in let a = length-append {0} (push_char b) out in ground arith

module _ (name : Bytes) where
  strip_skip :
      (prev : Option ℕ) (k b : ℕ) (r : Bytes)
      → strip_from name prev (Mode.copy (suc k)) (b ∷ r)
        ≡ b ∷ strip_from name (some b) (Mode.copy k) r
  unfolding strip_from
  strip_skip prev k b r = refl

  -- A byte where no literal or comment is being copied: the head of one, or pushed as a character.
  data Head (prev : Option ℕ) (b : ℕ) (r : Bytes) : Type 0 where
    block :
        (n : ℕ)
        → copied_len (b ∷ r) ≡ suc n
        → strip_from name prev (Mode.copy 0) (b ∷ r)
          ≡ b ∷ strip_from name (some b) (Mode.copy (copied_len (b ∷ r) - 1)) r
        → Head prev b r
    plain :
        copied_len (b ∷ r) ≡ 0
        → strip_from name prev (Mode.copy 0) (b ∷ r)
          ≡ push_char b ++ strip_from name (some b) (Mode.copy (copied_len (b ∷ r) - 1)) r
        → Head prev b r

  head_of :
      (prev : Option ℕ) (b : ℕ) (r : Bytes)
      → (copied_len (b ∷ r) ≡ 0 → prefix_here name prev (b ∷ r) ≡ false)
      → Head prev b r
  unfolding strip_from
  head_of prev b r quiet = go (copied_len (b ∷ r)) refl
    where
      go : (n : ℕ) → copied_len (b ∷ r) ≡ n → Head prev b r
      go zero e = let f = quiet e in plain e (ground arith)
      go (suc n) e = block n e (ground arith)

  length-strip_from :
      (prev : Option ℕ) (skip : ℕ) (s : Bytes)
      → IsQuiet name prev skip s
      → length (strip_from name prev (Mode.copy skip) s) ≡ length s + wide skip s
  length-strip_from prev skip [] q = unfold strip_from wide in omega arith
  length-strip_from prev (suc k) (b ∷ r) q =
      let ih = length-strip_from (some b) k r q in
      ap length (strip_skip prev k b r) ∙ omega (arith, ih, wide_skip k b r)
  length-strip_from prev zero (b ∷ r) q =
      let ih = length-strip_from (some b) (copied_len (b ∷ r) - 1) r q.1 in
      elim (head_of prev b r q.0) [
        | block n e eq ↦ ap length eq ∙ length_block b r n e _ ih
        | plain e eq ↦ ap length eq ∙ length_plain b r e _ ih
      ]

  strip_from_ascii :
      (prev : Option ℕ) (skip : ℕ) (s : Bytes)
      → IsQuiet name prev skip s
      → All (λ b. b < 128) s
      → strip_from name prev (Mode.copy skip) s ≡ s
  strip_from_ascii prev skip [] q a = unfold strip_from in refl
  strip_from_ascii prev (suc k) (b ∷ r) q a =
      strip_skip prev k b r ∙ ap (◌∷◌ b) (strip_from_ascii (some b) k r q a.1)
  strip_from_ascii prev zero (b ∷ r) q a =
      let ih = strip_from_ascii (some b) (copied_len (b ∷ r) - 1) r q.1 a.1 in
      elim (head_of prev b r q.0) [
        | block n e eq ↦ eq ∙ ap (◌∷◌ b) ih
        | plain e eq ↦
            eq
            ∙ ap
                (λ (l : Bytes).
                  l ++ strip_from name (some b) (Mode.copy (copied_len (b ∷ r) - 1)) r)
                (push_char_ascii b a.0)
            ∙ ap (◌∷◌ b) ih
      ]

-- An ASCII query that holds no reference with the provider's name, outside literals and comments, is
-- left as it is.
pub strip_provider_prefix_ascii :
    (sql name : Bytes)
    → IsQuiet name none 0 sql
    → All (λ b. b < 128) sql
    → strip_provider_prefix sql name ≡ sql
strip_provider_prefix_ascii sql [] q a = unfold strip_provider_prefix in refl
strip_provider_prefix_ascii sql (c ∷ name) q a =
    unfold strip_provider_prefix in strip_from_ascii (c ∷ name) none 0 sql q a

-- Beyond ASCII the text is not kept: with nothing to strip, the result of a nonempty name is longer by
-- one byte for each byte from 128 on that stands outside literals and comments.
pub length-strip_provider_prefix :
    (sql : Bytes) (c : ℕ) (name : Bytes)
    → IsQuiet (c ∷ name) none 0 sql
    → length (strip_provider_prefix sql (c ∷ name)) ≡ length sql + wide 0 sql
length-strip_provider_prefix sql c name q =
    unfold strip_provider_prefix in length-strip_from (c ∷ name) none 0 sql q
