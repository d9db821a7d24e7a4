-- ===== src/SqliteExt/Printed.antt =====
-- `src/sqlite_ext.rs`: an address that `ip4_text` prints is read back.
use wp_knowledge.Base.{
  ℕ, ◌+◌, ◌*◌, ◌/◌, ◌%◌, ◌^◌, ◌≤◌, ◌<◌, ◌≡◌, ◌≢◌, refl, ap, ◌∙◌, [], ◌∷◌, ◌++◌, some, Bytes, All,
  arith,
}
use mathlib.Core.List.{reverse, reverse-reverse, reverse_aux}
use wp_knowledge.Base.Model.{ℤ}
use wp_knowledge.Base.Text.{
  decimal, trim, trim_start, trim_end, trim_by, whitespace_len, whitespace_len_back,
}
use wp_knowledge.Vel.Text.{split, parse_u64}
use wp_knowledge.SqliteExt.{
  SqlArg, as_u32, unwrap_number, trim_start_quotes, trim_quote_matches, from_octets, address,
  parse_addr, parse_ipv4_to_u32,
}
use wp_knowledge.SqliteExt.Texts.{ipv4_from_u32, ip4_text}
use wp_knowledge.SqliteExt.Octets.{IsDigit, decimal-IsDigit, parse_octet-decimal}

-- The digits, the dot and the slash, of which addresses and blocks are made.
abbrev IsPlain : ℕ → Type 0
IsPlain c = (b'.' ≤ c) × (c ≤ b'9')

All-append : (P : ℕ → Type 0) (xs ys : Bytes) → All P xs → All P ys → All P (xs ++ ys)
All-append P [] ys h k = k
All-append P (x ∷ xs) ys h k = (h.0, All-append P xs ys h.1 k)

All-weaken : (P Q : ℕ → Type 0) → ((x : ℕ) → P x → Q x) → (xs : Bytes) → All P xs → All Q xs
All-weaken P Q f [] h = tt
All-weaken P Q f (x ∷ xs) h = (f x h.0, All-weaken P Q f xs h.1)

All-reverse_aux : (P : ℕ → Type 0) (xs ys : Bytes) → All P xs → All P ys → All P (reverse_aux xs ys)
All-reverse_aux P [] ys h k = k
All-reverse_aux P (x ∷ xs) ys h k = All-reverse_aux P xs (x ∷ ys) h.1 (h.0, k)

-- No character from `!` to `~` begins or ends white space.
pub whitespace_len-visible : (c : ℕ) (s : Bytes) → 33 ≤ c → c ≤ 126 → whitespace_len (c ∷ s) ≡ 0
unfolding whitespace_len
whitespace_len-visible c [] h k = ground arith
whitespace_len-visible c (a ∷ []) h k = ground arith
whitespace_len-visible c (a ∷ b ∷ s) h k = ground arith

pub whitespace_len_back-visible :
    (c : ℕ) (s : Bytes) → 33 ≤ c → c ≤ 126 → whitespace_len_back (c ∷ s) ≡ 0
unfolding whitespace_len_back whitespace_len
whitespace_len_back-visible c [] h k = ground arith
whitespace_len_back-visible c (a ∷ []) h k = ground arith
whitespace_len_back-visible c (a ∷ b ∷ s) h k = ground arith

trim_by-none : (len : Bytes → ℕ) (s : Bytes) → len s ≡ 0 → trim_by len 0 s ≡ s
unfolding trim_by
trim_by-none len [] h = refl
trim_by-none len (b ∷ s) h = ground arith

pub trim-kept :
    (s : Bytes) → whitespace_len s ≡ 0 → whitespace_len_back (reverse s) ≡ 0 → trim s ≡ s
unfolding trim trim_start trim_end
trim-kept s h k =
    rw (trim_by-none whitespace_len s h)
      (ap reverse (trim_by-none whitespace_len_back (reverse s) k) ∙ reverse-reverse s)

-- A text of plain characters is left as it is by the trimming of white space and of quotes.
whitespace_len-plain : (s : Bytes) → All IsPlain s → whitespace_len s ≡ 0
unfolding whitespace_len
whitespace_len-plain [] h = refl
whitespace_len-plain (c ∷ s) h = whitespace_len-visible c s (omega arith) (omega arith)

whitespace_len_back-plain : (s : Bytes) → All IsPlain s → whitespace_len_back s ≡ 0
unfolding whitespace_len_back
whitespace_len_back-plain [] h = refl
whitespace_len_back-plain (c ∷ s) h = whitespace_len_back-visible c s (omega arith) (omega arith)

trim-plain : (s : Bytes) → All IsPlain s → trim s ≡ s
trim-plain s h =
    trim-kept s (whitespace_len-plain s h)
      (whitespace_len_back-plain (reverse s) (All-reverse_aux IsPlain s [] h tt))

trim_start_quotes-plain : (s : Bytes) → All IsPlain s → trim_start_quotes s ≡ s
unfolding trim_start_quotes
trim_start_quotes-plain [] h = refl
trim_start_quotes-plain (c ∷ s) h = ground arith

trim_quote_matches-plain : (s : Bytes) → All IsPlain s → trim_quote_matches s ≡ s
unfolding trim_quote_matches
trim_quote_matches-plain s h = rw (trim_start_quotes-plain s h) (
    ap reverse (trim_start_quotes-plain (reverse s) (All-reverse_aux IsPlain s [] h tt))
    ∙ reverse-reverse s)

split-last : (c : ℕ) (xs : Bytes) → All (λ x. x ≢ c) xs → split c xs ≡ xs ∷ []
unfolding split
split-last c [] h = refl
split-last c (x ∷ xs) h = ground (arith, split-last c xs h.1, h.0)

split-append :
    (c : ℕ) (xs ys : Bytes) → All (λ x. x ≢ c) xs → split c (xs ++ (c ∷ ys)) ≡ xs ∷ split c ys
unfolding split
split-append c [] ys h = ground arith
split-append c (x ∷ xs) ys h = ground (arith, split-append c xs ys h.1, h.0)

-- A digit is plain, and is not the dot.
digits-IsPlain : (n : ℕ) → n < 256 → All IsPlain (decimal n)
digits-IsPlain n h =
    All-weaken IsDigit IsPlain (λ x p. omega (arith, p)) (decimal n) (decimal-IsDigit n h)

digits_no_dot : (n : ℕ) → n < 256 → All (λ x. x ≢ b'.') (decimal n)
digits_no_dot n h =
    All-weaken IsDigit (λ x. x ≢ b'.') (λ x p e. omega (arith, p, e)) (decimal n)
      (decimal-IsDigit n h)

module _ (a b c d : ℕ) (ha : a < 256) (hb : b < 256) (hc : c < 256) (hd : d < 256) where
  abbrev dotted : Bytes
  dotted = decimal a ++ (b'.' ∷ (decimal b ++ (b'.' ∷ (decimal c ++ (b'.' ∷ decimal d)))))

  dotted-IsPlain : All IsPlain dotted
  dotted-IsPlain =
      let dot : IsPlain b'.' = omega arith in
      All-append IsPlain (decimal a) _ (digits-IsPlain a ha) (
        dot,
        All-append IsPlain (decimal b) _ (digits-IsPlain b hb) (
          dot,
          All-append IsPlain (decimal c) _ (digits-IsPlain c hc) (dot, digits-IsPlain d hd),
        ),
      )

  split-dotted : split b'.' dotted ≡ decimal a ∷ decimal b ∷ decimal c ∷ decimal d ∷ []
  split-dotted =
      split-append b'.' (decimal a) _ (digits_no_dot a ha)
      ∙ ap (λ r. decimal a ∷ r)
          (split-append b'.' (decimal b) _ (digits_no_dot b hb)
            ∙ ap (λ r. decimal b ∷ r)
                (split-append b'.' (decimal c) _ (digits_no_dot c hc)
                  ∙ ap (λ r. decimal c ∷ r) (split-last b'.' (decimal d) (digits_no_dot d hd))))

  parse-dotted : parse_ipv4_to_u32 dotted ≡ some (((a * 256 + b) * 256 + c) * 256 + d)
  unfolding parse_ipv4_to_u32 parse_addr address from_octets
  parse-dotted = rw (trim-plain dotted dotted-IsPlain) (
      rw (trim_quote_matches-plain dotted dotted-IsPlain) (
        rw split-dotted (
          rw (parse_octet-decimal a ha) (
            rw (parse_octet-decimal b hb)
              (rw (parse_octet-decimal c hc) (rw (parse_octet-decimal d hd) refl))))))

-- Every address that is printed is read back as the number that it was.
parse-ipv4_from_u32 : (v : ℕ) → v < 2 ^ 32 → parse_ipv4_to_u32 (ipv4_from_u32 v) ≡ some v
unfolding ipv4_from_u32
parse-ipv4_from_u32 v h =
    parse-dotted (v / 256 / 256 / 256) (v / 256 / 256 % 256) (v / 256 % 256) (v % 256) (omega arith)
      (omega arith) (omega arith) (omega arith)
    ∙ ap some (omega arith)

-- The number that `ip4_text` prints: the last 32 bits of a whole number, also of one in a text, and 0
-- for a text that holds none.
abbrev pub printed_number : SqlArg → ℕ
printed_number (SqlArg.int i) = as_u32 i
printed_number (SqlArg.text s) = unwrap_number 0 (parse_u64 (trim s)) % 2 ^ 32
printed_number SqlArg.other = 0

as_u32-lt : (i : ℤ) → as_u32 i < 2 ^ 32
unfolding as_u32
as_u32-lt (ℤ.pos n) = omega arith
as_u32-lt (ℤ.negsuc n) = omega arith

-- What `ip4_text` prints is read back by the functions on addresses as the number that was printed.
pub parse_ipv4_to_u32-ip4_text :
    (x : SqlArg) (t : Bytes) → ip4_text x ≡ some t → parse_ipv4_to_u32 t ≡ some (printed_number x)
unfolding ip4_text
parse_ipv4_to_u32-ip4_text (SqlArg.int i) t e =
    ap parse_ipv4_to_u32 (ground (arith, e)) ∙ parse-ipv4_from_u32 (as_u32 i) (as_u32-lt i)
parse_ipv4_to_u32-ip4_text (SqlArg.text s) t e =
    ap parse_ipv4_to_u32 (ground (arith, e))
    ∙ parse-ipv4_from_u32 (unwrap_number 0 (parse_u64 (trim s)) % 2 ^ 32) (omega arith)
parse_ipv4_to_u32-ip4_text SqlArg.other t e = absurd (ground (arith, e))
