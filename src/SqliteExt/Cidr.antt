-- ===== src/SqliteExt/Cidr.antt =====
-- `src/sqlite_ext.rs`: the addresses of a block of addresses are those between its bounds.
use wp_knowledge.Base.{
  ℕ, zero, suc, ◌+◌, ◌-◌, ◌%◌, ◌^◌, ◌≤◌, ◌<◌, ◌≡◌, refl, ap, ◌∙◌, Bool, true, ◌&&◌, List, [], ◌∷◌,
  Option, none, some, arith, ◌==◌, ltb, leb, Bytes, Bool-cases, inl, inr, length, ◌||◌,
}
use wp_knowledge.Base.Model.{ℤ}
use wp_knowledge.Base.Text.{trim}
use wp_knowledge.Vel.Text.{split, bounded_by, digits_value}
use wp_knowledge.SqliteExt.{
  u32_max, trim_quote_matches, parse_octet, from_octets, address, parse_addr, parse_u32,
  parse_ipv4_to_u32, mask_of, cidr_of, cidr_parts, parse_cidr4, cidr4_min, cidr4_max, SqlArg,
  as_u32, unwrap_number, bound_of, ip4_between, is_inside, cidr4_contains,
}
use wp_knowledge.SqliteExt.Bits.{
  floor, ones, shifted, power, and-shifted, or-ones, same_floor, floor_top,
}
use Prim.Native.Nat.{bit_and, bit_or}

-- A test that holds below a number, by evaluation.
every : (ℕ → Bool) → ℕ → Bool
every p zero = true
every p (suc n) = p n && every p n

every-lt : (p : ℕ → Bool) (n i : ℕ) → every p n ≡ true → i < n → p i ≡ true
unfolding every
every-lt p zero i e h = absurd (omega arith)
every-lt p (suc n) i e h = ground (arith, every-lt p n i)

is_mask : ℕ → Bool
is_mask p =
    mask_of p == shifted (32 - p) (ones p)
    && u32_max - mask_of p == ones (32 - p)
    && shifted (32 - p) (power p) == 2 ^ 32

mask_lem :
    (p : ℕ)
    → p < 33
    → (mask_of p ≡ shifted (32 - p) (ones p))
      × (u32_max - mask_of p ≡ ones (32 - p))
      × (shifted (32 - p) (power p) ≡ 2 ^ 32)
unfolding is_mask
mask_lem p h =
    let all : every is_mask 33 ≡ true = unfold every mask_of shifted ones power in refl in
    let e = every-lt is_mask 33 p all h in (ground arith, ground arith, ground arith)

bounded_by-le : (top : ℕ) (r : Option ℕ) (v : ℕ) → bounded_by top r ≡ some v → v ≤ top
bounded_by-le top none v e = absurd (ground arith)
bounded_by-le top (some n) v e = ground arith

parse_octet-le : (s : Bytes) (v : ℕ) → parse_octet s ≡ some v → v ≤ 255
unfolding parse_octet
parse_octet-le [] v e = absurd (ground arith)
parse_octet-le (c ∷ []) v e = bounded_by-le 255 (digits_value 0 (c ∷ [])) v e
parse_octet-le (c ∷ d ∷ s) v e = elim (Bool-cases (c == b'0' || ltb 1 (length s))) [
  | inl refused ↦ absurd (ground arith)
  | inr right ↦ bounded_by-le 255 (digits_value 0 (c ∷ d ∷ s)) v (ground arith)
]

from_octets-lt :
    (a b c d : Option ℕ) (v : ℕ)
    → ((x : ℕ) → a ≡ some x → x ≤ 255)
    → ((x : ℕ) → b ≡ some x → x ≤ 255)
    → ((x : ℕ) → c ≡ some x → x ≤ 255)
    → ((x : ℕ) → d ≡ some x → x ≤ 255)
    → from_octets a b c d ≡ some v
    → v < 2 ^ 32
unfolding from_octets
from_octets-lt (some a) (some b) (some c) (some d) v f g h k e =
    let fa = f a refl in let gb = g b refl in let hc = h c refl in let kd = k d refl in ground arith
from_octets-lt (some a) (some b) (some c) none v f g h k e = absurd (ground arith)
from_octets-lt (some a) (some b) none d v f g h k e = absurd (ground arith)
from_octets-lt (some a) none c d v f g h k e = absurd (ground arith)
from_octets-lt none b c d v f g h k e = absurd (ground arith)

address-lt : (parts : List Bytes) (v : ℕ) → address parts ≡ some v → v < 2 ^ 32
unfolding address
address-lt (a ∷ b ∷ c ∷ d ∷ []) v e =
    from_octets-lt _ _ _ _ v (parse_octet-le a) (parse_octet-le b) (parse_octet-le c)
      (parse_octet-le d) e
address-lt [] v e = absurd (ground arith)
address-lt (a ∷ []) v e = absurd (ground arith)
address-lt (a ∷ b ∷ []) v e = absurd (ground arith)
address-lt (a ∷ b ∷ c ∷ []) v e = absurd (ground arith)
address-lt (a ∷ b ∷ c ∷ d ∷ x ∷ l) v e = absurd (ground arith)

-- A number of an address, and the mask of a prefix.
IsBlock : ℕ × ℕ → Type 0
IsBlock r = (p : ℕ) × (p < 33) × (r.0 < 2 ^ 32) × (r.1 ≡ mask_of p)

cidr_of-IsBlock :
    (ip pfx : Option ℕ) (r : ℕ × ℕ)
    → ((x : ℕ) → ip ≡ some x → x < 2 ^ 32)
    → cidr_of ip pfx ≡ some r
    → IsBlock r
unfolding cidr_of IsBlock
cidr_of-IsBlock none pfx r f e = absurd (ground arith)
cidr_of-IsBlock (some x) none r f e = absurd (ground arith)
cidr_of-IsBlock (some x) (some p) (a, m) f e =
    let small = f x refl in (p, ground arith, ground arith, ground arith)

cidr_parts-IsBlock : (parts : List Bytes) (r : ℕ × ℕ) → cidr_parts parts ≡ some r → IsBlock r
unfolding cidr_parts parse_addr
cidr_parts-IsBlock (ip ∷ pfx ∷ []) r e =
    cidr_of-IsBlock (parse_addr ip) (parse_u32 pfx) r (address-lt (split b'.' ip)) e
cidr_parts-IsBlock [] r e = absurd (ground arith)
cidr_parts-IsBlock (ip ∷ []) r e = absurd (ground arith)
cidr_parts-IsBlock (ip ∷ pfx ∷ x ∷ l) r e = absurd (ground arith)

-- The bounds, and the test for an address, in arithmetic.
block_lem :
    (p n v : ℕ)
    → p < 33
    → n < 2 ^ 32
    → v < 2 ^ 32
    → (bit_and n (mask_of p) ≡ floor (32 - p) n)
      × (bit_and v (mask_of p) ≡ floor (32 - p) v)
      × (bit_or (bit_and n (mask_of p)) (u32_max - mask_of p) ≡ floor (32 - p) n + ones (32 - p))
      × (floor (32 - p) n + ones (32 - p) < 2 ^ 32)
block_lem p n v h k l =
    let (mask, rest, all) = mask_lem p h in
    let low : (x : ℕ) → x < 2 ^ 32 → bit_and x (mask_of p) ≡ floor (32 - p) x =
      λ x small. ap (bit_and x) mask ∙ and-shifted p (32 - p) x (omega arith) in
    (
      low n k,
      low v l,
      ap (λ x. bit_or x (u32_max - mask_of p)) (low n k)
          ∙ ap (bit_or (floor (32 - p) n)) rest
          ∙ or-ones (32 - p) n,
      omega (arith, floor_top (32 - p) (power p) n),
    )

between_floor :
    (k n v : ℕ)
    → floor k n + ones k < 2 ^ 32
    → (floor k v == floor k n)
      ≡ (leb (floor k n % 2 ^ 32) v && leb v ((floor k n + ones k) % 2 ^ 32))
between_floor k n v h =
    let (there, back) = same_floor k n v in
    elim (Bool-cases (floor k v == floor k n)) [
      | inl same ↦ let (lo, hi) = there (ground arith) in ground arith
      | inr other ↦ elim (Bool-cases (leb (floor k n) v)) [
        | inr under ↦ ground arith
        | inl lo ↦ elim (Bool-cases (leb v (floor k n + ones k))) [
          | inr over ↦ ground arith
          | inl hi ↦ absurd (ground (arith, back (ground arith) (ground arith)))
        ]
      ]
    ]

inside_lem :
    (v : ℕ) (r : ℕ × ℕ)
    → v < 2 ^ 32
    → IsBlock r
    → (bit_and v r.1 == bit_and r.0 r.1) ≡ (
        leb (bit_and r.0 r.1 % 2 ^ 32) v
        && leb v (bit_or (bit_and r.0 r.1) (u32_max - r.1) % 2 ^ 32))
unfolding IsBlock
inside_lem v (n, m) small (p, h, k, e) =
    let (own, other, top, all) = block_lem p n v h k small in
    let between = between_floor (32 - p) n v all in rw (e, top, own, other) between

-- For texts of an address and of a block that can be read, cidr4_contains is ip4_between with the
-- numbers that cidr4_min and cidr4_max give for the block.
pub cidr4_contains-ip4_between :
    (ip cidr : Bytes) (v : ℕ) (r : ℕ × ℕ)
    → parse_ipv4_to_u32 ip ≡ some v
    → parse_cidr4 cidr ≡ some r
    → cidr4_contains ip cidr
      ≡ ip4_between ip (SqlArg.int (ℤ.pos (cidr4_min cidr))) (SqlArg.int (ℤ.pos (cidr4_max cidr)))
unfolding cidr4_contains is_inside ip4_between unwrap_number bound_of as_u32 cidr4_min cidr4_max
    parse_ipv4_to_u32 parse_addr parse_cidr4
cidr4_contains-ip4_between ip cidr v r e f =
    let inside =
      inside_lem v r (address-lt (split b'.' (trim_quote_matches (trim ip))) v e)
        (cidr_parts-IsBlock (split b'/' (trim_quote_matches (trim cidr))) r f) in
    ground arith
