-- ===== src/SqliteExt.antt =====
-- `src/sqlite_ext.rs`: the functions on addresses that are registered with SQLite.
use wp_knowledge.Base.{
  ℕ, ◌+◌, ◌-◌, ◌*◌, ◌%◌, ◌^◌, ◌||◌, ◌&&◌, List, [], ◌∷◌, Option, none, some, ◌==◌, ltb, leb,
  if◌then◌else◌, Bytes, length,
}
use wp_knowledge.Base.Model.{ℤ}
use wp_knowledge.Base.Text.{trim}
use wp_knowledge.Vel.Text.{split, digits_value, bounded_by}
use mathlib.Core.List.{reverse}
use Prim.Native.Nat.{bit_and, bit_or}
pub mod Bits
pub mod Cidr
pub mod Texts
pub mod Octets
pub mod Printed
pub mod Quotes

-- `u32::MAX`.
abbrev pub u32_max : ℕ
u32_max = 4_294_967_295

-- `str::trim_matches` with a double quote.
unfoldable pub trim_start_quotes : Bytes → Bytes
trim_start_quotes [] = []
trim_start_quotes (c ∷ s) = if c == b'"' then trim_start_quotes s else c ∷ s

unfoldable pub trim_quote_matches : Bytes → Bytes
unfolding trim_start_quotes
trim_quote_matches s = reverse (trim_start_quotes (reverse (trim_start_quotes s)))

-- A part of an address has at most three digits, and no zero before others.
unfoldable pub parse_octet : Bytes → Option ℕ
unfolding digits_value
parse_octet [] = none
parse_octet (c ∷ []) = bounded_by 255 (digits_value 0 (c ∷ []))
parse_octet (c ∷ d ∷ s) =
    if c == b'0' || ltb 1 (length s) then none else bounded_by 255 (digits_value 0 (c ∷ d ∷ s))

unfoldable pub from_octets : Option ℕ → Option ℕ → Option ℕ → Option ℕ → Option ℕ
from_octets (some a) (some b) (some c) (some d) = some (((a * 256 + b) * 256 + c) * 256 + d)
from_octets _ _ _ _ = none

unfoldable pub address : List Bytes → Option ℕ
unfolding parse_octet from_octets
address (a ∷ b ∷ c ∷ d ∷ []) =
    from_octets (parse_octet a) (parse_octet b) (parse_octet c) (parse_octet d)
address _ = none

-- `str::parse` for an `Ipv4Addr`, and its number.
unfoldable pub parse_addr : Bytes → Option ℕ
unfolding address split
parse_addr s = address (split b'.' s)

-- `str::parse` for a `u32`: a plus may stand before the digits.
unfoldable pub parse_u32 : Bytes → Option ℕ
unfolding digits_value
parse_u32 [] = none
parse_u32 (c ∷ []) = if c == b'+' then none else digits_value 0 (c ∷ [])
parse_u32 (c ∷ d ∷ s) = bounded_by u32_max (digits_value 0 (if c == b'+' then d ∷ s else c ∷ d ∷ s))

unfoldable pub parse_ipv4_to_u32 : Bytes → Option ℕ
unfolding parse_addr trim trim_quote_matches
parse_ipv4_to_u32 s = parse_addr (trim_quote_matches (trim s))

-- The shift of `u32` drops the bits that leave it.
unfoldable pub mask_of : ℕ → ℕ
mask_of pfx = if pfx == 0 then 0 else u32_max * 2 ^ (32 - pfx) % 2 ^ 32

unfoldable pub cidr_of : Option ℕ → Option ℕ → Option (ℕ × ℕ)
unfolding mask_of
cidr_of (some ip) (some pfx) = if ltb 32 pfx then none else some (ip, mask_of pfx)
cidr_of _ _ = none

unfoldable pub cidr_parts : List Bytes → Option (ℕ × ℕ)
unfolding cidr_of parse_addr parse_u32
cidr_parts (ip_s ∷ pfx_s ∷ []) = cidr_of (parse_addr ip_s) (parse_u32 pfx_s)
cidr_parts _ = none

unfoldable pub parse_cidr4 : Bytes → Option (ℕ × ℕ)
unfolding cidr_parts split trim trim_quote_matches
parse_cidr4 s = cidr_parts (split b'/' (trim_quote_matches (trim s)))

-- The functions as SQLite calls them; 0 stands for a text that is none of the right form.
unfoldable pub cidr4_min : Bytes → ℕ
unfolding parse_cidr4
cidr4_min s = elim (parse_cidr4 s) [ none ↦ 0 | some (ip, mask) ↦ bit_and ip mask ]

-- `!mask` is what is missing to the largest number.
unfoldable pub cidr4_max : Bytes → ℕ
unfolding parse_cidr4
cidr4_max s = elim (parse_cidr4 s) [
  | none ↦ 0
  | some (ip, mask) ↦ bit_or (bit_and ip mask) (u32_max - mask)
]

unfoldable pub ip4_int : Bytes → ℕ
unfolding parse_ipv4_to_u32
ip4_int s = elim (parse_ipv4_to_u32 s) [ none ↦ 0 | some v ↦ v ]

-- A value of SQLite: a whole number, a text, or neither.
pub data SqlArg : Type 0 where
  int : ℤ → SqlArg
  text : Bytes → SqlArg
  other : SqlArg

-- `as u32`.
unfoldable pub as_u32 : ℤ → ℕ
as_u32 (ℤ.pos n) = n % 2 ^ 32
as_u32 (ℤ.negsuc n) = u32_max - n % 2 ^ 32

unfoldable pub unwrap_number : ℕ → Option ℕ → ℕ
unwrap_number d none = d
unwrap_number d (some v) = v

unfoldable pub bound_of : ℕ → SqlArg → ℕ
unfolding as_u32 unwrap_number parse_ipv4_to_u32
bound_of d (SqlArg.int i) = as_u32 i
bound_of d (SqlArg.text s) = unwrap_number d (parse_ipv4_to_u32 s)
bound_of d SqlArg.other = d

unfoldable pub ip4_between : Bytes → SqlArg → SqlArg → ℕ
unfolding bound_of unwrap_number parse_ipv4_to_u32
ip4_between ip start end =
    let v = unwrap_number u32_max (parse_ipv4_to_u32 ip) in
    if leb (bound_of u32_max start) v && leb v (bound_of 0 end) then 1 else 0

unfoldable pub is_inside : Option ℕ → Option (ℕ × ℕ) → ℕ
is_inside (some ip) (some (net_ip, mask)) = if bit_and ip mask == bit_and net_ip mask then 1 else 0
is_inside _ _ = 0

unfoldable pub cidr4_contains : Bytes → Bytes → ℕ
unfolding is_inside parse_ipv4_to_u32 parse_cidr4
cidr4_contains ip_s cidr_s = is_inside (parse_ipv4_to_u32 ip_s) (parse_cidr4 cidr_s)
