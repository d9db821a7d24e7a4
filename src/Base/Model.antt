-- ===== src/Base/Model.antt =====
-- The field values of the `wp_model_core` crate as far as the repository reads them, and the IP
-- addresses of the standard library.
use Prim.Native.Nat.{ℕ}
use mathlib.Core.Bool.{Bool}
use mathlib.Core.List.{List}
use native.Mathlib.Decide.{ℕ_discrete}

-- A Rust string is the list of its UTF-8 bytes.
abbrev pub Bytes : Type 0
Bytes = List ℕ

-- A signed integer; `negsuc n` is -(n + 1).
pub data ℤ : Type 0 where
  pos : ℕ → ℤ
  negsuc : ℕ → ℤ

-- An address is the number that its octets spell.
pub data IpAddr : Type 0 where
  v4 : ℕ → IpAddr
  v6 : ℕ → IpAddr

-- The variants of `Value`. A float is its IEEE-754 bits, a text-like value is its `to_string`, an
-- object or an array is its debug text.
pub data Value : Type 0 where
  null ignore : Value
  chars : Bytes → Value
  int : ℤ → Value
  ip_addr : IpAddr → Value
  big_uint : ℕ → Value
  bool : Bool → Value
  float : ℕ → Value
  symbol time hex ip_net domain url email id_card mobile_phone : Bytes → Value
  obj array : Bytes → Value

unfoldable pub Bytes-discrete : Discrete Bytes
Bytes-discrete = hlevel ℕ_discrete

unfoldable pub ℤ-discrete : Discrete ℤ
ℤ-discrete = hlevel ℕ_discrete

unfoldable pub IpAddr-discrete : Discrete IpAddr
IpAddr-discrete = hlevel ℕ_discrete

unfoldable pub Bool-discrete : Discrete Bool
Bool-discrete = hlevel

-- A field as the repository reads it. `RowData` is a list of fields.
pub record DataField : Type 0 where
  pub name : Bytes
  pub value : Value

abbrev pub RowData : Type 0
RowData = List DataField
