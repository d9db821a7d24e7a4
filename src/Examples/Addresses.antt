-- ===== src/Examples/Addresses.antt =====
-- The theorems on `src/sqlite_ext.rs` at concrete inputs.
use wp_knowledge.Base.{◌≡◌, refl, inl, some}
use wp_knowledge.Base.Model.{ℤ}
use wp_knowledge.Base.Text.{codes}
use wp_knowledge.SqliteExt.{
  parse_ipv4_to_u32, parse_cidr4, cidr4_min, cidr4_max, SqlArg, ip4_between, cidr4_contains,
}
use wp_knowledge.SqliteExt.Texts.{ip4_text, byte_at, trim_quotes}
use wp_knowledge.SqliteExt.Printed.{parse_ipv4_to_u32-ip4_text}
use wp_knowledge.SqliteExt.Quotes.{trim_quotes-quoted}
use wp_knowledge.SqliteExt.Cidr.{cidr4_contains-ip4_between}

-- A text that is no address counts as the last address.
no_address :
    ip4_between
      (codes "none")
      (SqlArg.text (codes "255.0.0.0"))
      (SqlArg.text (codes "255.255.255.255"))
    ≡ 1
unfolding ip4_between parse_ipv4_to_u32
no_address = refl

cidr4_contains-ip4_between_example :
    cidr4_contains (codes " \"10.1.2.3\"") (codes "10.0.0.1/8")
    ≡ ip4_between
        (codes " \"10.1.2.3\"")
        (SqlArg.int (ℤ.pos (cidr4_min (codes "10.0.0.1/8"))))
        (SqlArg.int (ℤ.pos (cidr4_max (codes "10.0.0.1/8"))))
unfolding parse_ipv4_to_u32 parse_cidr4
cidr4_contains-ip4_between_example =
    cidr4_contains-ip4_between (codes " \"10.1.2.3\"") (codes "10.0.0.1/8") 167838211
      (167772161, 4278190080) refl refl

parse_ipv4_to_u32-ip4_text_example :
    parse_ipv4_to_u32 (codes "255.255.255.254") ≡ some 4_294_967_294
unfolding ip4_text
parse_ipv4_to_u32-ip4_text_example =
    parse_ipv4_to_u32-ip4_text (SqlArg.int (ℤ.negsuc 1)) (codes "255.255.255.254") refl

-- The path ends in a backslash, which is lost.
trim_quotes-quoted_example :
    (trim_quotes (codes "\"C:\\\"") ≡ codes "C:")
    × (trim_quotes (codes "\\\"C:\\\\\"") ≡ codes "C:\\")
unfolding byte_at
trim_quotes-quoted_example = trim_quotes-quoted b'"' (codes "C:\\") (inl refl)
