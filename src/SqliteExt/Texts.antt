-- ===== src/SqliteExt/Texts.antt =====
-- `src/sqlite_ext.rs`: the functions that give a text, `ip4_text` and `trim_quotes`.
use wp_knowledge.Base.{
  ℕ, ◌+◌, ◌-◌, ◌/◌, ◌%◌, ◌^◌, Bool, ◌||◌, ◌&&◌, [], ◌∷◌, ◌++◌, Option, none, some, ◌==◌, leb,
  if◌then◌else◌, Bytes, length, drop, take,
}
use wp_knowledge.Base.Text.{trim, decimal}
use wp_knowledge.Vel.Text.{parse_u64}
use wp_knowledge.SqliteExt.{SqlArg, as_u32, unwrap_number}

-- `to_string` of an `Ipv4Addr`.
unfoldable pub ipv4_from_u32 : ℕ → Bytes
unfolding decimal
ipv4_from_u32 v =
    decimal (v / 256 / 256 / 256)
    ++ (b'.'
        ∷ (decimal (v / 256 / 256 % 256)
            ++ (b'.' ∷ (decimal (v / 256 % 256) ++ (b'.' ∷ decimal (v % 256))))))

-- A value that is no number and no text is an error.
unfoldable pub ip4_text : SqlArg → Option Bytes
unfolding ipv4_from_u32 as_u32 unwrap_number parse_u64 trim
ip4_text (SqlArg.int i) = some (ipv4_from_u32 (as_u32 i))
ip4_text (SqlArg.text s) = some (ipv4_from_u32 (unwrap_number 0 (parse_u64 (trim s)) % 2 ^ 32))
ip4_text SqlArg.other = none

-- The source asks only for bytes within the text.
unfoldable pub byte_at : ℕ → Bytes → ℕ
byte_at i [] = 0
byte_at i (c ∷ s) = if i == 0 then c else byte_at (i - 1) s

abbrev is_quote : ℕ → Bool
is_quote c = c == b'"' || c == b'\''

unfoldable pub hidx : Bytes → ℕ
unfolding byte_at
hidx b = if byte_at 0 b == 0x5C && is_quote (byte_at 1 b) then 1 else 0

-- `t[start..end]`, and nothing if the bounds cross.
unfoldable pub slice : ℕ → ℕ → Bytes → Bytes
slice start end_excl t = if leb start end_excl then drop start (take end_excl t) else []

unfoldable pub unquoted : Bytes → Bytes
unfolding byte_at hidx slice
unquoted t =
    let tidx = length t - 1 in
    let head = byte_at (hidx t) t in
    let tail = byte_at tidx t in
    if (head == b'"' && tail == b'"') || (head == b'\'' && tail == b'\'')
    then slice (hidx t + 1) (if leb 1 tidx && byte_at (tidx - 1) t == 0x5C then tidx - 1 else tidx)
        t
    else t

unfoldable pub trim_quotes : Bytes → Bytes
unfolding trim unquoted
trim_quotes s = let t = trim s in if leb 2 (length t) then unquoted t else t
