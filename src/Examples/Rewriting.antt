-- ===== src/Examples/Rewriting.antt =====
-- The theorems on `rewrite_sql` of `src/postgres.rs` and `src/mysql.rs` at concrete inputs.
use wp_knowledge.Base.{
  ℕ, ◌+◌, ◌≡◌, refl, List, [], ◌∷◌, ◌++◌, Bytes, DataField, find, insert, ℕ_discrete, Bool, true,
  not, ◌&&◌, ltb, ◌==◌,
}
use wp_knowledge.Base.Model.{ℤ, Value, Bytes-discrete}
use wp_knowledge.Base.Text.{codes}
use wp_knowledge.Runtime.Types.{KnowledgeResult}
use wp_knowledge.Rewrite.Place.{rewrite_sql_postgres, rewrite_sql_mysql}

abbrev digit : ℕ → Bytes
digit n = (b'0' + n) ∷ []

abbrev field : Bytes → ℕ → DataField
field name n = record { name = name; value = Value.int (ℤ.pos n) }

abbrev params : List DataField
params = field (codes "a") 1 ∷ field (codes ":b") 2 ∷ []

abbrev query : Bytes
query = codes "select ':a', x::int -- :a" ++ 10 ∷ codes "where p = :b and q = :a or r = :b"

rewritten_postgres :
    rewrite_sql_postgres digit query params
    ≡ KnowledgeResult.ok (
      codes "select ':a', x::int -- :a" ++ 10 ∷ codes "where p = $1 and q = $2 or r = $1",
      field (codes ":b") 2 ∷ field (codes "a") 1 ∷ [],
    )
unfolding rewrite_sql_postgres find insert Bytes-discrete ℕ_discrete
rewritten_postgres = refl

rewritten_mysql :
    rewrite_sql_mysql query params
    ≡ KnowledgeResult.ok (
      codes "select ':a', x::int -- :a" ++ 10 ∷ codes "where p = ? and q = ? or r = ?",
      field (codes ":b") 2 ∷ field (codes "a") 1 ∷ field (codes ":b") 2 ∷ [],
    )
unfolding rewrite_sql_mysql find insert Bytes-discrete ℕ_discrete
rewritten_mysql = refl

-- A byte from 128 on is written as two, also in a literal.
rewritten_wide :
    rewrite_sql_mysql (b'\'' ∷ 0xC3 ∷ 0xA9 ∷ b'\'' ∷ []) []
    ≡ KnowledgeResult.ok (b'\'' ∷ 0xC3 ∷ 0x83 ∷ 0xC2 ∷ 0xA9 ∷ b'\'' ∷ [], [])
unfolding rewrite_sql_mysql
rewritten_wide = refl

unmarked : Bytes → Bool
unmarked [] = true
unmarked (c ∷ s) = (ltb c 128 && not (c == b'?')) && unmarked s

no_dollar : Bytes → Bool
no_dollar [] = true
no_dollar (c ∷ s) = (ltb c 128 && not (c == b'$')) && no_dollar s
