-- ===== src/Rewrite/Place.antt =====
-- `src/postgres.rs`, `src/mysql.rs`: what `rewrite_sql` writes for the tokens of a query.
use wp_knowledge.Base.{
  ℕ, ◌+◌, List, [], ◌∷◌, ◌++◌, none, some, ◌==◌, if◌then◌else◌, Bytes, DataField, length, find,
  insert,
}
use wp_knowledge.Base.Model.{Bytes-discrete}
use wp_knowledge.Base.Text.{codes, push_char}
use wp_knowledge.Runtime.Types.{KnowledgeError, KnowledgeResult}
use wp_knowledge.Rewrite.Tokens.{Token, tokens}

unfoldable pub normalize_param_name : Bytes → Bytes
normalize_param_name [] = b':' ∷ []
normalize_param_name (c ∷ name) = if c == b':' then c ∷ name else b':' ∷ c ∷ name

-- `by_name`: a later field replaces an earlier one of its name.
abbrev pub Fields : Type 0
Fields = List (Bytes × DataField)

unfoldable pub collect : Fields → List DataField → Fields
unfolding normalize_param_name
collect by_name [] = by_name
collect by_name (field ∷ params) =
    collect (insert Bytes-discrete (normalize_param_name field.name) field by_name) params

-- What is written: a byte as a character, or a placeholder, which Postgres numbers.
pub data Piece : Type 0 where
  byte placeholder : ℕ → Piece

abbrev pub Placed : Type 0
Placed = KnowledgeResult (List Piece × List DataField)

unfoldable pub add_piece : Piece → Placed → Placed
add_piece p (KnowledgeResult.err e) = KnowledgeResult.err e
add_piece p (KnowledgeResult.ok (ps, ordered)) = KnowledgeResult.ok (p ∷ ps, ordered)

abbrev pub missing : Bytes → Bytes → KnowledgeError
missing driver name = KnowledgeError.logic (driver ++ codes " query missing param: " ++ name)

-- The loop of Postgres: a name keeps the number that it first gets.
unfoldable pub place_postgres : Fields → List (Bytes × ℕ) → List DataField → List Token → Placed
unfolding add_piece
place_postgres by_name assigned ordered [] = KnowledgeResult.ok ([], ordered)
place_postgres by_name assigned ordered (Token.byte b ∷ ts) =
    add_piece (Piece.byte b) (place_postgres by_name assigned ordered ts)
place_postgres by_name assigned ordered (Token.param name ∷ ts) =
    elim (find Bytes-discrete name by_name) [
      | none ↦ KnowledgeResult.err (missing (codes "postgres") name)
      | some field ↦ elim (find Bytes-discrete name assigned) [
        | some idx ↦ add_piece (Piece.placeholder idx) (place_postgres by_name assigned ordered ts)
        | none ↦ add_piece (Piece.placeholder (length ordered + 1)) (
            place_postgres by_name (insert Bytes-discrete name (length ordered + 1) assigned)
              (ordered ++ field ∷ []) ts)
      ]
    ]

-- The loop of MySQL: the number of a placeholder is not written, and not kept.
unfoldable pub place_mysql : Fields → List DataField → List Token → Placed
unfolding add_piece
place_mysql by_name ordered [] = KnowledgeResult.ok ([], ordered)
place_mysql by_name ordered (Token.byte b ∷ ts) =
    add_piece (Piece.byte b) (place_mysql by_name ordered ts)
place_mysql by_name ordered (Token.param name ∷ ts) = elim (find Bytes-discrete name by_name) [
  | none ↦ KnowledgeResult.err (missing (codes "mysql") name)
  | some field ↦ add_piece (Piece.placeholder 0) (place_mysql by_name (ordered ++ field ∷ []) ts)
]

abbrev pub Rewritten : Type 0
Rewritten = KnowledgeResult (Bytes × List DataField)

unfoldable pub written : (ℕ → Bytes) → List Piece → Bytes
unfolding push_char
written mark [] = []
written mark (Piece.byte b ∷ ps) = push_char b ++ written mark ps
written mark (Piece.placeholder n ∷ ps) = mark n ++ written mark ps

unfoldable pub write_out : (ℕ → Bytes) → Placed → Rewritten
unfolding written
write_out mark (KnowledgeResult.err e) = KnowledgeResult.err e
write_out mark (KnowledgeResult.ok (ps, ordered)) = KnowledgeResult.ok (written mark ps, ordered)

-- The decimal text of a number is the standard library's.
unfoldable pub rewrite_sql_postgres : (ℕ → Bytes) → Bytes → List DataField → Rewritten
unfolding write_out place_postgres collect tokens
rewrite_sql_postgres decimal_text sql params =
    write_out (λ n. b'$' ∷ decimal_text n) (place_postgres (collect [] params) [] [] (tokens sql))

unfoldable pub rewrite_sql_mysql : Bytes → List DataField → Rewritten
unfolding write_out place_mysql collect tokens
rewrite_sql_mysql sql params =
    write_out (λ n. b'?' ∷ []) (place_mysql (collect [] params) [] (tokens sql))
