-- ===== src/Rewrite/Bound.antt =====
-- `src/postgres.rs`, `src/mysql.rs`: how the query that is meant goes with the tokens.
use wp_knowledge.Base.{ℕ, ◌≡◌, refl, List, ◌∷◌, Option, none, some, Bytes, DataField, find}
use wp_knowledge.Base.Model.{Bytes-discrete}
use wp_knowledge.Runtime.Types.{KnowledgeError, KnowledgeResult}
use wp_knowledge.Runtime.Ask.{map_result}
use wp_knowledge.Rewrite.Tokens.{Token}
use wp_knowledge.Rewrite.Place.{Fields, Piece, missing}
use wp_knowledge.Rewrite.Bind.{Slot, add_slot, bound, meaning}

pub meaning_err :
    (b : List DataField → List Piece → Option (List Slot)) (e : KnowledgeError)
    → meaning b (KnowledgeResult.err e) ≡ map_result some (KnowledgeResult.err e)
unfolding meaning map_result
meaning_err b e = refl

pub bound_byte :
    (driver : Bytes) (m : Fields) (b : ℕ) (ts : List Token)
    → bound driver m (Token.byte b ∷ ts) ≡ add_slot (Slot.text b) (bound driver m ts)
unfolding bound
bound_byte driver m b ts = refl

pub bound_param :
    (driver : Bytes) (m : Fields) (name : Bytes) (f : DataField) (ts : List Token)
    → find Bytes-discrete name m ≡ some f
    → bound driver m (Token.param name ∷ ts) ≡ add_slot (Slot.value f) (bound driver m ts)
unfolding bound
bound_param driver m name f ts e = rw (e, bound) refl

pub bound-missing :
    (driver : Bytes) (m : Fields) (name : Bytes) (ts : List Token)
    → find Bytes-discrete name m ≡ none
    → bound driver m (Token.param name ∷ ts) ≡ KnowledgeResult.err (missing driver name)
unfolding bound
bound-missing driver m name ts e = rw (e, bound) refl
