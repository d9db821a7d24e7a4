-- ===== src/Rewrite/Bind.antt =====
-- `src/postgres.rs`, `src/mysql.rs`: the values that a driver binds to the placeholders of a rewritten
-- query.
use wp_knowledge.Base.{
  ℕ, zero, suc, List, [], ◌∷◌, Option, none, some, Bytes, DataField, get_elem?, find,
}
use wp_knowledge.Base.Model.{Bytes-discrete}
use wp_knowledge.Runtime.Types.{KnowledgeResult}
use wp_knowledge.Rewrite.Tokens.{Token}
use wp_knowledge.Rewrite.Place.{Fields, Piece, Placed, missing}

-- A query with the values in it.
pub data Slot : Type 0 where
  text : ℕ → Slot
  value : DataField → Slot

abbrev pub Filled : Type 0
Filled = KnowledgeResult (List Slot)

unfoldable pub add_slot : Slot → Filled → Filled
add_slot s (KnowledgeResult.err e) = KnowledgeResult.err e
add_slot s (KnowledgeResult.ok ss) = KnowledgeResult.ok (s ∷ ss)

-- The query that is meant: each name is replaced by its field.
unfoldable pub bound : Bytes → Fields → List Token → Filled
unfolding add_slot
bound driver by_name [] = KnowledgeResult.ok []
bound driver by_name (Token.byte b ∷ ts) = add_slot (Slot.text b) (bound driver by_name ts)
bound driver by_name (Token.param name ∷ ts) = elim (find Bytes-discrete name by_name) [
  | none ↦ KnowledgeResult.err (missing driver name)
  | some field ↦ add_slot (Slot.value field) (bound driver by_name ts)
]

abbrev pub cons_slot : Option DataField → Option (List Slot) → Option (List Slot)
cons_slot none ss = none
cons_slot (some f) none = none
cons_slot (some f) (some ss) = some (Slot.value f ∷ ss)

-- The pieces before they are written, with the `n`-th value for the placeholder `n`; what the server
-- makes of the text that is written is in Rewrite/Sent.
unfoldable pub bind_numbered : List DataField → List Piece → Option (List Slot)
bind_numbered ordered [] = some []
bind_numbered ordered (Piece.byte b ∷ ps) = elim (bind_numbered ordered ps) [
  | none ↦ none
  | some ss ↦ some (Slot.text b ∷ ss)
]
bind_numbered ordered (Piece.placeholder zero ∷ ps) = none
bind_numbered ordered (Piece.placeholder (suc n) ∷ ps) =
    cons_slot (get_elem? ordered n) (bind_numbered ordered ps)

-- The pieces before they are written, with the values for the placeholders in order, as many as there
-- are placeholders.
unfoldable pub bind_in_order : List DataField → List Piece → Option (List Slot)
bind_in_order [] [] = some []
bind_in_order (f ∷ ordered) [] = none
bind_in_order ordered (Piece.byte b ∷ ps) = elim (bind_in_order ordered ps) [
  | none ↦ none
  | some ss ↦ some (Slot.text b ∷ ss)
]
bind_in_order [] (Piece.placeholder n ∷ ps) = none
bind_in_order (f ∷ ordered) (Piece.placeholder n ∷ ps) =
    cons_slot (some f) (bind_in_order ordered ps)

unfoldable pub meaning :
    (List DataField → List Piece → Option (List Slot))
    → Placed
    → KnowledgeResult (Option (List Slot))
meaning bind (KnowledgeResult.err e) = KnowledgeResult.err e
meaning bind (KnowledgeResult.ok (ps, ordered)) = KnowledgeResult.ok (bind ordered ps)
