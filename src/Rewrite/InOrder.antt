-- ===== src/Rewrite/InOrder.antt =====
-- `src/mysql.rs`: the marks stand for the right values.
use wp_knowledge.Base.{
  ℕ, ◌≡◌, refl, sym, ap, ◌∙◌, List, [], ◌∷◌, ◌++◌, none, some, arith, inl, inr, Bytes, DataField,
  find, Option-cases,
}
use wp_knowledge.Base.Model.{Bytes-discrete}
use wp_knowledge.Base.Text.{codes}
use wp_knowledge.Runtime.Types.{KnowledgeError, KnowledgeResult}
use wp_knowledge.Runtime.Ask.{map_result}
use wp_knowledge.Rewrite.Tokens.{Token}
use wp_knowledge.Rewrite.Place.{Fields, Piece, Placed, add_piece, missing, place_mysql}
use wp_knowledge.Rewrite.Bind.{Slot, Filled, add_slot, bound, bind_in_order, meaning}
use wp_knowledge.Rewrite.Bound.{meaning_err, bound_byte, bound_param, bound-missing}

-- The result with values in front of its own.
prepend : List DataField → Placed → Placed
prepend o (KnowledgeResult.err e) = KnowledgeResult.err e
prepend o (KnowledgeResult.ok (ps, r)) = KnowledgeResult.ok (ps, o ++ r)

++-assoc : (a b c : List DataField) → (a ++ b) ++ c ≡ a ++ (b ++ c)
++-assoc [] b c = refl
++-assoc (x ∷ a) b c = ap (λ r. x ∷ r) (++-assoc a b c)

++-nil : (a : List DataField) → a ++ [] ≡ a
++-nil [] = refl
++-nil (x ∷ a) = ap (λ r. x ∷ r) (++-nil a)

prepend-prepend : (a b : List DataField) (r : Placed) → prepend (a ++ b) r ≡ prepend a (prepend b r)
unfolding prepend
prepend-prepend a b (KnowledgeResult.err e) = refl
prepend-prepend a b (KnowledgeResult.ok (ps, r)) =
    ap (λ o. KnowledgeResult.ok (ps, o)) (++-assoc a b r)

prepend-add_piece :
    (o : List DataField) (p : Piece) (r : Placed)
    → add_piece p (prepend o r) ≡ prepend o (add_piece p r)
unfolding prepend add_piece
prepend-add_piece o p (KnowledgeResult.err e) = refl
prepend-add_piece o p (KnowledgeResult.ok (ps, r)) = refl

prepend_err :
    (o : List DataField) (e : KnowledgeError)
    → KnowledgeResult.err e ≡ prepend o (KnowledgeResult.err e)
unfolding prepend
prepend_err o e = refl

module _ (m : Fields) where
  place_end : (o : List DataField) → place_mysql m o [] ≡ prepend o (place_mysql m [] [])
  unfolding place_mysql prepend
  place_end o = ap (λ r. KnowledgeResult.ok ([], r)) (sym (++-nil o))

  pub place_byte :
      (o : List DataField) (b : ℕ) (ts : List Token)
      → place_mysql m o (Token.byte b ∷ ts) ≡ add_piece (Piece.byte b) (place_mysql m o ts)
  unfolding place_mysql
  place_byte o b ts = refl

  pub place_missing :
      (o : List DataField) (name : Bytes) (ts : List Token)
      → find Bytes-discrete name m ≡ none
      → place_mysql m o (Token.param name ∷ ts) ≡ KnowledgeResult.err (missing (codes "mysql") name)
  unfolding place_mysql
  place_missing o name ts e = rw (e, place_mysql) refl

  pub place_found :
      (o : List DataField) (name : Bytes) (ts : List Token) (f : DataField)
      → find Bytes-discrete name m ≡ some f
      → place_mysql m o (Token.param name ∷ ts)
        ≡ add_piece (Piece.placeholder 0) (place_mysql m (o ++ f ∷ []) ts)
  unfolding place_mysql
  place_found o name ts f e = rw (e, place_mysql) refl

  place-prepend :
      (o : List DataField) (ts : List Token) → place_mysql m o ts ≡ prepend o (place_mysql m [] ts)
  place-prepend o [] = place_end o
  place-prepend o (Token.byte b ∷ ts) =
      place_byte o b ts
      ∙ ap (add_piece (Piece.byte b)) (place-prepend o ts)
      ∙ prepend-add_piece o (Piece.byte b) (place_mysql m [] ts)
      ∙ ap (prepend o) (sym (place_byte [] b ts))
  place-prepend o (Token.param name ∷ ts) = elim (Option-cases (find Bytes-discrete name m)) [
    | inl no_field ↦
        place_missing o name ts no_field
        ∙ prepend_err o (missing (codes "mysql") name)
        ∙ ap (prepend o) (sym (place_missing [] name ts no_field))
    | inr (f, field) ↦
        place_found o name ts f field
        ∙ ap (add_piece (Piece.placeholder 0)) (
            place-prepend (o ++ f ∷ []) ts
            ∙ prepend-prepend o (f ∷ []) (place_mysql m [] ts)
            ∙ ap (prepend o) (sym (place-prepend (f ∷ []) ts)))
        ∙ prepend-add_piece o (Piece.placeholder 0) (place_mysql m (f ∷ []) ts)
        ∙ ap (prepend o) (sym (place_found [] name ts f field))
  ]

bind-byte :
    (b : ℕ) (r : Placed) (s : Filled)
    → meaning bind_in_order r ≡ map_result some s
    → meaning bind_in_order (add_piece (Piece.byte b) r)
      ≡ map_result some (add_slot (Slot.text b) s)
unfolding meaning add_piece add_slot map_result
bind-byte b (KnowledgeResult.err e) (KnowledgeResult.err e') h = h
bind-byte b (KnowledgeResult.err e) (KnowledgeResult.ok ss) h = absurd (ground arith)
bind-byte b (KnowledgeResult.ok (ps, o)) (KnowledgeResult.err e) h = absurd (ground arith)
bind-byte b (KnowledgeResult.ok (ps, [])) (KnowledgeResult.ok ss) h =
    let q : bind_in_order [] ps ≡ some ss = ground arith in unfold bind_in_order in ground arith
bind-byte b (KnowledgeResult.ok (ps, f ∷ o)) (KnowledgeResult.ok ss) h =
    let q : bind_in_order (f ∷ o) ps ≡ some ss = ground arith in
    unfold bind_in_order in ground arith

bind-mark :
    (f : DataField) (r : Placed) (s : Filled)
    → meaning bind_in_order r ≡ map_result some s
    → meaning bind_in_order (add_piece (Piece.placeholder 0) (prepend (f ∷ []) r))
      ≡ map_result some (add_slot (Slot.value f) s)
unfolding meaning add_piece add_slot map_result prepend
bind-mark f (KnowledgeResult.err e) (KnowledgeResult.err e') h = h
bind-mark f (KnowledgeResult.err e) (KnowledgeResult.ok ss) h = absurd (ground arith)
bind-mark f (KnowledgeResult.ok (ps, o)) (KnowledgeResult.err e) h = absurd (ground arith)
bind-mark f (KnowledgeResult.ok (ps, o)) (KnowledgeResult.ok ss) h =
    let q : bind_in_order o ps ≡ some ss = ground arith in unfold bind_in_order in ground arith

bound_end :
    (m : Fields)
    → meaning bind_in_order (place_mysql m [] []) ≡ map_result some (bound (codes "mysql") m [])
unfolding meaning place_mysql bound map_result bind_in_order
bound_end m = refl

-- Before they are written, the pieces that are made for MySQL have as many placeholders as values, and
-- give with these in their order and each byte as itself the query that is meant, with each parameter's own field in its place; it fails with
-- the same error if a parameter is missing.
pub place_mysql-bound :
    (by_name : Fields) (ts : List Token)
    → meaning bind_in_order (place_mysql by_name [] ts)
      ≡ map_result some (bound (codes "mysql") by_name ts)
place_mysql-bound m [] = bound_end m
place_mysql-bound m (Token.byte b ∷ ts) =
    ap (meaning bind_in_order) (place_byte m [] b ts)
    ∙ bind-byte b (place_mysql m [] ts) (bound (codes "mysql") m ts) (place_mysql-bound m ts)
    ∙ ap (map_result some) (sym (bound_byte (codes "mysql") m b ts))
place_mysql-bound m (Token.param name ∷ ts) = elim (Option-cases (find Bytes-discrete name m)) [
  | inl no_field ↦
      ap (meaning bind_in_order) (place_missing m [] name ts no_field)
      ∙ meaning_err bind_in_order (missing (codes "mysql") name)
      ∙ ap (map_result some) (sym (bound-missing (codes "mysql") m name ts no_field))
  | inr (f, field) ↦
      ap (meaning bind_in_order) (
        place_found m [] name ts f field
        ∙ ap (add_piece (Piece.placeholder 0)) (place-prepend m (f ∷ []) ts))
      ∙ bind-mark f (place_mysql m [] ts) (bound (codes "mysql") m ts) (place_mysql-bound m ts)
      ∙ ap (map_result some) (sym (bound_param (codes "mysql") m name f ts field))
]
