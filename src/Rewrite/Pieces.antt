-- ===== src/Rewrite/Pieces.antt =====
-- `src/postgres.rs`: the pieces of a rewritten query and their numbers.
use wp_knowledge.Base.{
  ℕ, zero, suc, ◌≡◌, refl, sym, subst, List, [], ◌∷◌, ◌++◌, some, arith, DataField, length,
  get_elem?,
}
use wp_knowledge.Runtime.Types.{KnowledgeResult}
use wp_knowledge.Runtime.Ask.{map_result}
use wp_knowledge.Rewrite.Place.{Piece, Placed, add_piece}
use wp_knowledge.Rewrite.Bind.{Slot, Filled, add_slot, bind_numbered, meaning}

pub get_elem?-append :
    (o p : List DataField) (i : ℕ) (f : DataField)
    → get_elem? o i ≡ some f
    → get_elem? (o ++ p) i ≡ some f
get_elem?-append [] p i f e = absurd (ground arith)
get_elem?-append (x ∷ o) p zero f e = e
get_elem?-append (x ∷ o) p (suc i) f e = get_elem?-append o p i f e

pub get_elem?-append_last :
    (o : List DataField) (f : DataField) → get_elem? (o ++ f ∷ []) (length o) ≡ some f
get_elem?-append_last [] f = refl
get_elem?-append_last (x ∷ o) f = get_elem?-append_last o f

pub add_piece_inv :
    (p : Piece) (r : Placed) (ps : List Piece) (o : List DataField)
    → add_piece p r ≡ KnowledgeResult.ok (ps, o)
    → (qs : List Piece) × (r ≡ KnowledgeResult.ok (qs, o))
unfolding add_piece
add_piece_inv p (KnowledgeResult.err e) ps o h = absurd (ground arith)
add_piece_inv p (KnowledgeResult.ok (qs, o')) ps o h = (qs, ground arith)

pub add-byte :
    (b : ℕ) (r : Placed) (s : Filled)
    → meaning bind_numbered r ≡ map_result some s
    → meaning bind_numbered (add_piece (Piece.byte b) r)
      ≡ map_result some (add_slot (Slot.text b) s)
unfolding meaning add_piece add_slot map_result
add-byte b (KnowledgeResult.err e) (KnowledgeResult.err e') h = h
add-byte b (KnowledgeResult.err e) (KnowledgeResult.ok ss) h = absurd (ground arith)
add-byte b (KnowledgeResult.ok (ps, o)) (KnowledgeResult.err e) h = absurd (ground arith)
add-byte b (KnowledgeResult.ok (ps, o)) (KnowledgeResult.ok ss) h =
    let q : bind_numbered o ps ≡ some ss = ground arith in unfold bind_numbered in ground arith

add-placeholder :
    (n : ℕ) (f : DataField) (r : Placed) (s : Filled)
    → ((ps : List Piece) (o : List DataField)
        → r ≡ KnowledgeResult.ok (ps, o)
        → get_elem? o n ≡ some f)
    → meaning bind_numbered r ≡ map_result some s
    → meaning bind_numbered (add_piece (Piece.placeholder (suc n)) r)
      ≡ map_result some (add_slot (Slot.value f) s)
unfolding meaning add_piece add_slot map_result
add-placeholder n f (KnowledgeResult.err e) (KnowledgeResult.err e') at h = h
add-placeholder n f (KnowledgeResult.err e) (KnowledgeResult.ok ss) at h = absurd (ground arith)
add-placeholder n f (KnowledgeResult.ok (ps, o)) (KnowledgeResult.err e) at h =
    absurd (ground arith)
add-placeholder n f (KnowledgeResult.ok (ps, o)) (KnowledgeResult.ok ss) at h =
    let q : bind_numbered o ps ≡ some ss = ground arith in
    let g = at ps o refl in unfold bind_numbered in ground arith

pub add-placeholder_at :
    (k n : ℕ) (f : DataField) (r : Placed) (s : Filled)
    → k ≡ suc n
    → ((ps : List Piece) (o : List DataField)
        → r ≡ KnowledgeResult.ok (ps, o)
        → get_elem? o n ≡ some f)
    → meaning bind_numbered r ≡ map_result some s
    → meaning bind_numbered (add_piece (Piece.placeholder k) r)
      ≡ map_result some (add_slot (Slot.value f) s)
add-placeholder_at k n f r s eq at h =
    subst
      (λ k.
        meaning bind_numbered (add_piece (Piece.placeholder k) r)
        ≡ map_result some (add_slot (Slot.value f) s))
      (sym eq) (add-placeholder n f r s at h)
