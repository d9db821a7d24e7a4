-- ===== src/Rewrite/Numbered.antt =====
-- `src/postgres.rs`: the numbered placeholders stand for the right values.
use wp_knowledge.Base.{
  ℕ, suc, ◌+◌, ◌≡◌, refl, sym, ap, subst, ◌∙◌, List, [], ◌∷◌, ◌++◌, none, some, arith, inl, inr,
  Bytes, DataField, length, get_elem?, find, insert, find-insert_self, find-insert_ne, Option-cases,
}
use wp_knowledge.Base.Model.{Bytes-discrete}
use wp_knowledge.Base.Text.{codes}
use wp_knowledge.Runtime.Types.{KnowledgeResult}
use wp_knowledge.Runtime.Ask.{map_result}
use wp_knowledge.Rewrite.Tokens.{Token}
use wp_knowledge.Rewrite.Place.{Fields, Piece, add_piece, missing, place_postgres}
use wp_knowledge.Rewrite.Bind.{bound, bind_numbered, meaning}
use wp_knowledge.Rewrite.Bound.{bound-missing, bound_byte, bound_param, meaning_err}
use wp_knowledge.Rewrite.Pieces.{
  add-byte, add-placeholder_at, add_piece_inv, get_elem?-append, get_elem?-append_last,
}

-- Every number that is assigned is that of a value, the one that its name stands for.
abbrev IsAssigned : Fields → List (Bytes × ℕ) → List DataField → Type 0
IsAssigned m a o =
    (name : Bytes) (k : ℕ)
    → find Bytes-discrete name a ≡ some k
    → (n : ℕ) × (f : DataField) × (k ≡ suc n)
      × (find Bytes-discrete name m ≡ some f)
      × (get_elem? o n ≡ some f)

module _ (m : Fields) where
  pub place_byte :
      (a : List (Bytes × ℕ)) (o : List DataField) (b : ℕ) (ts : List Token)
      → place_postgres m a o (Token.byte b ∷ ts)
        ≡ add_piece (Piece.byte b) (place_postgres m a o ts)
  unfolding place_postgres
  place_byte a o b ts = refl

  module _ (a : List (Bytes × ℕ)) (o : List DataField) (name : Bytes) (ts : List Token) where
    pub place_missing :
        find Bytes-discrete name m ≡ none
        → place_postgres m a o (Token.param name ∷ ts)
          ≡ KnowledgeResult.err (missing (codes "postgres") name)
    unfolding place_postgres
    place_missing e = rw (e, place_postgres) refl

    pub place_again :
        (f : DataField) (k : ℕ)
        → find Bytes-discrete name m ≡ some f
        → find Bytes-discrete name a ≡ some k
        → place_postgres m a o (Token.param name ∷ ts)
          ≡ add_piece (Piece.placeholder k) (place_postgres m a o ts)
    unfolding place_postgres
    place_again f k e g = rw (e, g, place_postgres) refl

    pub place_new :
        (f : DataField)
        → find Bytes-discrete name m ≡ some f
        → find Bytes-discrete name a ≡ none
        → place_postgres m a o (Token.param name ∷ ts)
          ≡ add_piece
              (Piece.placeholder (length o + 1))
              (place_postgres m (insert Bytes-discrete name (length o + 1) a) (o ++ f ∷ []) ts)
    unfolding place_postgres
    place_new f e g = rw (e, g, place_postgres) refl

  -- Values that are assigned stay in their places.
  place-kept :
      (a : List (Bytes × ℕ)) (o : List DataField) (ts : List Token) (ps : List Piece)
      (o' : List DataField) (i : ℕ) (f : DataField)
      → place_postgres m a o ts ≡ KnowledgeResult.ok (ps, o')
      → get_elem? o i ≡ some f
      → get_elem? o' i ≡ some f
  place-kept a o [] ps o' i f e g = unfold place_postgres in ground arith
  place-kept a o (Token.byte b ∷ ts) ps o' i f e g =
      let (qs, r) = add_piece_inv _ _ ps o' (sym (place_byte a o b ts) ∙ e) in
      place-kept a o ts qs o' i f r g
  place-kept a o (Token.param name ∷ ts) ps o' i f e g =
      elim (Option-cases (find Bytes-discrete name m)) [
        | inl no_field ↦ absurd (ground (arith, place_missing a o name ts no_field))
        | inr (h, field) ↦ elim (Option-cases (find Bytes-discrete name a)) [
          | inr (k, old) ↦
              let (qs, r) =
                add_piece_inv _ _ ps o' (sym (place_again a o name ts h k field old) ∙ e) in
              place-kept a o ts qs o' i f r g
          | inl new ↦
              let (qs, r) = add_piece_inv _ _ ps o' (sym (place_new a o name ts h field new) ∙ e) in
              place-kept (insert Bytes-discrete name (length o + 1) a) (o ++ h ∷ []) ts qs o' i f r
                (get_elem?-append o (h ∷ []) i f g)
        ]
      ]

IsAssigned-insert :
    (m : Fields) (a : List (Bytes × ℕ)) (o : List DataField) (name : Bytes) (f : DataField)
    → IsAssigned m a o
    → find Bytes-discrete name m ≡ some f
    → IsAssigned m (insert Bytes-discrete name (length o + 1) a) (o ++ f ∷ [])
IsAssigned-insert m a o name f is e other k found = elim (Bytes-discrete other name) [
  | yes same ↦
      let at = find-insert_self Bytes-discrete name (length o + 1) a in
      let found' =
        subst (λ x. find Bytes-discrete x (insert Bytes-discrete name (length o + 1) a) ≡ some k)
          same found in
      let e' = subst (λ x. find Bytes-discrete x m ≡ some f) (sym same) e in
      (length o, f, ground arith, e', get_elem?-append_last o f)
  | no other_name ↦
      let at =
        find-insert_ne Bytes-discrete name other (length o + 1) a (λ same. other_name (sym same)) in
      let (n, g, eq, e', g') = is other k (sym at ∙ found) in
      (n, g, eq, e', get_elem?-append o (f ∷ []) n g g')
]

bound_end :
    (m : Fields) (a : List (Bytes × ℕ)) (o : List DataField)
    → meaning bind_numbered (place_postgres m a o [])
      ≡ map_result some (bound (codes "postgres") m [])
unfolding meaning place_postgres bound map_result bind_numbered
bound_end m a o = refl

module _ (m : Fields) where
  place-bound :
      (a : List (Bytes × ℕ)) (o : List DataField) (ts : List Token)
      → IsAssigned m a o
      → meaning bind_numbered (place_postgres m a o ts)
        ≡ map_result some (bound (codes "postgres") m ts)
  place-bound a o [] is = bound_end m a o
  place-bound a o (Token.byte b ∷ ts) is =
      ap (meaning bind_numbered) (place_byte m a o b ts)
      ∙ add-byte b _ (bound (codes "postgres") m ts) (place-bound a o ts is)
      ∙ ap (map_result some) (sym (bound_byte (codes "postgres") m b ts))
  place-bound a o (Token.param name ∷ ts) is = elim (Option-cases (find Bytes-discrete name m)) [
    | inl no_field ↦
        ap (meaning bind_numbered) (place_missing m a o name ts no_field)
        ∙ meaning_err bind_numbered (missing (codes "postgres") name)
        ∙ ap (map_result some) (sym (bound-missing (codes "postgres") m name ts no_field))
    | inr (f, field) ↦ elim (Option-cases (find Bytes-discrete name a)) [
      | inr (k, old) ↦
          let (n, f, eq, field, at) = is name k old in
          ap (meaning bind_numbered) (place_again m a o name ts f k field old)
          ∙ add-placeholder_at k n f (place_postgres m a o ts) (bound (codes "postgres") m ts) eq
              (λ ps o' e. place-kept m a o ts ps o' n f e at) (place-bound a o ts is)
          ∙ ap (map_result some) (sym (bound_param (codes "postgres") m name f ts field))
      | inl new ↦
          ap (meaning bind_numbered) (place_new m a o name ts f field new)
          ∙ add-placeholder_at (length o + 1) (length o) f
              (place_postgres m (insert Bytes-discrete name (length o + 1) a) (o ++ f ∷ []) ts)
              (bound (codes "postgres") m ts) (omega arith)
              (λ ps o' e.
                place-kept m (insert Bytes-discrete name (length o + 1) a) (o ++ f ∷ []) ts ps o'
                  (length o) f e (get_elem?-append_last o f))
              (place-bound (insert Bytes-discrete name (length o + 1) a) (o ++ f ∷ []) ts
                (IsAssigned-insert m a o name f is field))
          ∙ ap (map_result some) (sym (bound_param (codes "postgres") m name f ts field))
    ]
  ]

-- Before they are written, the pieces that are made for Postgres give, with the values bound to their
-- numbers and each byte as itself, the query that is meant, with each parameter's own field in its place, also where a name comes up again; it fails with the
-- same error if a parameter is missing.
pub place_postgres-bound :
    (by_name : Fields) (ts : List Token)
    → meaning bind_numbered (place_postgres by_name [] [] ts)
      ≡ map_result some (bound (codes "postgres") by_name ts)
unfolding find
place_postgres-bound by_name ts = place-bound by_name [] [] ts none_assigned
  where
    none_assigned : IsAssigned by_name [] []
    none_assigned name k e = absurd (ground arith)
