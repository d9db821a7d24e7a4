-- ===== src/Redis/Names.antt =====
-- `src/redis.rs`: a dictionary after an insertion or a removal.
use wp_knowledge.Base.{
  ◌≡◌, ◌≢◌, refl, sym, ap, subst, ◌∙◌, ◌⊎◌, inl, inr, true, List, [], ◌∷◌, none, some, arith, ite,
  find, insert, find-insert_self, find-insert_ne, Bytes,
}
use wp_knowledge.Base.Model.{Bytes-discrete}
use wp_knowledge.Redis.{erase, has_value}

module _ {V : Type 0} where
  -- No key stands twice.
  unfoldable pub IsUnique : List (Bytes × V) → Type 0
  IsUnique [] = Unit {0}
  IsUnique ((k, v) ∷ m) = (find Bytes-discrete k m ≡ none) × IsUnique m

  pub find-erase_self :
      (k : Bytes) (m : List (Bytes × V)) → find Bytes-discrete k (erase k m) ≡ none
  unfolding find erase
  find-erase_self k [] = refl
  find-erase_self k ((j, v) ∷ m) = ground (arith, find-erase_self k m)

  pub find-erase_ne :
      (k q : Bytes) (m : List (Bytes × V))
      → k ≢ q
      → find Bytes-discrete q (erase k m) ≡ find Bytes-discrete q m
  unfolding find erase
  find-erase_ne k q [] h = refl
  find-erase_ne k q ((j, v) ∷ m) h = ground (arith, find-erase_ne k q m)

  find-erase-none :
      (k q : Bytes) (m : List (Bytes × V))
      → find Bytes-discrete q m ≡ none
      → find Bytes-discrete q (erase k m) ≡ none
  find-erase-none k q m e = elim (Bytes-discrete k q) [
    | yes same ↦ subst (λ x. find Bytes-discrete x (erase k m) ≡ none) same (find-erase_self k m)
    | no other ↦ find-erase_ne k q m other ∙ e
  ]

  pub erase-IsUnique : (k : Bytes) (m : List (Bytes × V)) → IsUnique m → IsUnique (erase k m)
  unfolding IsUnique erase
  erase-IsUnique k [] u = u
  erase-IsUnique k ((j, v) ∷ m) (e, u) =
      elim (Bytes-discrete k j) as (λ d. IsUnique (ite d (erase k m) ((j, v) ∷ erase k m))) [
        | yes same ↦ erase-IsUnique k m u
        | no other ↦ (find-erase-none k j m e, erase-IsUnique k m u)
      ]

  pub insert-IsUnique :
      (k : Bytes) (v : V) (m : List (Bytes × V))
      → IsUnique m
      → IsUnique (insert Bytes-discrete k v m)
  unfolding IsUnique insert find
  insert-IsUnique k v [] u = (refl, tt)
  insert-IsUnique k v ((j, w) ∷ m) (f, u) =
      elim (Bytes-discrete j k)
        as (λ d. IsUnique (ite d ((k, v) ∷ m) ((j, w) ∷ insert Bytes-discrete k v m))) [
          | yes same ↦ (subst (λ x. find Bytes-discrete x m ≡ none) same f, u)
          | no other ↦ (
            find-insert_ne Bytes-discrete k j v m (λ p. other (sym p)) ∙ f,
            insert-IsUnique k v m u,
          )
        ]

  pub find-insert-some :
      (k q : Bytes) (v u : V) (m : List (Bytes × V))
      → find Bytes-discrete q (insert Bytes-discrete k v m) ≡ some u
      → ((k ≡ q) × (v ≡ u)) ⊎ (find Bytes-discrete q m ≡ some u)
  find-insert-some k q v u m e = elim (Bytes-discrete k q) [
    | yes same ↦
        let now : find Bytes-discrete k (insert Bytes-discrete k v m) ≡ some u =
          ap (λ x. find Bytes-discrete x (insert Bytes-discrete k v m)) same ∙ e in
        inl (same, ground (arith, sym (find-insert_self Bytes-discrete k v m) ∙ now))
    | no other ↦ inr (sym (find-insert_ne Bytes-discrete k q v m other) ∙ e)
  ]

  pub find-erase-some :
      (k q : Bytes) (u : V) (m : List (Bytes × V))
      → find Bytes-discrete q (erase k m) ≡ some u
      → (k ≢ q) × (find Bytes-discrete q m ≡ some u)
  find-erase-some k q u m e = elim (Bytes-discrete k q) [
    | yes same ↦ absurd (
        ground
          (arith, sym (find-erase_self k m) ∙ ap (λ x. find Bytes-discrete x (erase k m)) same ∙ e))
    | no other ↦ (other, sym (find-erase_ne k q m other) ∙ e)
  ]

-- Some name has the URL, exactly when `any` says so.
pub find-has_value :
    (name url : Bytes) (m : List (Bytes × Bytes))
    → find Bytes-discrete name m ≡ some url
    → has_value url m ≡ true
unfolding find has_value
find-has_value name url [] e = ground arith
find-has_value name url ((n, u) ∷ m) e = ground (arith, find-has_value name url m)

pub has_value-find :
    (url : Bytes) (m : List (Bytes × Bytes))
    → IsUnique m
    → has_value url m ≡ true
    → (name : Bytes) × (find Bytes-discrete name m ≡ some url)
unfolding find has_value IsUnique
has_value-find url [] u e = absurd (ground arith)
has_value-find url ((n, w) ∷ m) (f, u) e = elim (Bytes-discrete w url) [
  | yes same ↦ (n, ground arith)
  | no other ↦
      let later : (name : Bytes) × (find Bytes-discrete name m ≡ some url) =
        has_value-find url m u (ground arith) in
      let apart : n ≢ later.0 =
        λ p. ground (arith, sym f ∙ ap (λ x. find Bytes-discrete x m) p ∙ later.1) in
      (later.0, ground arith)
]
