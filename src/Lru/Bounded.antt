-- ===== src/Lru/Bounded.antt =====
-- A cache that meets the interface of `LruCache`: the last entries written, at most `cap` of them
-- and at least one. `peek` does not count as a use, so this is the crate's order of eviction for a
-- program that only peeks.
use wp_knowledge.Base.{
  ℕ, zero, suc, ◌-◌, ◌≡◌, ◌≢◌, refl, sym, subst, ◌∙◌, List, [], ◌∷◌, map, none, some, ◌⊎◌, inl, inr,
  arith, ite, if_pos, if_neg, find, take,
}
use wp_knowledge.Lru.{Lru, Member, here, there}

-- `size` is the capacity less one.
pub record Entries (K V : Type 0) : Type 0 where
  pub size : ℕ
  pub items : List (K × V)

module _ {K V : Type 0} (dec : Discrete K) where
  unfoldable pub remove : K → List (K × V) → List (K × V)
  remove k [] = []
  remove k ((j, v) ∷ l) = ite (dec j k) (remove k l) ((j, v) ∷ remove k l)

  pub find-remove_self : (k : K) (l : List (K × V)) → find dec k (remove k l) ≡ none
  unfolding find remove
  find-remove_self k [] = refl
  find-remove_self k ((j, v) ∷ l) = ground (arith, find-remove_self k l)

  pub find-remove_ne : (k q : K) (l : List (K × V)) → k ≢ q → find dec q (remove k l) ≡ find dec q l
  unfolding find remove
  find-remove_ne k q [] h = refl
  find-remove_ne k q ((j, v) ∷ l) h = ground (arith, find-remove_ne k q l)

  find-take :
      (q : K) (n : ℕ) (l : List (K × V))
      → (find dec q (take n l) ≡ find dec q l) ⊎ (find dec q (take n l) ≡ none)
  unfolding find
  find-take q zero l = inr refl
  find-take q (suc n) [] = inl refl
  find-take q (suc n) ((j, v) ∷ l) = elim (dec j q) [
    | yes e ↦ inl (if_pos (dec j q) e _ _ ∙ sym (if_pos (dec j q) e _ _))
    | no e ↦ elim (find-take q n l) [
      | inl f ↦ inl (if_neg (dec j q) e _ _ ∙ f ∙ sym (if_neg (dec j q) e _ _))
      | inr f ↦ inr (if_neg (dec j q) e _ _ ∙ f)
    ]
  ]

  pub mem-find :
      (k : K) (v : V) (l : List (K × V)) → find dec k l ≡ some v → Member k (map (λ e. e.0) l)
  unfolding find
  mem-find k v [] h = absurd (ground arith)
  mem-find k v ((j, w) ∷ l) h = elim (dec j k) [
    | yes e ↦ subst (λ x. Member x (j ∷ map (λ e. e.0) l)) e here
    | no e ↦ there (mem-find k v l (sym (if_neg (dec j k) e _ _) ∙ h))
  ]

  unfoldable pub put_bounded : K → V → Entries K V → Entries K V
  unfolding remove
  put_bounded k v c = record c { items = take (suc c.size) ((k, v) ∷ remove k c.items) }

  pub put_self : (k : K) (v : V) (c : Entries K V) → find dec k (put_bounded k v c).items ≡ some v
  unfolding put_bounded find
  put_self k v c = if_pos (dec k k) refl _ _

  pub put_ne :
      (k q : K) (v : V) (c : Entries K V)
      → k ≢ q
      → (find dec q (put_bounded k v c).items ≡ find dec q c.items)
        ⊎ (find dec q (put_bounded k v c).items ≡ none)
  unfolding put_bounded
  put_ne k q v c h = elim (find-take q (suc c.size) ((k, v) ∷ remove k c.items)) [
    | inr gone ↦ inr gone
    | inl kept ↦ inl (kept ∙ first ∙ find-remove_ne k q c.items h)
  ]
    where
      first : find dec q ((k, v) ∷ remove k c.items) ≡ find dec q (remove k c.items)
      first = unfold find in if_neg (dec k q) h _ _

  unfoldable pub bounded : Lru K V
  unfolding put_bounded find
  bounded = record {
    Cache = Entries K V;
    new = λ n. record { size = n - 1; items = [] };
    peek = λ k c. find dec k c.items;
    put = put_bounded;
    pop = λ k c. record c { items = remove k c.items };
    clear = λ c. record c { items = [] };
    keys = λ c. map (λ e. e.0) c.items;
    peek-new = λ k n. refl;
    peek-put_self = put_self;
    peek-put_ne = put_ne;
    peek-pop_self = λ k c. find-remove_self k c.items;
    peek-pop_ne = λ k q c h. find-remove_ne k q c.items h;
    peek-clear = λ k c. refl;
    mem-keys = λ k v c h. mem-find k v c.items h;
  }
