-- ===== src/Cache/Tracked.antt =====
-- `src/cache.rs`: an operation of the local cache against the ideal one.
use wp_knowledge.Base.{
  ℕ, ◌≡◌, ◌≢◌, refl, sym, subst, ◌∙◌, List, [], ◌∷◌, Option, none, some, inl, inr, arith, find,
  insert, find-insert_self, find-insert_ne, Option-cases, Bool-cases, ℕ_discrete, leb,
}
use wp_knowledge.Base.Model.{Value}
use wp_knowledge.Lru.{Lru}
use wp_knowledge.Cache.Fields.{
  FieldQueryCache, EnumSizeIndex, LocalCacheKey, size_index, max_local_idx, reset, save_at,
  save_scoped, prepare_generation,
}
use wp_knowledge.Cache.Keys.{Key}
use wp_knowledge.Cache.Invariant.{keys_of, Memo, peek_at, IsValid, Holds}
use wp_knowledge.Cache.Save.{try_up_all-Indexed}
use wp_knowledge.Cache.Scope.{
  IsCurrent, prepare_generation-cases, prepare_tables, peek-prepare_ne, peek-prepare_self,
  index_all-tables,
}
use wp_knowledge.Cache.Contract.{
  IsWhole, IsArray, survivors, after_save, start, try_up_all-start, start-Holds, start-room,
  save_scoped_lem,
}
use wp_knowledge.Cache.History.{
  Op, History, note, note_prepare_same, note_prepare_other, note_prepare_self, set_memo-le,
}

module _ {T : Type 0} (L : Lru LocalCacheKey T) where
  open L use {Cache}

  pub record Tracks (c : FieldQueryCache Cache) (h : History T) : Type 0 where
    pub holds : Holds L c h.memo
    pub gens : (s g : ℕ) → IsCurrent L c s g → h.gens s ≡ some g

  -- A record that holds more is held, too.
  pub Holds-weaken :
      (c : FieldQueryCache Cache) (m m' : Memo T)
      → ((s : ℕ) (ks : List Key) (r : T) → m s ks ≡ some r → m' s ks ≡ some r)
      → Holds L c m
      → Holds L c m'
  Holds-weaken c m m' more h = record {
    valid = h.valid;
    agrees = λ s ks is ix r e f p. more s ks r (h.agrees s ks is ix r e f p);
  }

  survivors-le :
      (c : FieldQueryCache Cache) (m : Memo T) (s : ℕ) (ks : List Key) (r : T)
      → survivors L c m s ks ≡ some r
      → m s ks ≡ some r
  survivors-le c m s ks r e = elim (Bool-cases (leb max_local_idx c.idx_num)) [
    | inl f ↦ absurd (ground arith)
    | inr f ↦ ground arith
  ]

  pub note-save :
      (c : FieldQueryCache Cache) (h : History T) (s : ℕ) (params : List Value) (r : T) (s' : ℕ)
      (ks : List Key) (r' : T)
      → after_save L c h.memo s params r s' ks ≡ some r'
      → (note h (Op.save s params r)).memo s' ks ≡ some r'
  unfolding note
  note-save c h s params r s' ks r' e = elim (Option-cases (keys_of params)) [
    | inl f ↦ rw (f, note) (survivors-le c h.memo s' ks r' (rw (f, after_save) at e))
    | inr (qs, f) ↦
        rw (f, note)
          (set_memo-le (survivors L c h.memo) h.memo s qs r (survivors-le c h.memo) s' ks r'
            (rw (f, after_save) at e))
  ]

  prepare_idx_num :
      (c : FieldQueryCache Cache) (s g : ℕ) → (prepare_generation L c s g).idx_num ≡ c.idx_num
  prepare_idx_num c s g = elim (prepare_generation-cases L c s g) [
    | inl (_, e) ↦ rw e refl
    | inr (_, e) ↦ rw e refl
  ]

  -- In a new generation what is still there is of another scope, and was there before.
  peek-prepare :
      (c : FieldQueryCache Cache) (s g : ℕ) (new : ¬ (IsCurrent L c s g)) (s' : ℕ)
      (ix : EnumSizeIndex) (r : T)
      → peek_at L (prepare_generation L c s g) s' ix ≡ some r
      → (s' ≢ s) × (peek_at L c s' ix ≡ some r)
  peek-prepare c s g new s' ix r p = elim (ℕ_discrete s' s) [
    | yes e ↦
        let q : peek_at L (prepare_generation L c s g) s ix ≡ some r =
          subst (λ x. peek_at L (prepare_generation L c s g) x ix ≡ some r) e p in
        absurd (ground (arith, peek-prepare_self L c s g ix new))
    | no e ↦ (e, sym (peek-prepare_ne L c s g s' ix e) ∙ p)
  ]

  prepare-IsValid :
      (c : FieldQueryCache Cache) (s g : ℕ)
      → ¬ (IsCurrent L c s g)
      → IsValid L c
      → IsValid L (prepare_generation L c s g)
  prepare-IsValid c s g new v = record {
    bounded =
        λ k i e. rw (prepare_idx_num c s g) (v.bounded k i (sym (prepare_tables L c s g k) ∙ e));
    injective = λ k q i e f.
        v.injective k q i (sym (prepare_tables L c s g k) ∙ e) (sym (prepare_tables L c s g q) ∙ f);
    entries = λ s' ix r p.
        rw (prepare_idx_num c s g) (v.entries s' ix r (peek-prepare c s g new s' ix r p).1);
  }

  -- Announcing a generation leaves the numbers, and shows no more of the entries than before.
  pub prepare-Holds :
      (c : FieldQueryCache Cache) (h : History T) (s g : ℕ)
      → Tracks c h
      → Holds L (prepare_generation L c s g) (note h (Op.prepare s g)).memo
  prepare-Holds c h s g t = elim (prepare_generation-cases L c s g) [
    | inl (current, e) ↦ rw (e, note_prepare_same h s g (t.gens s g current)) t.holds
    | inr (new, _) ↦ record {
      valid = prepare-IsValid c s g new t.holds.valid;
      agrees = λ s' ks is ix r e f p.
          let (other, old) = peek-prepare c s g new s' ix r p in
          (note_prepare_other h s g s' ks other).0
          ∙ t.holds.agrees s' ks is ix r
              (sym (index_all-tables c _ (λ k. prepare_tables L c s g k) ks) ∙ e) f old;
    }
  ]

  save_at_gens :
      (c : FieldQueryCache Cache) (s : ℕ) (os : Option (List ℕ)) (r : T)
      → (save_at L c s os r).generations ≡ c.generations
  unfolding save_at
  save_at_gens c s none r = refl
  save_at_gens c s (some is) r = elim (Option-cases (size_index is)) [
    | inl e ↦ rw (e, save_at) refl
    | inr (ix, e) ↦ rw (e, save_at) refl
  ]

  pub save_gens :
      (c : FieldQueryCache Cache) (m : Memo T) (s : ℕ) (params : List Value) (r : T)
      → Holds L c m
      → IsArray L params
      → IsWhole L c params
      → (save_scoped L c s params r).generations ≡ (start L c).generations
  save_gens c m s [] r h a w = absurd (omega arith)
  save_gens c m s (v ∷ vs) r h a w =
      let ps = v ∷ vs in
      let (_, _, _, same) =
        try_up_all-Indexed L (start L c) (survivors L c m) ps (start-Holds L c m h)
          (start-room L c ps a w) in
      rw (save_scoped_lem L c s ps r, try_up_all-start L c v vs) (save_at_gens _ s _ r ∙ same)

  pub start_gens :
      (c : FieldQueryCache Cache) (s g : ℕ)
      → find ℕ_discrete s (start L c).generations ≡ some g
      → IsCurrent L c s g
  unfolding reset find
  start_gens c s g e = elim (Bool-cases (leb max_local_idx c.idx_num)) [
    | inl f ↦ absurd (ground arith)
    | inr f ↦ rw (f, start) at e
  ]

  pub prepare_gens :
      (c : FieldQueryCache Cache) (h : History T) (s g s' g' : ℕ)
      → Tracks c h
      → IsCurrent L (prepare_generation L c s g) s' g'
      → (note h (Op.prepare s g)).gens s' ≡ some g'
  prepare_gens c h s g s' g' t e = elim (prepare_generation-cases L c s g) [
    | inl (current, same) ↦
        rw (note_prepare_same h s g (t.gens s g current)) (t.gens s' g' (rw same at e))
    | inr (_, next) ↦
        let e' : find ℕ_discrete s' (insert ℕ_discrete s g c.generations) ≡ some g' =
          rw next at e in
        elim (ℕ_discrete s' s) [
          | yes f ↦
              ground (arith, note_prepare_self h s g, find-insert_self ℕ_discrete s g c.generations)
          | no f ↦
              (note_prepare_other h s g s' [] f).1
              ∙ t.gens s' g'
                  (sym (find-insert_ne ℕ_discrete s s' g c.generations (λ x. f (sym x))) ∙ e')
        ]
  ]
