-- ===== src/Cache/History.antt =====
-- `src/cache.rs`: the ideal cache, a record of all that was saved.
use wp_knowledge.Base.{
  ℕ, ◌≡◌, ◌≢◌, refl, sym, List, [], ◌∷◌, Option, none, some, inl, inr, arith, Option-cases,
  ℕ_discrete, ite, if_pos, if_neg,
}
use wp_knowledge.Base.Model.{Value}
use wp_knowledge.Cache.Keys.{Key}
use wp_knowledge.Cache.Invariant.{keys_of, Memo}
use wp_knowledge.Cache.Save.{empty_memo, set_memo}

pub data Op (T : Type 0) : Type 0 where
  prepare : ℕ → ℕ → Op T
  save : ℕ → List Value → T → Op T

-- An ideal cache: it evicts nothing, and is never reset.
pub record History (T : Type 0) : Type 0 where
  pub memo : Memo T
  pub gens : ℕ → Option ℕ

unfoldable pub Gen-discrete : Discrete (Option ℕ)
Gen-discrete = hlevel ℕ_discrete

module _ {T : Type 0} where
  abbrev pub no_history : History T
  no_history = record { memo = empty_memo; gens = λ s. none }

  abbrev pub next_history : History T → ℕ → ℕ → History T
  next_history h s g = record {
    memo = λ s' ks. ite (ℕ_discrete s' s) none (h.memo s' ks);
    gens = λ s'. ite (ℕ_discrete s s') (some g) (h.gens s');
  }

  unfoldable pub note : History T → Op T → History T
  note h (Op.prepare s g) = ite (Gen-discrete (h.gens s) (some g)) h (next_history h s g)
  note h (Op.save s params r) = elim (keys_of params) [
    | none ↦ h
    | some ks ↦ record h { memo = set_memo h.memo s ks r }
  ]

  unfoldable pub history : History T → List (Op T) → History T
  unfolding note
  history h [] = h
  history h (op ∷ ops) = history (note h op) ops

module _ {T : Type 0} where
  pub note_prepare_same :
      (h : History T) (s g : ℕ) → h.gens s ≡ some g → note h (Op.prepare s g) ≡ h
  unfolding note
  note_prepare_same h s g e = if_pos (Gen-discrete (h.gens s) (some g)) e _ _

  pub note_prepare_next :
      (h : History T) (s g : ℕ)
      → ¬ (h.gens s ≡ some g)
      → note h (Op.prepare s g) ≡ next_history h s g
  unfolding note
  note_prepare_next h s g e = if_neg (Gen-discrete (h.gens s) (some g)) e _ _

  pub note_prepare_other :
      (h : History T) (s g s' : ℕ) (ks : List Key)
      → s' ≢ s
      → ((note h (Op.prepare s g)).memo s' ks ≡ h.memo s' ks)
        × ((note h (Op.prepare s g)).gens s' ≡ h.gens s')
  note_prepare_other h s g s' ks n = elim (Gen-discrete (h.gens s) (some g)) [
    | yes e ↦ rw (note_prepare_same h s g e) (refl, refl)
    | no e ↦
        rw (note_prepare_next h s g e)
          (if_neg (ℕ_discrete s' s) n _ _, if_neg (ℕ_discrete s s') (λ f. n (sym f)) _ _)
  ]

  pub note_prepare_self : (h : History T) (s g : ℕ) → (note h (Op.prepare s g)).gens s ≡ some g
  note_prepare_self h s g = elim (Gen-discrete (h.gens s) (some g)) [
    | yes e ↦ rw (note_prepare_same h s g e) e
    | no e ↦ rw (note_prepare_next h s g e) (if_pos (ℕ_discrete s s) refl _ _)
  ]

  pub note-save_gens :
      (h : History T) (s : ℕ) (params : List Value) (r : T)
      → (note h (Op.save s params r)).gens ≡ h.gens
  unfolding note
  note-save_gens h s params r = elim (Option-cases (keys_of params)) [
    | inl e ↦ rw (e, note) refl
    | inr (ks, e) ↦ rw (e, note) refl
  ]

  pub set_memo-le :
      (m m' : Memo T) (s : ℕ) (qs : List Key) (r : T)
      → ((s : ℕ) (ks : List Key) (r : T) → m s ks ≡ some r → m' s ks ≡ some r)
      → (s' : ℕ) (ks : List Key) (r' : T) → set_memo m s qs r s' ks ≡ some r'
      → set_memo m' s qs r s' ks ≡ some r'
  unfolding set_memo
  set_memo-le m m' s qs r le s' ks r' e = ground (arith, le s' ks r')
