-- ===== src/Cache/Run.antt =====
-- `src/cache.rs`: a run of the local cache against the ideal one.
use wp_knowledge.Base.{
  ℕ, ◌≡◌, sym, ap, ◌∙◌, List, [], ◌∷◌, Option, some, arith, find, ℕ_discrete, max,
}
use wp_knowledge.Base.Model.{Value}
use wp_knowledge.Lru.{Lru}
use wp_knowledge.Cache.Fields.{
  FieldQueryCache, EnumSizeIndex, LocalCacheKey, with_capacity, save_scoped, fetch_scoped,
  prepare_generation,
}
use wp_knowledge.Cache.Keys.{Key, index_of}
use wp_knowledge.Cache.Invariant.{keys_of, peek_at}
use wp_knowledge.Cache.Contract.{IsWhole, IsArray, start, save_scoped-Holds, fetch_scoped_sound}
use wp_knowledge.Cache.History.{Op, History, no_history, note, history, note-save_gens}
use wp_knowledge.Cache.Tracked.{
  Tracks, Holds-weaken, note-save, prepare-Holds, save_gens, start_gens, prepare_gens,
}

module _ {T : Type 0} (L : Lru LocalCacheKey T) where
  open L use {Cache}

  unfoldable pub step : FieldQueryCache Cache → Op T → FieldQueryCache Cache
  step c (Op.prepare s g) = prepare_generation L c s g
  step c (Op.save s params r) = save_scoped L c s params r

  unfoldable pub run : FieldQueryCache Cache → List (Op T) → FieldQueryCache Cache
  unfolding step
  run c [] = c
  run c (op ∷ ops) = run (step c op) ops

  -- Every save of the run is of one to six parameters, and in one piece.
  unfoldable pub IsWholeOp : FieldQueryCache Cache → Op T → Type 0
  IsWholeOp c (Op.prepare s g) = Unit
  IsWholeOp c (Op.save s params r) = IsArray L params × IsWhole L c params

  abbrev pub IsWholeRun : FieldQueryCache Cache → List (Op T) → Type 0
  IsWholeRun c [] = Unit
  IsWholeRun c (op ∷ ops) = IsWholeOp c op × IsWholeRun (step c op) ops

  Tracks-step :
      (c : FieldQueryCache Cache) (h : History T) (op : Op T)
      → Tracks L c h
      → IsWholeOp c op
      → Tracks L (step c op) (note h op)
  unfolding step IsWholeOp
  Tracks-step c h (Op.prepare s g) t w = record {
    holds = prepare-Holds L c h s g t;
    gens = λ s' g' e. prepare_gens L c h s g s' g' t e;
  }
  Tracks-step c h (Op.save s params r) t w = record {
    holds =
        Holds-weaken L _ _ _ (note-save L c h s params r)
          (save_scoped-Holds L c h.memo s params r t.holds w.0 w.1);
    gens = λ s' g e.
        let e' : find ℕ_discrete s' (start L c).generations ≡ some g =
          ap (λ (l : List (ℕ × ℕ)). find ℕ_discrete s' l)
            (sym (save_gens L c h.memo s params r t.holds w.0 w.1))
          ∙ e in
        ap (λ (f : ℕ → Option ℕ). f s') (note-save_gens h s params r)
        ∙ t.gens s' g (start_gens L c s' g e');
  }

  run-Tracks :
      (c : FieldQueryCache Cache) (h : History T) (ops : List (Op T))
      → Tracks L c h
      → IsWholeRun c ops
      → Tracks L (run c ops) (history h ops)
  unfolding run history
  run-Tracks c h [] t w = t
  run-Tracks c h (op ∷ ops) t w =
      run-Tracks (step c op) (note h op) ops (Tracks-step c h op t w.0) w.1

  pub new-Tracks : (size : ℕ) → Tracks L (with_capacity L size) no_history
  unfolding with_capacity index_of find
  new-Tracks size = record {
    holds = record {
      valid = record {
        bounded = λ k i e. absurd (no_index k i e);
        injective = λ k q i e f. absurd (no_index k i e);
        entries = λ s ix r p. absurd (no_entry s ix r p);
      };
      agrees = λ s ks is ix r e f p. absurd (no_entry s ix r p);
    };
    gens = λ s g e. absurd (ground arith);
  }
    where
      no_index : (k : Key) (i : ℕ) → index_of (with_capacity L size) k ≡ some i → ⊥
      no_index (Key.str v) i h = cc
      no_index _ i h = cc

      no_entry :
          (s : ℕ) (ix : EnumSizeIndex) (r : T) → peek_at L (with_capacity L size) s ix ≡ some r → ⊥
      no_entry s ix r h = cc (L.peek-new (record { scope_hash = s; idxs = ix }) (max size 1))

  -- From a new cache of any capacity, after any run of saves and announcements whose saves are in one
  -- piece, a hit is the result that was last saved for this scope and these parameters since the
  -- scope's generation last changed.
  pub fetch_scoped-run :
      (size : ℕ) (ops : List (Op T)) (s : ℕ) (params : List Value) (r : T)
      → IsWholeRun (with_capacity L size) ops
      → fetch_scoped L (run (with_capacity L size) ops) s params ≡ some r
      → (ks : List Key) × (keys_of params ≡ some ks) × ((history no_history ops).memo s ks ≡ some r)
  fetch_scoped-run size ops s params r w hit =
      fetch_scoped_sound L _ _ s params r (run-Tracks _ _ ops (new-Tracks size) w).holds hit
