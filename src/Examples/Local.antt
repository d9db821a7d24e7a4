-- ===== src/Examples/Local.antt =====
-- The theorems on `src/cache.rs` and `src/cache_util.rs` at concrete inputs.
use wp_knowledge.Base.{
  ℕ, ◌+◌, ◌≤◌, ◌≡◌, ◌≢◌, refl, List, [], ◌∷◌, none, some, ◌⊎◌, inr, arith, insert, ℕ_discrete,
}
use wp_knowledge.Base.Model.{ℤ, Value, Bytes-discrete, ℤ-discrete}
use wp_knowledge.Base.Text.{codes}
use wp_knowledge.Lru.{Lru}
use wp_knowledge.Lru.Bounded.{bounded}
use wp_knowledge.Cache.Fields.{
  FieldQueryCache, LocalCacheKey, max_local_idx, with_capacity, save_scoped, fetch_scoped, fetch,
  prepare_generation,
}
use wp_knowledge.Cache.Keys.{Key, key_of}
use wp_knowledge.Cache.Invariant.{keys_of, Holds}
use wp_knowledge.Cache.Save.{empty_memo}
use wp_knowledge.Cache.Scope.{LocalCacheKey-discrete, IsCurrent}
use wp_knowledge.Cache.Contract.{after_save, save_scoped-Holds, fetch_scoped-save_scoped}
use wp_knowledge.Cache.Generations.{prepare_generation_lem}
use wp_knowledge.Cache.History.{Op, no_history, history}
use wp_knowledge.Cache.Run.{run, IsWholeOp, new-Tracks, fetch_scoped-run}
use wp_knowledge.Cache.StaleHit.{refilled, wrong_hit}
use wp_knowledge.Cache.Query.{QueryResult}

unfoldable store : Lru LocalCacheKey (List ℕ)
unfolding bounded
store = bounded LocalCacheKey-discrete

abbrev new_cache : FieldQueryCache (Lru.Cache store)
new_cache = with_capacity store 10

abbrev params : List Value
params = Value.chars (codes "ab") ∷ Value.int (ℤ.negsuc 4) ∷ []

abbrev keys : List Key
keys = Key.str (codes "ab") ∷ Key.i64 (ℤ.negsuc 4) ∷ []

abbrev row : List ℕ
row = 1 ∷ 2 ∷ []

keys_lem : keys_of params ≡ some keys
unfolding keys_of key_of
keys_lem = refl

new-Holds : Holds store new_cache empty_memo
new-Holds = (new-Tracks store 10).holds

new_whole : (max_local_idx ≤ new_cache.idx_num) ⊎ (new_cache.idx_num + 2 ≤ max_local_idx)
unfolding with_capacity
new_whole = inr (omega arith)

abbrev ops : List (Op (List ℕ))
ops = Op.prepare 7 1 ∷ Op.save 7 params row ∷ []

fetch_scoped-run_example :
    (ks : List Key) × (keys_of params ≡ some ks) × ((history no_history ops).memo 7 ks ≡ some row)
unfolding run IsWholeOp save_scoped fetch_scoped store with_capacity prepare_generation insert
    Bytes-discrete ℕ_discrete ℤ-discrete LocalCacheKey-discrete
fetch_scoped-run_example =
    fetch_scoped-run store 10 ops 7 params row
      (tt, (((omega arith, omega arith), inr (omega arith)), tt)) refl

save_scoped-Holds_example :
    Holds store
      (save_scoped store new_cache 7 params row)
      (after_save store new_cache empty_memo 7 params row)
save_scoped-Holds_example =
    save_scoped-Holds store new_cache empty_memo 7 params row new-Holds (omega arith, omega arith)
      new_whole

fetch_scoped-save_scoped_example :
    fetch_scoped store (save_scoped store new_cache 7 params row) 7 params ≡ some row
fetch_scoped-save_scoped_example =
    fetch_scoped-save_scoped store new_cache empty_memo 7 params row keys new-Holds
      (omega arith, omega arith) new_whole keys_lem

prepare_generation_lem_example :
    let c = save_scoped store new_cache 7 params row in
    (IsCurrent store c 7 1 → prepare_generation store c 7 1 ≡ c)
    × (¬ (IsCurrent store c 7 1)
        → (ps : List Value) → fetch_scoped store (prepare_generation store c 7 1) 7 ps ≡ none)
    × ((s : ℕ) (ps : List Value)
        → s ≢ 7
        → fetch_scoped store (prepare_generation store c 7 1) s ps ≡ fetch_scoped store c s ps)
    × IsCurrent store (prepare_generation store c 7 1) 7 1
prepare_generation_lem_example =
    prepare_generation_lem store (save_scoped store new_cache 7 params row) 7 1

new_miss : fetch store new_cache params ≡ none
unfolding fetch store with_capacity
new_miss = refl

abbrev failed : QueryResult (List ℕ) ℕ
failed = QueryResult.err 3

wrong_hit_example :
    fetch_scoped store
      (refilled store 10 7 (codes "u") (codes "t") row [] 99_998)
      7
      (Value.big_uint 99_998 ∷ Value.chars (codes "t") ∷ [])
    ≡ some row
wrong_hit_example = wrong_hit store 10 7 (codes "u") (codes "t") row [] 99_998 (omega arith)
