-- ===== src/Loader/Good.antt =====
-- `src/loader.rs`: the rows of the records that can be read, and what their insertion leaves.
use wp_knowledge.Base.{
  ℕ, ◌≡◌, refl, Bool, true, false, ◌&&◌, List, [], ◌∷◌, ◌++◌, arith, Bytes, Bool-cases, inl, inr,
}
use wp_knowledge.Loader.Config.{OnError}
use wp_knowledge.Loader.Rows.{Record, Extracted, extracted, Sqlite}

-- The rows that the loop comes to, and whether it comes to the end.
unfoldable pub add_good : Extracted → List (List Bytes) → List (List Bytes)
add_good (Extracted.row r) rows = r ∷ rows
add_good Extracted.skipped rows = rows
add_good Extracted.failed rows = []

unfoldable pub good_rows : OnError → List ℕ → List Record → List (List Bytes)
unfolding add_good
good_rows on_error cols [] = []
good_rows on_error cols (rec ∷ recs) =
    add_good (extracted on_error cols rec) (good_rows on_error cols recs)

unfoldable pub is_read : Extracted → Bool
is_read Extracted.failed = false
is_read _ = true

pub add_good-append :
    (x : Extracted) (rows : List (List Bytes))
    → is_read x ≡ true
    → add_good x [] ++ rows ≡ add_good x rows
unfolding add_good is_read
add_good-append (Extracted.row r) rows h = refl
add_good-append Extracted.skipped rows h = refl
add_good-append Extracted.failed rows h = absurd (ground arith)

unfoldable pub all_read : OnError → List ℕ → List Record → Bool
unfolding is_read
all_read on_error cols [] = true
all_read on_error cols (rec ∷ recs) =
    is_read (extracted on_error cols rec) && all_read on_error cols recs

module _ {D : Type 0} (sqlite : Sqlite D) (insert_sql : Bytes) where
  -- The rows are inserted one after the other, with no transaction, up to the first that fails.
  unfoldable pub insert_all : List (List Bytes) → D → D × Bool
  insert_all [] d = (d, true)
  insert_all (r ∷ rows) d =
      let (d', ok) = sqlite.execute insert_sql r d in
      let rest = insert_all rows d' in elim ok [ true ↦ rest | false ↦ (d', false) ]

  pub insert_all-append :
      (rows more : List (List Bytes)) (d d' : D)
      → insert_all rows d ≡ (d', true)
      → insert_all (rows ++ more) d ≡ insert_all more d'
  unfolding insert_all
  insert_all-append [] more d d' e = ground arith
  insert_all-append (r ∷ rows) more d d' e =
      let (d'', ok) = sqlite.execute insert_sql r d in
      elim (Bool-cases ok) [
        | inl yes' ↦ ground (arith, insert_all-append rows more d'' d')
        | inr no' ↦ absurd (ground arith)
      ]
