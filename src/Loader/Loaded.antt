-- ===== src/Loader/Loaded.antt =====
-- `src/loader.rs`: what the loading of a table leaves.
use wp_knowledge.Base.{
  ℕ, ◌≤◌, ◌≡◌, refl, sym, ap, subst, ◌∙◌, Bool, true, false, List, [], ◌++◌, append-nil, none, some,
  arith, Bytes, length,
}
use wp_knowledge.Runtime.Types.{KnowledgeError, KnowledgeResult}
use wp_knowledge.Loader.Config.{OptLoadSpec, CsvSpec, RowExpect, TableSpec}
use wp_knowledge.Loader.Rows.{Record, Sqlite, Loading, load_rows}
use wp_knowledge.Loader.Good.{good_rows, all_read, insert_all}
use wp_knowledge.Loader.Inserted.{load_rows-IsLoaded}
use wp_knowledge.Loader.Batches.{load_rows-IsBatched}
use wp_knowledge.Loader.Table.{
  Disk, Statements, statements, open_data, prepare_table, check_rows, load_data, load_prepared,
  load_one_table, join_rel,
}

unfoldable pub table_dir : Bytes → TableSpec → Bytes
unfolding join_rel
table_dir base_dir t = join_rel base_dir (elim t.dir [ none ↦ t.name | some dir ↦ dir ])

module _ {D : Type 0} (disk : Disk) (sqlite : Sqlite D) (base_dir : Bytes) (t : TableSpec)
    (csvd : CsvSpec) (load : OptLoadSpec) where
  -- A table that has been loaded: emptied, then filled with the rows of its file.
  pub record IsTable (d kept : D) : Type 0 where
    pub sql : Statements
    pub cols : List ℕ
    pub recs : List Record
    pub emptied : D
    pub has_sql : statements disk (table_dir base_dir t) t.name ≡ KnowledgeResult.ok sql
    pub is_emptied : prepare_table disk sqlite sql d ≡ (emptied, true)
    pub has_data : open_data disk (table_dir base_dir t) t csvd ≡ KnowledgeResult.ok (cols, recs)
    pub is_filled :
        insert_all sqlite sql.insert_sql (good_rows load.on_error cols recs) emptied ≡ (kept, true)
    pub is_read : all_read load.on_error cols recs ≡ true
    pub enough :
        (min : ℕ)
        → t.expected_rows.min ≡ some min
        → min ≤ length (good_rows load.on_error cols recs)

  check_rows_ok :
      (expected : RowExpect) (out : Loading D × Bool) (u : Unit {0})
      → (check_rows disk sqlite expected out).1 ≡ KnowledgeResult.ok u
      → (out.1 ≡ true)
        × ((check_rows disk sqlite expected out).0 ≡ out.0.kept)
        × ((min : ℕ) → expected.min ≡ some min → min ≤ out.0.inserted)
  unfolding check_rows
  check_rows_ok expected (s, false) u h = absurd (ground arith)
  check_rows_ok expected (s, true) u h = (refl, refl, λ min e. ground arith)

  prepared_step :
      (sql : Statements) (d : D) (cols : List ℕ) (recs : List Record)
      → open_data disk (table_dir base_dir t) t csvd ≡ KnowledgeResult.ok (cols, recs)
      → load_prepared disk sqlite (table_dir base_dir t) sql t csvd load (d, true)
        ≡ check_rows disk sqlite t.expected_rows (load_rows sqlite load sql.insert_sql cols recs d)
  unfolding load_prepared load_data
  prepared_step sql d cols recs e = ap (λ x. load_data disk sqlite sql t load x d) e

  load_prepared_ok :
      (sql : Statements) (d : D) (out : D × Bool) (u : Unit {0})
      → statements disk (table_dir base_dir t) t.name ≡ KnowledgeResult.ok sql
      → prepare_table disk sqlite sql d ≡ out
      → (load_prepared disk sqlite (table_dir base_dir t) sql t csvd load out).1
        ≡ KnowledgeResult.ok u
      → IsTable d (load_prepared disk sqlite (table_dir base_dir t) sql t csvd load out).0
  load_prepared_ok sql d (e, false) u f g h = absurd (unfold load_prepared in ground arith)
  load_prepared_ok sql d (e, true) u f g h = go (open_data disk (table_dir base_dir t) t csvd) refl
    where
      go :
          (found : KnowledgeResult (List ℕ × List Record))
          → open_data disk (table_dir base_dir t) t csvd ≡ found
          → IsTable d (load_prepared disk sqlite (table_dir base_dir t) sql t csvd load (e, true)).0
      go (KnowledgeResult.err x) k = absurd (unfold load_prepared load_data in ground arith)
      go (KnowledgeResult.ok (cols, recs)) k =
          let step = prepared_step sql e cols recs k in
          let out = load_rows sqlite load sql.insert_sql cols recs e in
          let (done, kept, min) =
            check_rows_ok t.expected_rows out u (sym (ap (λ p. p.1) step) ∙ h) in
          let loaded = load_rows-IsLoaded sqlite sql.insert_sql load cols recs e done in
          record {
            sql = sql;
            cols = cols;
            recs = recs;
            emptied = e;
            has_sql = f;
            is_emptied = g;
            has_data = k;
            is_filled = loaded.kept ∙ ap (λ x. (x, true)) (sym (ap (λ p. p.0) step ∙ kept));
            is_read = loaded.read;
            enough = λ m at. subst (λ n. m ≤ n) loaded.inserted (min m at);
          }

  -- If a table has been loaded, then its database is what its statements for creation and cleaning
  -- leave, with every row of its file that can be read inserted in its order, by transactions or
  -- without; no record is at fault, and the rows are as many as are expected at least.
  pub load_one_table-IsTable :
      (d : D) (u : Unit {0})
      → (load_one_table disk sqlite base_dir t csvd load d).1 ≡ KnowledgeResult.ok u
      → IsTable d (load_one_table disk sqlite base_dir t csvd load d).0
  load_one_table-IsTable d u h = go (statements disk (table_dir base_dir t) t.name) refl
    where
      go :
          (found : KnowledgeResult Statements)
          → statements disk (table_dir base_dir t) t.name ≡ found
          → IsTable d (load_one_table disk sqlite base_dir t csvd load d).0
      go (KnowledgeResult.err e) f = absurd (unfold load_one_table table_dir in ground arith)
      go (KnowledgeResult.ok sql) f =
          let step : load_one_table disk sqlite base_dir t csvd load d
              ≡ load_prepared disk sqlite (table_dir base_dir t) sql t csvd load
                  (prepare_table disk sqlite sql d) =
            unfold load_one_table table_dir in ground arith in
          subst (IsTable d) (sym (ap (λ p. p.0) step)) (
            load_prepared_ok sql d (prepare_table disk sqlite sql d) u f refl
              (sym (ap (λ p. p.1) step) ∙ h))

  -- The rows of the file that are to be stored; none if the file cannot be read.
  unfoldable pub rows_of : KnowledgeResult (List ℕ × List Record) → List (List Bytes)
  rows_of (KnowledgeResult.err e) = []
  rows_of (KnowledgeResult.ok (cols, recs)) = good_rows load.on_error cols recs

  -- What a table is left with after a loading of `rows` that failed: the first of them.
  pub record IsCut (rows : List (List Bytes)) (emptied kept : D) (sql : Statements) : Type 0 where
    pub stored : List (List Bytes)
    pub lost : List (List Bytes)
    pub parts : stored ++ lost ≡ rows
    pub is_stored : insert_all sqlite sql.insert_sql stored emptied ≡ (kept, true)

  kept-check_rows :
      (expected : RowExpect) (out : Loading D × Bool)
      → (check_rows disk sqlite expected out).0 ≡ out.0.kept
  unfolding check_rows
  kept-check_rows expected (s, false) = refl
  kept-check_rows expected (s, true) = refl

  load_data-IsCut :
      (sql : Statements) (d : D) (found : KnowledgeResult (List ℕ × List Record))
      (e : KnowledgeError)
      → load.transaction ≡ true
      → (load_data disk sqlite sql t load found d).1 ≡ KnowledgeResult.err e
      → IsCut (rows_of found) d (load_data disk sqlite sql t load found d).0 sql
  unfolding load_data rows_of
  load_data-IsCut sql d (KnowledgeResult.err x) e on h = record {
    stored = [];
    lost = [];
    parts = refl;
    is_stored = unfold insert_all in refl;
  }
  load_data-IsCut sql d (KnowledgeResult.ok (cols, recs)) e on h =
      go (load_rows sqlite load sql.insert_sql cols recs d) refl
    where
      go :
          (out : Loading D × Bool)
          → load_rows sqlite load sql.insert_sql cols recs d ≡ out
          → IsCut
              (good_rows load.on_error cols recs)
              d
              (check_rows disk sqlite t.expected_rows
                (load_rows sqlite load sql.insert_sql cols recs d)).0
              sql
      go (s, true) f =
          let kept =
            ap (λ x. (x, true))
              (sym (
                kept-check_rows t.expected_rows
                  (load_rows sqlite load sql.insert_sql cols recs d))) in
          let loaded =
            load_rows-IsLoaded sqlite sql.insert_sql load cols recs d (ap (λ p. p.1) f) in
          record {
            stored = good_rows load.on_error cols recs;
            lost = [];
            parts = append-nil (good_rows load.on_error cols recs);
            is_stored = loaded.kept ∙ kept;
          }
      go (s, false) f =
          let kept =
            ap (λ x. (x, true))
              (sym (
                kept-check_rows t.expected_rows
                  (load_rows sqlite load sql.insert_sql cols recs d))) in
          let batched =
            load_rows-IsBatched sqlite sql.insert_sql load cols recs d on (ap (λ p. p.1) f) in
          record {
            stored = batched.stored;
            lost = batched.lost;
            parts = batched.parts;
            is_stored = batched.is_kept ∙ kept;
          }

  -- If the statements of a table are found, the table is made and emptied, and the loading, in
  -- transactions, fails then for whatever reason, the database is the emptied one with the first of
  -- the rows of the file that can be read, inserted in their order: nothing that the emptying has
  -- removed comes back, and nothing else comes in. A file that cannot be opened has no rows.
  pub load_one_table-IsCut :
      (sql : Statements) (d emptied : D) (e : KnowledgeError)
      → load.transaction ≡ true
      → statements disk (table_dir base_dir t) t.name ≡ KnowledgeResult.ok sql
      → prepare_table disk sqlite sql d ≡ (emptied, true)
      → (load_one_table disk sqlite base_dir t csvd load d).1 ≡ KnowledgeResult.err e
      → IsCut
          (rows_of (open_data disk (table_dir base_dir t) t csvd))
          emptied
          (load_one_table disk sqlite base_dir t csvd load d).0
          sql
  load_one_table-IsCut sql d emptied e on f g h =
      let found = open_data disk (table_dir base_dir t) t csvd in
      let step : load_one_table disk sqlite base_dir t csvd load d
          ≡ load_data disk sqlite sql t load found emptied =
        unfold load_one_table load_prepared table_dir in ground arith in
      subst (λ k. IsCut (rows_of found) emptied k sql) (sym (ap (λ p. p.0) step))
        (load_data-IsCut sql emptied found e on (sym (ap (λ p. p.1) step) ∙ h))
