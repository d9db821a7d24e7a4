-- ===== src/Loader/Batch.antt =====
-- `src/loader.rs`: a row that is inserted into its batch.
use wp_knowledge.Base.{
  ℕ, suc, ◌+◌, ◌-◌, ◌*◌, ◌≤◌, ◌≡◌, refl, sym, ap, subst, ◌∙◌, Bool, true, false, List, [], ◌∷◌,
  ◌++◌, append_assoc, arith, ◌==◌, Bytes, length, length-append, max, Bool-cases, inl, inr,
}
use wp_knowledge.Loader.Config.{OptLoadSpec}
use wp_knowledge.Loader.Rows.{
  Extracted, Sqlite, Loading, next_batch, count_row, after_execute, load_record,
}
use wp_knowledge.Loader.Good.{insert_all, insert_all-append}

module _ {D : Type 0} (sqlite : Sqlite D) (insert_sql : Bytes) (load : OptLoadSpec) where
  abbrev pub size : ℕ
  size = max load.batch_size 1

  -- The rows that wait for the end of their batch.
  pub record Pending (s : Loading D) (rows : List (List Bytes)) : Type 0 where
    pub work : insert_all sqlite insert_sql rows s.kept ≡ (s.work, true)
    pub left : s.batch_left + length rows ≡ size
    pub some_left : 1 ≤ s.batch_left

  -- What is kept is what whole batches of the rows leave.
  pub record IsBatched (rows : List (List Bytes)) (d kept : D) : Type 0 where
    pub batches : ℕ
    pub stored : List (List Bytes)
    pub lost : List (List Bytes)
    pub parts : stored ++ lost ≡ rows
    pub whole : length stored ≡ batches * size
    pub is_kept : insert_all sqlite insert_sql stored d ≡ (kept, true)

  -- The outcomes of the insertion of a row.
  pub data Inserted (s : Loading D) (rows : List (List Bytes)) (out : Loading D × Bool)
      : Type 0 where
    halted : out.1 ≡ false → out.0.kept ≡ s.kept → Inserted s rows out
    waiting : out.0.kept ≡ s.kept → Pending out.0 rows → Inserted s rows out
    closed :
        insert_all sqlite insert_sql rows s.kept ≡ (out.0.kept, true)
        → length rows ≡ size
        → Pending out.0 []
        → Inserted s rows out

  pub nothing : (rows : List (List Bytes)) (d kept : D) → kept ≡ d → IsBatched rows d kept
  unfolding insert_all
  nothing rows d kept e = record {
    batches = 0;
    stored = [];
    lost = rows;
    parts = refl;
    whole = omega arith;
    is_kept = ground arith;
  }

  next_batch_lem :
      (s t : Loading D) (rows : List (List Bytes))
      → t.kept ≡ s.kept
      → insert_all sqlite insert_sql rows s.kept ≡ (t.work, true)
      → length rows ≡ size
      → Inserted s rows (next_batch sqlite load insert_sql t)
  unfolding next_batch insert_all
  next_batch_lem s t rows e f n = elim (Bool-cases (sqlite.commit t.work)) [
    | inl kept ↦
        Inserted.closed (ground arith) n
          (record { work = ground arith; left = ground arith; some_left = ground arith })
    | inr lost ↦ Inserted.halted (ground arith) (ground arith)
  ]

  count_row_lem :
      (s t : Loading D) (rows : List (List Bytes))
      → load.transaction ≡ true
      → t.kept ≡ s.kept
      → insert_all sqlite insert_sql rows s.kept ≡ (t.work, true)
      → t.batch_left + length rows ≡ size + 1
      → 1 ≤ t.batch_left
      → Inserted s rows (count_row sqlite load insert_sql t)
  unfolding count_row
  count_row_lem s t rows on e f n l =
      let left : Loading D = record t {
        inserted = t.inserted + 1;
        batch_left = t.batch_left - 1;
      } in
      elim (Bool-cases (t.batch_left - 1 == 0)) [
        | inl full ↦
            subst (Inserted s rows) (ground arith) (next_batch_lem s left rows e f (ground arith))
        | inr more ↦ subst (Inserted s rows) {x = (left, true)} (ground arith) (
            Inserted.waiting e (record {
              work = subst (λ d. insert_all sqlite insert_sql rows d ≡ (t.work, true)) (sym e) f;
              left = omega arith;
              some_left = ground arith;
            }))
      ]

  pub load_row_lem :
      (s : Loading D) (rows : List (List Bytes)) (refs : List Bytes)
      → load.transaction ≡ true
      → Pending s rows
      → Inserted s (rows ++ (refs ∷ [])) (load_record sqlite load insert_sql (Extracted.row refs) s)
  load_row_lem s rows refs on p = go (sqlite.execute insert_sql refs s.work) refl
    where
      go :
          (out : D × Bool)
          → sqlite.execute insert_sql refs s.work ≡ out
          → Inserted s
              (rows ++ (refs ∷ []))
              (load_record sqlite load insert_sql (Extracted.row refs) s)
      go (work, true) e =
          let t : Loading D = record s { work = work } in
          let one : insert_all sqlite insert_sql (refs ∷ []) s.work ≡ (work, true) =
            unfold insert_all in ground arith in
          subst (Inserted s (rows ++ (refs ∷ []))) {x = count_row sqlite load insert_sql t}
            (unfold load_record after_execute in ground arith)
            (count_row_lem s t (rows ++ (refs ∷ [])) on refl
              (insert_all-append sqlite insert_sql rows (refs ∷ []) s.kept s.work p.work ∙ one)
              (omega (arith, p.left, length-append rows (refs ∷ []))) p.some_left)
      go (work, false) e =
          Inserted.halted (unfold load_record after_execute in ground arith)
            (unfold load_record after_execute in ground arith)

  pub batch_before :
      (rows rest : List (List Bytes)) (d d' kept : D)
      → insert_all sqlite insert_sql rows d ≡ (d', true)
      → length rows ≡ size
      → IsBatched rest d' kept
      → IsBatched (rows ++ rest) d kept
  batch_before rows rest d d' kept e n b = record {
    batches = suc b.batches;
    stored = rows ++ b.stored;
    lost = b.lost;
    parts = append_assoc rows b.stored b.lost ∙ ap (λ r. rows ++ r) b.parts;
    whole = omega (arith, length-append rows b.stored, b.whole);
    is_kept = insert_all-append sqlite insert_sql rows b.stored d d' e ∙ b.is_kept;
  }
