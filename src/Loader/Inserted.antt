-- ===== src/Loader/Inserted.antt =====
-- `src/loader.rs`: the rows of a table that has been loaded, however they were batched.
use wp_knowledge.Base.{
  ℕ, suc, ◌+◌, ◌≡◌, refl, sym, ap, subst, ◌∙◌, Bool, true, false, List, [], ◌∷◌, ◌++◌, arith, Bytes,
  length, max, Bool-cases, inl, inr, length-append,
}
use wp_knowledge.Loader.Config.{OptLoadSpec}
use wp_knowledge.Loader.Good.{
  add_good, good_rows, is_read, all_read, add_good-append, insert_all, insert_all-append,
}
use wp_knowledge.Loader.Rows.{
  Record, Extracted, extracted, Sqlite, Loading, next_batch, count_row, after_execute, load_record,
  load_records, finish_load, load_rows,
}

module _ {D : Type 0} (sqlite : Sqlite D) (insert_sql : Bytes) where
  module _ (load : OptLoadSpec) where
    -- What has been counted and done between two states of the loop.
    record Done (s r : Loading D) (rows : List (List Bytes)) (n : ℕ) : Type 0 where
      work : insert_all sqlite insert_sql rows s.work ≡ (r.work, true)
      inserted : r.inserted ≡ s.inserted + length rows
      seen : r.inserted + r.bad ≡ s.inserted + s.bad + n
      kept : load.transaction ≡ false → s.kept ≡ s.work → r.kept ≡ r.work

    count_row_lem :
        (s : Loading D)
        → (count_row sqlite load insert_sql s).1 ≡ true
        → let r = (count_row sqlite load insert_sql s).0 in
          (r.work ≡ s.work)
          × (r.inserted ≡ s.inserted + 1)
          × (r.bad ≡ s.bad)
          × (load.transaction ≡ false → r.kept ≡ r.work)
    unfolding count_row next_batch
    count_row_lem s h = (ground arith, ground arith, ground arith, λ off. ground arith)

    after_execute_lem :
        (s : Loading D) (refs : List Bytes) (out : D × Bool)
        → sqlite.execute insert_sql refs s.work ≡ out
        → (after_execute sqlite load insert_sql s out).1 ≡ true
        → Done s (after_execute sqlite load insert_sql s out).0 (refs ∷ []) 1
    unfolding after_execute insert_all
    after_execute_lem s refs (work, false) e h = absurd (ground arith)
    after_execute_lem s refs (work, true) e h =
        let (same, one, bad, kept) = count_row_lem (record s { work = work }) h in
        record {
          work = ground arith;
          inserted = ground arith;
          seen = ground arith;
          kept = λ off before. kept off;
        }

    load_record_lem :
        (x : Extracted) (s : Loading D)
        → (load_record sqlite load insert_sql x s).1 ≡ true
        → Done s (load_record sqlite load insert_sql x s).0 (add_good x []) 1 × (is_read x ≡ true)
    unfolding load_record add_good is_read insert_all
    load_record_lem (Extracted.row refs) s h =
        (after_execute_lem s refs (sqlite.execute insert_sql refs s.work) refl h, refl)
    load_record_lem Extracted.skipped s h = (
      record { work = refl; inserted = omega arith; seen = omega arith; kept = λ off same. same },
      refl,
    )
    load_record_lem Extracted.failed s h = absurd (ground arith)

    Done-trans :
        (s t r : Loading D) (rows more : List (List Bytes)) (n m : ℕ)
        → Done s t rows n
        → Done t r more m
        → Done s r (rows ++ more) (n + m)
    Done-trans s t r rows more n m a b = record {
      work = insert_all-append sqlite insert_sql rows more s.work t.work a.work ∙ b.work;
      inserted = omega (arith, a.inserted, b.inserted, length-append rows more);
      seen = omega (arith, a.seen, b.seen);
      kept = λ off same. b.kept off (a.kept off same);
    }

    load_records_more :
        (cols : List ℕ) (rec : Record) (recs : List Record) (s : Loading D)
        → (load_records sqlite load insert_sql cols (rec ∷ recs) s).1 ≡ true
        → let step = load_record sqlite load insert_sql (extracted load.on_error cols rec) s in
          (step.1 ≡ true)
          × (load_records sqlite load insert_sql cols (rec ∷ recs) s
              ≡ load_records sqlite load insert_sql cols recs step.0)
    unfolding load_records
    load_records_more cols rec recs s h =
        elim (Bool-cases
          (load_record sqlite load insert_sql (extracted load.on_error cols rec) s).1) [
            | inl on ↦ (on, ground arith)
            | inr off ↦ absurd (ground arith)
          ]

    load_records_lem :
        (cols : List ℕ) (recs : List Record) (s : Loading D)
        → (load_records sqlite load insert_sql cols recs s).1 ≡ true
        → Done s
            (load_records sqlite load insert_sql cols recs s).0
            (good_rows load.on_error cols recs)
            (length recs)
          × (all_read load.on_error cols recs ≡ true)
    unfolding good_rows all_read insert_all
    load_records_lem cols [] s h =
        unfold load_records in
        (
          record {
            work = refl;
            inserted = omega arith;
            seen = omega arith;
            kept = λ off same. same;
          },
          refl,
        )
    load_records_lem cols (rec ∷ recs) s h =
        let (on, same) = load_records_more cols rec recs s h in
        let x = extracted load.on_error cols rec in
        let step = load_record sqlite load insert_sql x s in
        let (one, read) = load_record_lem x s on in
        let (rest, all) = load_records_lem cols recs step.0 (sym (ap (λ p. p.1) same) ∙ h) in
        let both =
          Done-trans s step.0 _ (add_good x []) (good_rows load.on_error cols recs) 1 (length recs)
            one rest in
        (
          subst (λ r. Done s r (add_good x (good_rows load.on_error cols recs)) (suc (length recs)))
              (sym (ap (λ p. p.0) same))
              (subst
                (λ n.
                  Done s (load_records sqlite load insert_sql cols recs step.0).0
                    (add_good x (good_rows load.on_error cols recs)) n)
                (omega arith)
                (subst
                  (λ rows.
                    Done s (load_records sqlite load insert_sql cols recs step.0).0 rows
                      (1 + length recs))
                  (add_good-append x (good_rows load.on_error cols recs) read) both)),
          ground arith,
        )

    -- What a loading leaves that has come to its end.
    pub record IsLoaded (cols : List ℕ) (recs : List Record) (d : D) (r : Loading D) : Type 0 where
      pub kept : insert_all sqlite insert_sql (good_rows load.on_error cols recs) d ≡ (r.kept, true)
      pub inserted : r.inserted ≡ length (good_rows load.on_error cols recs)
      pub seen : r.inserted + r.bad ≡ length recs
      pub read : all_read load.on_error cols recs ≡ true

    finish_load_lem :
        (cols : List ℕ) (recs : List Record) (d : D) (s : Loading D) (b : ℕ)
        → Done
            (record { kept = d; work = d; inserted = 0; bad = 0; batch_left = b })
            s
            (good_rows load.on_error cols recs)
            (length recs)
        → all_read load.on_error cols recs ≡ true
        → (finish_load sqlite load insert_sql (s, true)).1 ≡ true
        → IsLoaded cols recs d (finish_load sqlite load insert_sql (s, true)).0
    unfolding finish_load
    finish_load_lem cols recs d s b done read h = elim (Bool-cases load.transaction) [
      | inl on ↦ record {
        kept = done.work ∙ ground arith;
        inserted = ground (arith, done.inserted);
        seen = ground (arith, done.seen);
        read = read;
      }
      | inr off ↦ record {
        kept = done.work ∙ ground (arith, done.kept off refl);
        inserted = ground (arith, done.inserted);
        seen = ground (arith, done.seen);
        read = read;
      }
    ]

    abbrev start : D → Loading D
    start d = record {
      kept = d;
      work = d;
      inserted = 0;
      bad = 0;
      batch_left = max load.batch_size 1;
    }

    load_rows_steps :
        (cols : List ℕ) (recs : List Record) (d : D)
        → (load_rows sqlite load insert_sql cols recs d).1 ≡ true
        → let loop = load_records sqlite load insert_sql cols recs (start d) in
          (loop.1 ≡ true)
          × (load_rows sqlite load insert_sql cols recs d
              ≡ finish_load sqlite load insert_sql (loop.0, true))
    unfolding load_rows
    load_rows_steps cols recs d h =
        elim (Bool-cases (load_records sqlite load insert_sql cols recs (start d)).1) [
          | inl on ↦ (on, ground arith)
          | inr off ↦ absurd (unfold finish_load in ground arith)
        ]

    -- If the rows of a table have been loaded, with transactions of any size or with none, then what
    -- is kept is what the rows of the records leave when they are inserted in their order, each record
    -- being read or passed over; every record is counted, and each row that is inserted.
    pub load_rows-IsLoaded :
        (cols : List ℕ) (recs : List Record) (d : D)
        → (load_rows sqlite load insert_sql cols recs d).1 ≡ true
        → IsLoaded cols recs d (load_rows sqlite load insert_sql cols recs d).0
    load_rows-IsLoaded cols recs d h =
        let (on, same) = load_rows_steps cols recs d h in
        let (done, read) = load_records_lem cols recs (start d) on in
        subst (IsLoaded cols recs d) (sym (ap (λ p. p.0) same)) (
          finish_load_lem cols recs d (load_records sqlite load insert_sql cols recs (start d)).0
            (max load.batch_size 1) done read (sym (ap (λ p. p.1) same) ∙ h))
