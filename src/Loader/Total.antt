-- ===== src/Loader/Total.antt =====
-- `src/loader.rs`: when the rows of a table can all be loaded.
use wp_knowledge.Base.{
  ℕ, ◌≡◌, refl, ap, ◌∙◌, Bool, true, false, List, [], ◌∷◌, none, some, arith, leb, Bytes, length,
  Bool-cases, inl, inr, max,
}
use wp_knowledge.Loader.Config.{OnError, OptLoadSpec}
use wp_knowledge.Loader.Rows.{
  Record, Extracted, on_bad, with_value, value_at, extract_row_refs, extracted, Sqlite, Loading,
  next_batch, count_row, after_execute, load_record, load_records, finish_load, load_rows,
}
use wp_knowledge.Loader.Good.{is_read, all_read}

is_read-with_value : (v : Bytes) (x : Extracted) → is_read (with_value v x) ≡ is_read x
unfolding is_read with_value
is_read-with_value v (Extracted.row r) = refl
is_read-with_value v Extracted.skipped = refl
is_read-with_value v Extracted.failed = refl

is_read-extract :
    (record_ : List Bytes) (cols : List ℕ)
    → is_read (extract_row_refs OnError.skip record_ cols) ≡ true
unfolding extract_row_refs is_read on_bad
is_read-extract record_ [] = refl
is_read-extract record_ (idx ∷ cols) = elim (Bool-cases (leb (length record_) idx)) [
  | inl short ↦ ground arith
  | inr long ↦
      let rest = is_read-extract record_ cols in
      ground (
        arith,
        is_read-with_value (value_at record_ idx) (extract_row_refs OnError.skip record_ cols),
      )
]

all_read-skip : (cols : List ℕ) (recs : List Record) → all_read OnError.skip cols recs ≡ true
unfolding all_read extracted is_read on_bad
all_read-skip cols [] = refl
all_read-skip cols (none ∷ recs) = all_read-skip cols recs
all_read-skip cols (some record_ ∷ recs) =
    ground (arith, is_read-extract record_ cols, all_read-skip cols recs)

module _ {D : Type 0} (sqlite : Sqlite D) where
  -- The database does what it is asked.
  pub record IsWilling : Type 0 where
    pub executes : (sql : Bytes) (vs : List Bytes) (d : D) → (sqlite.execute sql vs d).1 ≡ true
    pub prepares : (sql : Bytes) (d : D) → sqlite.prepare sql d ≡ true
    pub begins : (d : D) → sqlite.begin d ≡ true
    pub commits : (d : D) → sqlite.commit d ≡ true

  module _ (insert_sql : Bytes) (load : OptLoadSpec) (w : IsWilling) where
    count_row_on : (s : Loading D) → (count_row sqlite load insert_sql s).1 ≡ true
    unfolding count_row next_batch
    count_row_on s = ground (arith, w.commits s.work, w.begins s.work)

    load_record_on :
        (x : Extracted) (s : Loading D)
        → is_read x ≡ true
        → (load_record sqlite load insert_sql x s).1 ≡ true
    unfolding load_record is_read
    load_record_on (Extracted.row refs) s h =
        go (sqlite.execute insert_sql refs s.work) (w.executes insert_sql refs s.work)
      where
        go : (out : D × Bool) → out.1 ≡ true → (after_execute sqlite load insert_sql s out).1 ≡ true
        go (d, true) e = unfold after_execute in count_row_on (record s { work = d })
        go (d, false) e = absurd (ground arith)
    load_record_on Extracted.skipped s h = refl
    load_record_on Extracted.failed s h = absurd (ground arith)

    load_records_on :
        (cols : List ℕ) (recs : List Record) (s : Loading D)
        → all_read load.on_error cols recs ≡ true
        → (load_records sqlite load insert_sql cols recs s).1 ≡ true
    unfolding load_records all_read
    load_records_on cols [] s h = refl
    load_records_on cols (rec ∷ recs) s h =
        let x = extracted load.on_error cols rec in
        ground (
          arith,
          load_record_on x s (ground arith),
          load_records_on cols recs (load_record sqlite load insert_sql x s).0 (ground arith),
        )

    finish_load_on :
        (r : Loading D × Bool) → r.1 ≡ true → (finish_load sqlite load insert_sql r).1 ≡ true
    unfolding finish_load
    finish_load_on (s, true) h = ground (arith, w.commits s.work)
    finish_load_on (s, false) h = absurd (ground arith)

    load_rows_on :
        (cols : List ℕ) (recs : List Record) (d : D)
        → all_read load.on_error cols recs ≡ true
        → (load_rows sqlite load insert_sql cols recs d).1 ≡ true
    unfolding load_rows
    load_rows_on cols recs d h =
        let start : Loading D = record {
          kept = d;
          work = d;
          inserted = 0;
          bad = 0;
          batch_left = max load.batch_size 1;
        } in
        ground (
          arith,
          w.begins d,
          w.prepares insert_sql d,
          finish_load_on (load_records sqlite load insert_sql cols recs start)
              (load_records_on cols recs start h),
        )

    -- If the database does what it is asked and bad rows are to be skipped, then the rows of every
    -- file are loaded with success, whatever its records are.
    load_rows_skip :
        (cols : List ℕ) (recs : List Record) (d : D)
        → load.on_error ≡ OnError.skip
        → (load_rows sqlite load insert_sql cols recs d).1 ≡ true
    load_rows_skip cols recs d e =
        load_rows_on cols recs d (ap (λ o. all_read o cols recs) e ∙ all_read-skip cols recs)
