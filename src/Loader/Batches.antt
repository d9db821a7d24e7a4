-- ===== src/Loader/Batches.antt =====
-- `src/loader.rs`: what a loading in transactions keeps, also when it fails.
use wp_knowledge.Base.{
  ℕ, ◌+◌, ◌≡◌, refl, sym, ap, subst, ◌∙◌, Bool, true, false, ◌&&◌, List, [], ◌∷◌, ◌++◌,
  append_assoc, arith, Bytes, max, Bool-cases, inl, inr,
}
use wp_knowledge.Loader.Config.{OptLoadSpec}
use wp_knowledge.Loader.Rows.{
  Record, Extracted, extracted, Sqlite, Loading, load_record, load_records, finish_load, load_rows,
}
use wp_knowledge.Loader.Good.{add_good, good_rows, insert_all}
use wp_knowledge.Loader.Batch.{Pending, IsBatched, Inserted, nothing, load_row_lem, batch_before}

module _ {D : Type 0} (sqlite : Sqlite D) (insert_sql : Bytes) (load : OptLoadSpec) where
  module _ (cols : List ℕ) (rec : Record) (recs : List Record) (s : Loading D) where
    abbrev step : Loading D × Bool
    step = load_record sqlite load insert_sql (extracted load.on_error cols rec) s

    goes_on :
        step.1 ≡ true
        → load_records sqlite load insert_sql cols (rec ∷ recs) s
          ≡ load_records sqlite load insert_sql cols recs step.0
    unfolding load_records
    goes_on h = ground arith

    stops :
        step.1 ≡ false → load_records sqlite load insert_sql cols (rec ∷ recs) s ≡ (step.0, false)
    unfolding load_records
    stops h = ground arith

    -- A row has been inserted or not; the rest follows.
    after_row :
        (rows : List (List Bytes))
        → Inserted sqlite insert_sql load s rows step
        → ((ps : List (List Bytes))
            → Pending sqlite insert_sql load step.0 ps
            → IsBatched sqlite insert_sql load
                (ps ++ good_rows load.on_error cols recs)
                step.0.kept
                (load_records sqlite load insert_sql cols recs step.0).0.kept)
        → IsBatched sqlite insert_sql load
            (rows ++ good_rows load.on_error cols recs)
            s.kept
            (load_records sqlite load insert_sql cols (rec ∷ recs) s).0.kept
    after_row rows x ih =
        let goods = good_rows load.on_error cols recs in
        let end = (load_records sqlite load insert_sql cols (rec ∷ recs) s).0.kept in
        elim (Bool-cases step.1) [
          | inl on ↦
              let on' = sym (ap (λ (p : Loading D × Bool). p.0.kept) (goes_on on)) in
              elim x [
                | Inserted.halted off same ↦ absurd (ground arith)
                | Inserted.waiting same p ↦
                    subst (IsBatched sqlite insert_sql load (rows ++ goods) s.kept) on' (
                      subst
                        (λ d.
                          IsBatched sqlite insert_sql load (rows ++ goods) d
                            (load_records sqlite load insert_sql cols recs step.0).0.kept)
                        same (ih rows p))
                | Inserted.closed kept n p ↦
                    subst (IsBatched sqlite insert_sql load (rows ++ goods) s.kept) on' (
                      batch_before sqlite insert_sql load rows goods s.kept step.0.kept _ kept n
                        (ih [] p))
              ]
          | inr off ↦
              let off' = sym (ap (λ (p : Loading D × Bool). p.0.kept) (stops off)) in
              subst (IsBatched sqlite insert_sql load (rows ++ goods) s.kept) off' (elim x [
                | Inserted.halted off' same ↦
                    nothing sqlite insert_sql load (rows ++ goods) s.kept step.0.kept same
                | Inserted.waiting same p ↦
                    nothing sqlite insert_sql load (rows ++ goods) s.kept step.0.kept same
                | Inserted.closed kept n p ↦
                    batch_before sqlite insert_sql load rows goods s.kept step.0.kept step.0.kept
                      kept n (nothing sqlite insert_sql load goods step.0.kept step.0.kept refl)
              ])
        ]

  load_records-IsBatched :
      (cols : List ℕ) (recs : List Record) (s : Loading D) (rows : List (List Bytes))
      → load.transaction ≡ true
      → Pending sqlite insert_sql load s rows
      → IsBatched sqlite insert_sql load
          (rows ++ good_rows load.on_error cols recs)
          s.kept
          (load_records sqlite load insert_sql cols recs s).0.kept
  load_records-IsBatched cols [] s rows on p =
      unfold load_records in
      nothing sqlite insert_sql load (rows ++ good_rows load.on_error cols []) s.kept s.kept refl
  load_records-IsBatched cols (rec ∷ recs) s rows on p =
      go (extracted load.on_error cols rec) refl (λ t ps. load_records-IsBatched cols recs t ps on)
    where
      go :
          (x : Extracted)
          → extracted load.on_error cols rec ≡ x
          → ((t : Loading D) (ps : List (List Bytes))
              → Pending sqlite insert_sql load t ps
              → IsBatched sqlite insert_sql load
                  (ps ++ good_rows load.on_error cols recs)
                  t.kept
                  (load_records sqlite load insert_sql cols recs t).0.kept)
          → IsBatched sqlite insert_sql load
              (rows ++ good_rows load.on_error cols (rec ∷ recs))
              s.kept
              (load_records sqlite load insert_sql cols (rec ∷ recs) s).0.kept
      go (Extracted.row refs) e ih =
          let goods : refs ∷ good_rows load.on_error cols recs
              ≡ good_rows load.on_error cols (rec ∷ recs) =
            unfold good_rows add_good in ground arith in
          let stepped =
            subst (Inserted sqlite insert_sql load s (rows ++ (refs ∷ [])))
              (ap (λ x. load_record sqlite load insert_sql x s) (sym e))
              (load_row_lem sqlite insert_sql load s rows refs on p) in
          subst
            (λ rs.
              IsBatched sqlite insert_sql load rs s.kept
                (load_records sqlite load insert_sql cols (rec ∷ recs) s).0.kept)
            (append_assoc rows (refs ∷ []) (good_rows load.on_error cols recs)
              ∙ ap (λ rs. rows ++ rs) goods)
            (after_row cols rec recs s (rows ++ (refs ∷ [])) stepped (ih (step cols rec recs s).0))
      go Extracted.skipped e ih =
          let t : Loading D = record s { bad = s.bad + 1 } in
          let goods : good_rows load.on_error cols recs
              ≡ good_rows load.on_error cols (rec ∷ recs) =
            unfold good_rows add_good in ground arith in
          let same : (load_records sqlite load insert_sql cols recs t).0.kept
              ≡ (load_records sqlite load insert_sql cols (rec ∷ recs) s).0.kept =
            unfold load_records load_record in ground arith in
          subst
            (IsBatched sqlite insert_sql load (rows ++ good_rows load.on_error cols (rec ∷ recs))
              s.kept)
            same
            (subst
              (λ rs.
                IsBatched sqlite insert_sql load (rows ++ rs) s.kept
                  (load_records sqlite load insert_sql cols recs t).0.kept)
              goods (ih t rows (record { work = p.work; left = p.left; some_left = p.some_left })))
      go Extracted.failed e ih =
          nothing sqlite insert_sql load (rows ++ good_rows load.on_error cols (rec ∷ recs)) s.kept
            (load_records sqlite load insert_sql cols (rec ∷ recs) s).0.kept
            (unfold load_records load_record in ground arith)

  finish_kept :
      (r : Loading D × Bool)
      → load.transaction ≡ true
      → (finish_load sqlite load insert_sql r).1 ≡ false
      → (finish_load sqlite load insert_sql r).0.kept ≡ r.0.kept
  unfolding finish_load
  finish_kept (s, false) on h = refl
  finish_kept (s, true) on h = ground arith

  -- If rows are loaded in transactions and the loading fails, then what is kept is what a number of
  -- whole batches of the rows leave, the first of those that come before the first record that is at
  -- fault, inserted in their order.
  pub load_rows-IsBatched :
      (cols : List ℕ) (recs : List Record) (d : D)
      → load.transaction ≡ true
      → (load_rows sqlite load insert_sql cols recs d).1 ≡ false
      → IsBatched sqlite insert_sql load
          (good_rows load.on_error cols recs)
          d
          (load_rows sqlite load insert_sql cols recs d).0.kept
  unfolding load_rows
  load_rows-IsBatched cols recs d on h =
      let start : Loading D = record {
        kept = d;
        work = d;
        inserted = 0;
        bad = 0;
        batch_left = max load.batch_size 1;
      } in
      let goods = good_rows load.on_error cols recs in
      let loop = load_records sqlite load insert_sql cols recs start in
      let batched = load_records-IsBatched cols recs start [] on (record {
        work = unfold insert_all in refl;
        left = omega arith;
        some_left = ground arith;
      }) in
      elim (Bool-cases (sqlite.begin d && sqlite.prepare insert_sql d)) [
        | inl ready ↦
            subst (IsBatched sqlite insert_sql load goods d) (ground (arith, finish_kept loop on))
              batched
        | inr not_ready ↦ nothing sqlite insert_sql load goods d _ (ground arith)
      ]
