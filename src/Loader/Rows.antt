-- ===== src/Loader/Rows.antt =====
-- `src/loader.rs`: the rows of a table are inserted in batches.
use wp_knowledge.Base.{
  ℕ, ◌+◌, ◌-◌, Bool, true, false, not, ◌&&◌, List, [], ◌∷◌, Option, none, some, ◌==◌, leb,
  if◌then◌else◌, ite, max, Bytes, RowData, length, get_elem?,
}
use wp_knowledge.Base.Model.{Bytes-discrete}
use wp_knowledge.Base.Text.{codes}
use wp_knowledge.Runtime.Types.{KnowledgeError, KnowledgeResult}
use wp_knowledge.Loader.Config.{OnError, OptLoadSpec}

-- A record of a CSV file is the list of its values; one that cannot be parsed is none.
abbrev pub Record : Type 0
Record = Option (List Bytes)

-- `headers.iter().position(…)`.
unfoldable pub position : Bytes → List Bytes → Option ℕ
position name [] = none
position name (h ∷ headers) =
    let rest = position name headers in
    ite (Bytes-discrete h name) (some 0) (elim rest [ none ↦ none | some i ↦ some (i + 1) ])

unfoldable pub select_indices_by_header : List Bytes → List Bytes → KnowledgeResult (List ℕ)
unfolding position
select_indices_by_header headers [] = KnowledgeResult.ok []
select_indices_by_header headers (name ∷ wanted) =
    let rest = select_indices_by_header headers wanted in
    elim (position name headers) [
      | none ↦ KnowledgeResult.err (KnowledgeError.config (codes "header not found"))
      | some pos ↦ elim rest [
        | KnowledgeResult.err e ↦ KnowledgeResult.err e
        | KnowledgeResult.ok out ↦ KnowledgeResult.ok (pos ∷ out)
      ]
    ]

-- The values that a record has for the columns, or what becomes of it.
pub data Extracted : Type 0 where
  row : List Bytes → Extracted
  skipped failed : Extracted

unfoldable pub on_bad : OnError → Extracted
on_bad OnError.skip = Extracted.skipped
on_bad OnError.fail = Extracted.failed

unfoldable pub value_at : List Bytes → ℕ → Bytes
value_at record_ idx = elim (get_elem? record_ idx) [ none ↦ [] | some v ↦ v ]

unfoldable pub with_value : Bytes → Extracted → Extracted
with_value v (Extracted.row vs) = Extracted.row (v ∷ vs)
with_value v Extracted.skipped = Extracted.skipped
with_value v Extracted.failed = Extracted.failed

unfoldable pub extract_row_refs : OnError → List Bytes → List ℕ → Extracted
unfolding on_bad value_at with_value
extract_row_refs on_error record_ [] = Extracted.row []
extract_row_refs on_error record_ (idx ∷ col_indices) =
    let rest = extract_row_refs on_error record_ col_indices in
    if leb (length record_) idx then on_bad on_error else with_value (value_at record_ idx) rest

unfoldable pub extracted : OnError → List ℕ → Record → Extracted
unfolding on_bad extract_row_refs
extracted on_error col_indices none = on_bad on_error
extracted on_error col_indices (some record_) = extract_row_refs on_error record_ col_indices

-- The SQLite library on one database: what its functions do, and whether they succeed. A statement
-- that fails may have changed the database. The pool's one connection is had whenever it is wanted.
pub record Sqlite (D : Type 0) : Type 0 where
  pub execute_batch : Bytes → D → D × Bool
  pub prepare : Bytes → D → Bool
  pub execute : Bytes → List Bytes → D → D × Bool
  pub begin : D → Bool
  pub commit : D → Bool
  pub query : Bytes → D → KnowledgeResult (List RowData)

-- What a reader of the database sees, since a transaction that is dropped is rolled back; the
-- database as the loading sees it; and the counters.
pub record Loading (D : Type 0) : Type 0 where
  pub kept : D
  pub work : D
  pub inserted : ℕ
  pub bad : ℕ
  pub batch_left : ℕ

module _ {D : Type 0} (sqlite : Sqlite D) (load : OptLoadSpec) (insert_sql : Bytes) where
  -- A batch is full: it is committed, and the next transaction begun.
  unfoldable pub next_batch : Loading D → Loading D × Bool
  next_batch s =
      if sqlite.commit s.work
      then (record s { kept = s.work; batch_left = max load.batch_size 1 }, sqlite.begin s.work)
      else (s, false)

  unfoldable pub count_row : Loading D → Loading D × Bool
  unfolding next_batch
  count_row s =
      let counted = record s { inserted = s.inserted + 1 } in
      let left = record counted { batch_left = s.batch_left - 1 } in
      if load.transaction
      then if left.batch_left == 0 then next_batch left else (left, true)
      else (record counted { kept = s.work }, true)

  -- A statement has been executed.
  unfoldable pub after_execute : Loading D → D × Bool → Loading D × Bool
  unfolding count_row
  after_execute s (work, true) = count_row (record s { work = work })
  after_execute s (work, false) =
      (if load.transaction then s else record s { kept = work; work = work }, false)

  -- The body of the loop; `false` leaves it with an error.
  unfoldable pub load_record : Extracted → Loading D → Loading D × Bool
  unfolding after_execute
  load_record (Extracted.row refs) s = after_execute s (sqlite.execute insert_sql refs s.work)
  load_record Extracted.skipped s = (record s { bad = s.bad + 1 }, true)
  load_record Extracted.failed s = (s, false)

  unfoldable pub load_records : List ℕ → List Record → Loading D → Loading D × Bool
  unfolding load_record extracted
  load_records col_indices [] s = (s, true)
  load_records col_indices (rec ∷ recs) s =
      let (s', more) = load_record (extracted load.on_error col_indices rec) s in
      let rest = load_records col_indices recs s' in elim more [ true ↦ rest | false ↦ (s', false) ]

  -- Behind the loop: the last transaction is committed.
  unfoldable pub finish_load : Loading D × Bool → Loading D × Bool
  finish_load (s, false) = (s, false)
  finish_load (s, true) =
      if load.transaction
      then if sqlite.commit s.work then (record s { kept = s.work }, true) else (s, false)
      else (s, true)

  unfoldable pub load_rows : List ℕ → List Record → D → Loading D × Bool
  unfolding load_records finish_load
  load_rows col_indices recs d =
      let start : Loading D = record {
        kept = d;
        work = d;
        inserted = 0;
        bad = 0;
        batch_left = max load.batch_size 1;
      } in
      let loaded = finish_load (load_records col_indices recs start) in
      if load.transaction && not (sqlite.begin d)
      then (start, false)
      else if sqlite.prepare insert_sql d
      then loaded
      else (start, false)
