-- ===== src/Loader/Table.antt =====
-- `src/loader.rs`: a table is loaded from its folder, and the authority from its tables.
use wp_knowledge.Base.{
  ℕ, zero, suc, ◌||◌, Bool, true, false, List, [], ◌∷◌, ◌++◌, map, Option, none, some, ◌==◌, ltb,
  if◌then◌else◌, ite, Bytes, length,
}
use wp_knowledge.Base.Model.{Bytes-discrete}
use wp_knowledge.Base.Text.{codes, starts_with, to_ascii_lowercase}
use wp_knowledge.Runtime.Types.{KnowledgeError, KnowledgeResult}
use wp_knowledge.Loader.Config.{OptLoadSpec, CsvSpec, ColumnsSpec, RowExpect, TableSpec}
use wp_knowledge.Loader.Rows.{Record, Sqlite, Loading, select_indices_by_header, load_rows}

-- A CSV file that has been opened, and the files of the disk. The reader is told whether there is a
-- header, the delimiter if it is set, and whether values are trimmed.
pub record Csv : Type 0 where
  pub headers : Option (List Bytes)
  pub records : List Record

pub record Disk : Type 0 where
  pub read_to_string : Bytes → Option Bytes
  pub exists : Bytes → Bool
  pub from_path : Bool → Option ℕ → Bool → Bytes → Option Csv

abbrev placeholder : Bytes
placeholder = codes "{table}"

-- `str::replace`; the number is that of the characters still to be passed over.
unfoldable pub replace_from : Bytes → ℕ → Bytes → Bytes
unfolding starts_with
replace_from table skip [] = []
replace_from table (suc skip) (c ∷ s) = replace_from table skip s
replace_from table zero (c ∷ s) = elim (starts_with placeholder (c ∷ s)) [
  | true ↦ table ++ replace_from table 6 s
  | false ↦ c ∷ replace_from table 0 s
]

unfoldable pub replace_table : Bytes → Bytes → Bytes
unfolding replace_from
replace_table sql table = replace_from table 0 sql

unfoldable ends_with_slash : Bytes → Bool
ends_with_slash [] = false
ends_with_slash (c ∷ []) = c == b'/'
ends_with_slash (c ∷ d ∷ s) = ends_with_slash (d ∷ s)

-- `Path::join`, and `join_rel`, which are one for paths of Unix.
unfoldable pub join_rel : Bytes → Bytes → Bytes
unfolding ends_with_slash
join_rel base [] = if ends_with_slash base || length base == 0 then base else base ++ codes "/"
join_rel base (c ∷ rel) =
    if c == b'/' || length base == 0
    then c ∷ rel
    else if ends_with_slash base
    then base ++ (c ∷ rel)
    else base ++ (codes "/" ++ (c ∷ rel))

unfoldable pub one_byte : Bytes → Option ℕ
one_byte (c ∷ []) = some c
one_byte _ = none

abbrev refused : {A : Type 0} → Bytes → KnowledgeResult A
refused detail = KnowledgeResult.err (KnowledgeError.config detail)

abbrev broken : {A : Type 0} → Bytes → KnowledgeResult A
broken detail = KnowledgeResult.err (KnowledgeError.resource detail)

unfoldable pub or_broken : {A : Type 0} → Option A → KnowledgeResult A
or_broken none = broken (codes "source error")
or_broken (some a) = KnowledgeResult.ok a

infixl 5 ◌>>=◌ ◌>>◌
abbrev pub ◌>>=◌ : {A B : Type 0} → KnowledgeResult A → (A → KnowledgeResult B) → KnowledgeResult B
KnowledgeResult.ok a >>= f = f a
KnowledgeResult.err e >>= f = KnowledgeResult.err e

abbrev pub ◌>>◌ : {B : Type 0} → KnowledgeResult (Unit {0}) → KnowledgeResult B → KnowledgeResult B
m >> k = m >>= λ _. k

abbrev guard : Bool → KnowledgeError → KnowledgeResult (Unit {0})
guard true e = KnowledgeResult.ok tt
guard false e = KnowledgeResult.err e

pub record Statements : Type 0 where
  pub create_sql : Bytes
  pub insert_sql : Bytes
  pub clean_sql : Bytes

module _ (disk : Disk) where
  unfoldable pub clean_statement : Bytes → Bytes → KnowledgeResult Bytes
  unfolding join_rel or_broken replace_table
  clean_statement table_dir table =
      let clean_path = join_rel table_dir (codes "clean.sql") in
      if disk.exists clean_path
      then (do
        sql ← or_broken (disk.read_to_string clean_path)
        KnowledgeResult.ok (replace_table sql table))
      else KnowledgeResult.ok (codes "DELETE FROM " ++ table)

  unfoldable pub statements : Bytes → Bytes → KnowledgeResult Statements
  unfolding join_rel or_broken replace_table clean_statement
  statements table_dir table = do
    create ← or_broken (disk.read_to_string (join_rel table_dir (codes "create.sql")))
    insert ← or_broken (disk.read_to_string (join_rel table_dir (codes "insert.sql")))
    clean ← clean_statement table_dir table
    KnowledgeResult.ok (record {
      create_sql = replace_table create table;
      insert_sql = replace_table insert table;
      clean_sql = clean;
    })

  unfoldable pub build_csv_reader : CsvSpec → Bytes → KnowledgeResult Csv
  unfolding to_ascii_lowercase one_byte or_broken
  build_csv_reader csvd data_path = do
    guard (ite (Bytes-discrete (map to_ascii_lowercase csvd.encoding) (codes "utf-8")) true false)
        (KnowledgeError.config (codes "only utf-8 csv is supported"))
    or_broken (disk.from_path csvd.has_header (one_byte csvd.delimiter) csvd.trim data_path)

  unfoldable pub column_indices : ColumnsSpec → Csv → KnowledgeResult (List ℕ)
  unfolding or_broken select_indices_by_header
  column_indices columns csv = elim columns.by_header [
    | name ∷ wanted ↦ (do
      headers ← or_broken csv.headers
      select_indices_by_header headers (name ∷ wanted))
    | [] ↦ elim columns.by_index [
      | i ∷ indices ↦ KnowledgeResult.ok (i ∷ indices)
      | [] ↦ refused (codes "columns mapping required")
    ]
  ]

  -- The data file is opened and its columns are found.
  unfoldable pub open_data : Bytes → TableSpec → CsvSpec → KnowledgeResult (List ℕ × List Record)
  unfolding join_rel build_csv_reader column_indices
  open_data table_dir t csvd =
      let data_path =
        join_rel table_dir (elim t.data_file [ none ↦ codes "data.csv" | some rel ↦ rel ]) in
      do
        guard (disk.exists data_path) (KnowledgeError.config (codes "data.csv not found"))
        csv ← build_csv_reader csvd data_path
        cols ← column_indices t.columns csv
        KnowledgeResult.ok (cols, csv.records)

  module _ {D : Type 0} (sqlite : Sqlite D) where
    -- The table is made and emptied.
    unfoldable pub prepare_table : Statements → D → D × Bool
    prepare_table sql d =
        let (made, ok) = sqlite.execute_batch sql.create_sql d in
        if ok then sqlite.execute_batch sql.clean_sql made else (made, false)

    -- The number of rows is checked when they have been stored.
    unfoldable pub check_rows : RowExpect → Loading D × Bool → D × KnowledgeResult (Unit {0})
    check_rows expected (s, false) = (s.kept, broken (codes "load authority table data"))
    check_rows expected (s, true) = (
      s.kept,
      elim expected.min [
        | none ↦ KnowledgeResult.ok tt
        | some min ↦
            if ltb s.inserted min then refused (codes "table data less") else KnowledgeResult.ok tt
      ],
    )

    unfoldable pub load_data :
        Statements
        → TableSpec
        → OptLoadSpec
        → KnowledgeResult (List ℕ × List Record)
        → D
        → D × KnowledgeResult (Unit {0})
    unfolding load_rows check_rows
    load_data sql t load (KnowledgeResult.err e) d = (d, KnowledgeResult.err e)
    load_data sql t load (KnowledgeResult.ok (cols, recs)) d =
        check_rows t.expected_rows (load_rows sqlite load sql.insert_sql cols recs d)

    unfoldable pub load_prepared :
        Bytes
        → Statements
        → TableSpec
        → CsvSpec
        → OptLoadSpec
        → D × Bool
        → D × KnowledgeResult (Unit {0})
    unfolding open_data load_data
    load_prepared table_dir sql t csvd load (d, false) =
        (d, broken (codes "prepare authority table"))
    load_prepared table_dir sql t csvd load (d, true) =
        load_data sql t load (open_data table_dir t csvd) d

    unfoldable pub load_one_table :
        Bytes → TableSpec → CsvSpec → OptLoadSpec → D → D × KnowledgeResult (Unit {0})
    unfolding statements prepare_table load_prepared join_rel
    load_one_table base_dir t csvd load d =
        let table_dir = join_rel base_dir (elim t.dir [ none ↦ t.name | some dir ↦ dir ]) in
        elim (statements table_dir t.name) [
          | KnowledgeResult.err e ↦ (d, KnowledgeResult.err e)
          | KnowledgeResult.ok sql ↦ load_prepared table_dir sql t csvd load (prepare_table sql d)
        ]
