-- ===== src/Examples/Tables.antt =====
-- The theorems on the loading of tables at concrete inputs.
use wp_knowledge.Base.{refl, true, false, List, [], ◌∷◌, ◌++◌, none, some, Bytes, ℕ_discrete}
use wp_knowledge.Base.Model.{Bytes-discrete}
use wp_knowledge.Base.Text.{codes, starts_with}
use wp_knowledge.Runtime.Types.{KnowledgeResult, KnowledgeError}
use wp_knowledge.Loader.Config.{OnError, OptLoadSpec, TableSpec, default_csv}
use wp_knowledge.Loader.Rows.{Record, Sqlite, load_rows}
use wp_knowledge.Loader.Good.{good_rows}
use wp_knowledge.Loader.Batch.{IsBatched}
use wp_knowledge.Loader.Batches.{load_rows-IsBatched}
use wp_knowledge.Loader.Total.{IsWilling}
use wp_knowledge.Loader.Table.{Disk, Statements, open_data, load_one_table}
use wp_knowledge.Loader.Loaded.{
  table_dir, IsTable, rows_of, IsCut, load_one_table-IsTable, load_one_table-IsCut,
}

abbrev Rows : Type 0
Rows = List (List Bytes)

-- A database of one table: a statement that deletes empties it, an insertion adds a row.
abbrev database : Sqlite Rows
database = record {
  execute_batch =
      λ sql d. elim (starts_with (codes "DELETE") sql) [ true ↦ ([], true) | false ↦ (d, true) ];
  prepare = λ sql d. true;
  execute = λ sql vs d. (d ++ (vs ∷ []), true);
  begin = λ d. true;
  commit = λ d. true;
  query = λ sql d. KnowledgeResult.ok [];
}

database-IsWilling : IsWilling database
database-IsWilling = record {
  executes = λ sql vs d. refl;
  prepares = λ sql d. refl;
  begins = λ d. refl;
  commits = λ d. refl;
}

abbrev good : Bytes → Record
good v = some (codes "k" ∷ v ∷ [])

-- Three rows, a record that is too short, and another row.
abbrev records : List Record
records =
    good (codes "1")
    ∷ good (codes "2")
    ∷ good (codes "3")
    ∷ some (codes "k" ∷ [])
    ∷ good (codes "4")
    ∷ []

abbrev load : OnError → OptLoadSpec
load on_error = record { transaction = true; batch_size = 2; on_error = on_error }

abbrev old : Rows
old = (codes "old" ∷ []) ∷ []

-- The first two rows are kept.
load_rows-IsBatched_example :
    IsBatched database
      (codes "INSERT")
      (load OnError.fail)
      (good_rows OnError.fail (1 ∷ []) records)
      old
      (load_rows database (load OnError.fail) (codes "INSERT") (1 ∷ []) records old).0.kept
unfolding load_rows
load_rows-IsBatched_example =
    load_rows-IsBatched database (codes "INSERT") (load OnError.fail) (1 ∷ []) records old refl refl

abbrev disk : Disk
disk = record {
  read_to_string = λ path. some (codes "INSERT INTO {table}");
  exists = λ path. starts_with (codes "/b/t/data.csv") path;
  from_path = λ header delimiter trim path.
      some (record { headers = some (codes "k" ∷ codes "v" ∷ []); records = records });
}

abbrev table : TableSpec
table = record {
  name = codes "t";
  dir = none;
  data_file = none;
  columns = record { by_header = codes "v" ∷ []; by_index = [] };
  expected_rows = record { min = some 4; max = none };
  enabled = true;
}

load_one_table-IsTable_example :
    IsTable disk database
      (codes "/b")
      table
      default_csv
      (load OnError.skip)
      old
      (load_one_table disk database (codes "/b") table default_csv (load OnError.skip) old).0
unfolding load_one_table Bytes-discrete default_csv ℕ_discrete
load_one_table-IsTable_example =
    load_one_table-IsTable disk database (codes "/b") table default_csv (load OnError.skip) old tt
      refl

abbrev sql : Statements
sql = record {
  create_sql = codes "INSERT INTO t";
  insert_sql = codes "INSERT INTO t";
  clean_sql = codes "DELETE FROM t";
}

load_one_table-IsCut_example :
    IsCut disk database
      (codes "/b")
      table
      default_csv
      (load OnError.fail)
      (rows_of disk database
        (codes "/b")
        table
        default_csv
        (load OnError.fail)
        (open_data disk (table_dir (codes "/b") table) table default_csv))
      []
      (load_one_table disk database (codes "/b") table default_csv (load OnError.fail) old).0
      sql
unfolding load_one_table table_dir Bytes-discrete default_csv ℕ_discrete
load_one_table-IsCut_example =
    load_one_table-IsCut disk database (codes "/b") table default_csv (load OnError.fail) sql old []
      (KnowledgeError.resource (codes "load authority table data")) refl refl refl refl
