-- ===== src/Loader/Authority.antt =====
-- `src/loader.rs`: the tables of a configuration, all of them or one that is loaded again.
use wp_knowledge.Base.{
  if◌then◌else◌, true, false, ◌&&◌, List, [], ◌∷◌, ◌++◌, Option, none, some, ite, Bytes, RowData,
}
use wp_knowledge.Base.Model.{Bytes-discrete}
use wp_knowledge.Base.Text.{codes}
use wp_knowledge.Runtime.Types.{KnowledgeError, KnowledgeResult}
use wp_knowledge.Loader.Config.{OptLoadSpec, CsvSpec, TableSpec}
use wp_knowledge.Loader.Rows.{Sqlite}
use wp_knowledge.Loader.Table.{Disk, load_one_table}

-- What is read of the configuration when tables are loaded, and its base folder.
pub record Authority : Type 0 where
  pub base_dir : Bytes
  pub csv : CsvSpec
  pub load : OptLoadSpec
  pub tables : List TableSpec

unfoldable pub push_front : List Bytes → KnowledgeResult (List Bytes) → KnowledgeResult (List Bytes)
push_front names (KnowledgeResult.err e) = KnowledgeResult.err e
push_front names (KnowledgeResult.ok more) = KnowledgeResult.ok (names ++ more)

-- The first table of the name that is enabled.
unfoldable pub find_table : Bytes → List TableSpec → Option TableSpec
find_table table [] = none
find_table table (t ∷ tables) =
    let rest = find_table table tables in
    if t.enabled && ite (Bytes-discrete t.name table) true false then some t else rest

-- The names with commas between them.
unfoldable pub join_names : List Bytes → Bytes
join_names [] = []
join_names (c ∷ []) = c
join_names (c ∷ d ∷ cols) = c ++ (codes ", " ++ join_names (d ∷ cols))

module _ {D : Type 0} (disk : Disk) (sqlite : Sqlite D) (conf : Authority) where
  -- One round of the loop: the name of a table that is loaded.
  unfoldable pub load_table : TableSpec → D → D × KnowledgeResult (List Bytes)
  unfolding load_one_table
  load_table t d =
      let (d', result) = load_one_table disk sqlite conf.base_dir t conf.csv conf.load d in
      if t.enabled
      then (
        d',
        elim result [
          | KnowledgeResult.err e ↦ KnowledgeResult.err e
          | KnowledgeResult.ok u ↦ KnowledgeResult.ok (t.name ∷ [])
        ],
      )
      else (d, KnowledgeResult.ok [])

  -- The tables in their order, up to the first that fails.
  unfoldable pub load_tables : List TableSpec → D → D × KnowledgeResult (List Bytes)
  unfolding load_table push_front
  load_tables [] d = (d, KnowledgeResult.ok [])
  load_tables (t ∷ tables) d =
      let (d', result) = load_table t d in
      let (after, more) = load_tables tables d' in
      elim result [
        | KnowledgeResult.err e ↦ (d', KnowledgeResult.err e)
        | KnowledgeResult.ok names ↦ (after, push_front names more)
      ]

  unfoldable pub build_authority_from_knowdb : D → D × KnowledgeResult (List Bytes)
  unfolding load_tables
  build_authority_from_knowdb d = load_tables conf.tables d

  unfoldable pub select_columns : TableSpec → Bytes
  unfolding join_names
  select_columns t =
      codes "SELECT " ++ (join_names t.columns.by_header ++ (codes " FROM " ++ t.name))

  -- In the texts of errors a name stands in quotes, with no escapes.
  unfoldable pub query_table :
      TableSpec → D × KnowledgeResult (Unit {0}) → D × KnowledgeResult (List RowData)
  unfolding select_columns
  query_table t (d, KnowledgeResult.err e) = (d, KnowledgeResult.err e)
  query_table t (d, KnowledgeResult.ok u) = (d, sqlite.query (select_columns t) d)

  unfoldable pub reload_table : TableSpec → D → D × KnowledgeResult (List RowData)
  unfolding load_one_table query_table
  reload_table t d = elim t.columns.by_header [
    | [] ↦ (
      d,
      KnowledgeResult.err (
          KnowledgeError.config (
            codes "refresh table \""
            ++ (t.name ++ codes "\" requires columns.by_header for row projection"))),
    )
    | name ∷ names ↦ query_table t (load_one_table disk sqlite conf.base_dir t conf.csv conf.load d)
  ]

  unfoldable pub reload_table_rows : Bytes → D → D × KnowledgeResult (List RowData)
  unfolding find_table reload_table
  reload_table_rows table d = elim (find_table table conf.tables) [
    | none ↦ (
      d,
      KnowledgeResult.err (
          KnowledgeError.config
            (codes "refresh table \"" ++ (table ++ codes "\" not found or disabled"))),
    )
    | some t ↦ reload_table t d
  ]
