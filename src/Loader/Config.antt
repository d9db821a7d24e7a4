-- ===== src/Loader/Config.antt =====
-- `src/loader.rs`: what the configuration says of the tables, with its defaults.
use wp_knowledge.Base.{ℕ, Bool, true, List, Option, Bytes}
use wp_knowledge.Base.Text.{codes}

pub data OnError : Type 0 where
  fail skip : OnError

pub record OptLoadSpec : Type 0 where
  pub transaction : Bool
  pub batch_size : ℕ
  pub on_error : OnError

pub record CsvSpec : Type 0 where
  pub has_header : Bool
  pub delimiter : Bytes
  pub encoding : Bytes
  pub trim : Bool

-- Lists of the names of columns, and of their positions.
pub record ColumnsSpec : Type 0 where
  pub by_header : List Bytes
  pub by_index : List ℕ

pub record RowExpect : Type 0 where
  pub min : Option ℕ
  pub max : Option ℕ

pub record TableSpec : Type 0 where
  pub name : Bytes
  pub dir : Option Bytes
  pub data_file : Option Bytes
  pub columns : ColumnsSpec
  pub expected_rows : RowExpect
  pub enabled : Bool

unfoldable pub default_load : OptLoadSpec
default_load = record { transaction = true; batch_size = 2000; on_error = OnError.fail }

unfoldable pub default_csv : CsvSpec
default_csv = record {
  has_header = true;
  delimiter = codes ",";
  encoding = codes "utf-8";
  trim = true;
}
