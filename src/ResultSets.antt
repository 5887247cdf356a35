-- ===== src/ResultSets.antt =====
-- Result sets: ResultSetMetadata and its lookups in binary/v1/client-result-set.go.
pub mod Metadata
pub mod Rows
use ignite3_go_client.Base.{
  ℕ, List, [], ◌∷◌, Bool, true, false, Option, none, some, String, if◌then◌else◌,
}
use ignite3_go_client.Base.Int.{ℤ, pos, negsuc}
use ignite3_go_client.Base.Result.{Result, ok, err, panic, errorf}
use ignite3_go_client.ColumnTypes.{ColumnType}
use ignite3_go_client.ColumnTypes.Lookup.{same_int}

pub record ColumnOrigin : Type 0 where
  pub schema : String
  pub table : String
  pub column : String

pub record ColumnMetadata : Type 0 where
  pub name : String
  pub nullable : Bool
  pub column_type : ColumnType
  pub precision : ℤ
  pub scale : ℤ
  pub index : ℤ
  pub origin : Option ColumnOrigin

unfoldable pub index_of : (String → String → Bool) → List ColumnMetadata → String → ℤ
index_of equal_fold [] column = negsuc 0
index_of equal_fold (c ∷ cs) column =
    let rest = index_of equal_fold cs column in if equal_fold c.name column then c.index else rest

-- `c.Origin.Column` of a column without an origin is a nil dereference.
unfoldable pub origin_column : Option ColumnOrigin → Result String
origin_column none = panic
origin_column (some o) = ok o.column

unfoldable pub origin_schema : Option ColumnOrigin → Result String
origin_schema none = panic
origin_schema (some o) = ok o.schema

unfoldable pub origin_table : Option ColumnOrigin → Result String
origin_table none = panic
origin_table (some o) = ok o.table

unfoldable pub get_column_origin_name_by_id : List ColumnMetadata → ℤ → Result String
get_column_origin_name_by_id [] i = err (errorf "failed to find column origin name from index")
get_column_origin_name_by_id (c ∷ cs) i =
    let rest = get_column_origin_name_by_id cs i in
    if same_int c.index i then origin_column c.origin else rest

unfoldable pub get_schema_origin_name_by_id : List ColumnMetadata → ℤ → Result String
get_schema_origin_name_by_id [] i = err (errorf "failed to find column origin schema from index")
get_schema_origin_name_by_id (c ∷ cs) i =
    let rest = get_schema_origin_name_by_id cs i in
    if same_int c.index i then origin_schema c.origin else rest

unfoldable pub get_table_origin_name_by_id : List ColumnMetadata → ℤ → Result String
get_table_origin_name_by_id [] i = err (errorf "failed to find column origin table from index")
get_table_origin_name_by_id (c ∷ cs) i =
    let rest = get_table_origin_name_by_id cs i in
    if same_int c.index i then origin_table c.origin else rest

unfoldable pub get_column_type : List ColumnMetadata → ℤ → Result ColumnType
get_column_type [] i = err (errorf "failed to find column type by id")
get_column_type (c ∷ cs) i =
    let rest = get_column_type cs i in if same_int c.index i then ok c.column_type else rest

unfoldable pub get_column_precision_by_id : List ColumnMetadata → ℤ → Result ℤ
get_column_precision_by_id [] i = err (errorf "failed to find column precision by id")
get_column_precision_by_id (c ∷ cs) i =
    let rest = get_column_precision_by_id cs i in
    if same_int c.index i then ok c.precision else rest

unfoldable pub get_column_scale_by_id : List ColumnMetadata → ℤ → Result ℤ
get_column_scale_by_id [] i = err (errorf "failed to find column scale by id")
get_column_scale_by_id (c ∷ cs) i =
    let rest = get_column_scale_by_id cs i in if same_int c.index i then ok c.scale else rest
