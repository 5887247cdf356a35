-- ===== src/ColumnTypes.antt =====
-- Column types: the type<X> constants of binary/v1/types.go, and ColTypes with its lookups in
-- binary/v1/client-result-set.go.
pub mod Lookup
use ignite3_go_client.Base.{
  ℕ, List, [], ◌∷◌, Bool, true, false, Option, none, some, String, ◌==◌, if◌then◌else◌,
}
use ignite3_go_client.Base.Int.{ℤ, pos, negsuc}
use ignite3_go_client.Base.Result.{Result, ok, err, errorf}

-- A type id: one of the constants, or any other number.
pub data TypeId : Type 0 where
  type_null type_boolean type_tinyint type_smallint type_int type_bigint type_real type_double :
      TypeId
  type_decimal type_date type_time type_datetime type_timestamp type_uuid : TypeId
  type_varchar type_varbinary : TypeId
  type_unknown : ℤ → TypeId

-- The kinds of Go's package reflect that the table names. ColTypes gives BOOLEAN the number 1,
-- which is reflect.Bool.
pub data GoKind : Type 0 where
  kind_bool kind_int kind_int8 kind_int16 kind_int32 kind_int64 : GoKind
  kind_float32 kind_float64 kind_array kind_pointer kind_string kind_struct : GoKind

pub record ColumnType : Type 0 where
  pub sql_type_name : String
  pub type_id : ℤ
  pub go_kind : GoKind
  pub precision_allowed : Bool
  pub scale_allowed : Bool
  pub length_allowed : Bool

abbrev pub entry : String → ℕ → GoKind → Bool → Bool → Bool → ColumnType
entry name id kind precision scale len = record {
  sql_type_name = name;
  type_id = pos id;
  go_kind = kind;
  precision_allowed = precision;
  scale_allowed = scale;
  length_allowed = len;
}

abbrev pub col_types : List ColumnType
col_types =
    entry "NULL" 0 kind_pointer false false false
    ∷ entry "BOOLEAN" 1 kind_bool false false false
    ∷ entry "TINYINT" 2 kind_int8 false false false
    ∷ entry "SMALLINT" 3 kind_int16 false false false
    ∷ entry "INT" 4 kind_int32 false false false
    ∷ entry "BIGINT" 5 kind_int64 false false false
    ∷ entry "REAL" 6 kind_float32 false false false
    ∷ entry "DOUBLE" 7 kind_float64 false false false
    ∷ entry "DECIMAL" 8 kind_struct true true false
    ∷ entry "DATE" 9 kind_int false false false
    ∷ entry "TIME" 10 kind_int true false false
    ∷ entry "DATETIME" 11 kind_struct true false false
    ∷ entry "TIMESTAMP" 12 kind_struct true false false
    ∷ entry "UUID" 13 kind_struct false false false
    ∷ entry "VARCHAR" 15 kind_string false false true
    ∷ entry "VARBINARY" 16 kind_array false false true
    ∷ []

-- The value of a constant, and the constant of a number.
abbrev pub id_of : TypeId → ℤ
id_of type_null = pos 0
id_of type_boolean = pos 1
id_of type_tinyint = pos 2
id_of type_smallint = pos 3
id_of type_int = pos 4
id_of type_bigint = pos 5
id_of type_real = pos 6
id_of type_double = pos 7
id_of type_decimal = pos 8
id_of type_date = pos 9
id_of type_time = pos 10
id_of type_datetime = pos 11
id_of type_timestamp = pos 12
id_of type_uuid = pos 13
id_of type_varchar = pos 15
id_of type_varbinary = pos 16
id_of (type_unknown n) = n
