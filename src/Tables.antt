-- ===== src/Tables.antt =====
-- Table schemas and tuple operations: binary/v1/client-schemas.go (TableColumn, TableSchema, KeyColumns,
-- columnKindForTypeId) and binary/v1/client-tuple-operations.go. `to_upper` is strings.ToUpper, `sort`
-- is sort.Slice, and Packer holds the msgpack encoders.
pub mod Keys
pub mod Received
pub mod Schemas
pub mod Sends
pub mod Writes
use text.Mathlib.Text.{◌==◌ as str_eq}
use ignite3_go_client.Base.{
  ℕ, suc, ◌+◌, List, [], ◌∷◌, ◌++◌, Bytes, Bool, true, false, Option, none, some, String, ltb,
  length, if◌then◌else◌,
}
use ignite3_go_client.Base.Int.{ℤ, pos, negsuc}
use ignite3_go_client.Base.Result.{Result, ok, err, panic, or_wrap, ◌>>=◌}
use ignite3_go_client.Integers.Kinds.{
  Kind, bt_null, bt_boolean, bt_int8, bt_int16, bt_int32, bt_int64, bt_float, bt_double, bt_decimal,
  bt_date, bt_time, bt_date_time, bt_timestamp, bt_uuid, bt_string, bt_bytes,
}
use ignite3_go_client.Values
use ignite3_go_client.Values.{Value, GoLib}
use ignite3_go_client.BinaryTuple.{BinaryTupleColumn, build_binary_tuple}
use ignite3_go_client.ColumnTypes.{
  TypeId, type_boolean, type_tinyint, type_smallint, type_int, type_bigint, type_real, type_double,
  type_decimal, type_date, type_time, type_datetime, type_timestamp, type_uuid, type_varchar,
  type_varbinary,
}

pub record TableColumn : Type 0 where
  pub name : String
  pub type_id : TypeId
  pub kind : Kind
  pub key_index : ℤ
  pub key : Bool
  pub nullable : Bool
  pub scale : ℤ
  pub precision : ℤ

pub record TableSchema : Type 0 where
  pub version : ℤ
  pub columns : List TableColumn

pub record Table : Type 0 where
  pub id : ℤ
  pub name : String
  pub schema : TableSchema

abbrev pub key_only : List TableColumn → List TableColumn
key_only [] = []
key_only (c ∷ cs) = let rest = key_only cs in if c.key then c ∷ rest else rest

abbrev pub less : ℤ → ℤ → Bool
less (pos a) (pos b) = ltb a b
less (pos a) (negsuc b) = false
less (negsuc a) (pos b) = true
less (negsuc a) (negsuc b) = ltb b a

abbrev pub Sort : Type 0
Sort = (TableColumn → TableColumn → Bool) → List TableColumn → List TableColumn

abbrev pub by_key_index : TableColumn → TableColumn → Bool
by_key_index a b = less a.key_index b.key_index

unfoldable pub key_columns : Sort → TableSchema → List TableColumn
key_columns sort s = sort by_key_index (key_only s.columns)

unfoldable pub column_kind_for_type_id : TypeId → Kind
column_kind_for_type_id type_boolean = bt_boolean
column_kind_for_type_id type_tinyint = bt_int8
column_kind_for_type_id type_smallint = bt_int16
column_kind_for_type_id type_int = bt_int32
column_kind_for_type_id type_bigint = bt_int64
column_kind_for_type_id type_real = bt_float
column_kind_for_type_id type_double = bt_double
column_kind_for_type_id type_decimal = bt_decimal
column_kind_for_type_id type_date = bt_date
column_kind_for_type_id type_time = bt_time
column_kind_for_type_id type_datetime = bt_date_time
column_kind_for_type_id type_timestamp = bt_timestamp
column_kind_for_type_id type_uuid = bt_uuid
column_kind_for_type_id type_varchar = bt_string
column_kind_for_type_id type_varbinary = bt_bytes
column_kind_for_type_id _ = bt_null

-- A `map[string]interface{}` in the order in which `range` runs over it.
abbrev pub Row : Type 0
Row = List (String × Value)

-- `lookup[strings.ToUpper(k)] = v`; a missing key gives nil.
unfoldable pub fill : (String → String) → Row → (String → Value) → String → Value
fill to_upper [] m name = m name
fill to_upper ((k, v) ∷ row) m name =
    fill to_upper row (λ s. if str_eq s (to_upper k) then v else m s) name

unfoldable pub values_of : (String → String) → (String → Value) → List TableColumn → List Value
values_of to_upper lookup [] = []
values_of to_upper lookup (c ∷ cs) = lookup (to_upper c.name) ∷ values_of to_upper lookup cs

unfoldable pub tuple_columns : List TableColumn → List BinaryTupleColumn
tuple_columns [] = []
tuple_columns (c ∷ cs) = record { kind = c.kind; scale = c.scale } ∷ tuple_columns cs

unfoldable pub build_tuple :
    GoLib → (String → String) → Sort → TableSchema → Row → Bool → Result Bytes
build_tuple lib to_upper sort s row only =
    let columns = if only then key_columns sort s else s.columns in
    build_binary_tuple lib (tuple_columns columns)
      (values_of to_upper (fill to_upper row (λ _. Value.nil)) columns)

-- `for i, row := range rows`
unfoldable pub encode_rows :
    GoLib → (String → String) → Sort → TableSchema → Bool → String → List Row → Result (List Bytes)
encode_rows lib to_upper sort s only m [] = ok []
encode_rows lib to_upper sort s only m (row ∷ rows) = do
  tuple ← or_wrap m (build_tuple lib to_upper sort s row only)
  more ← encode_rows lib to_upper sort s only m rows
  ok (tuple ∷ more)

pub data OpCode : Type 0 where
  op_tuple_upsert_all op_tuple_delete_all : OpCode

abbrev pub number_of : OpCode → ℤ
number_of op_tuple_upsert_all = pos 13
number_of op_tuple_delete_all = pos 29

-- The msgpack encodings of an integer, of nil and of a byte string.
pub record Packer : Type 0 where
  pub pack_int64 : ℤ → Bytes
  pub pack_null : Bytes
  pub pack_bytes : Bytes → Bytes

-- An ext8 header of length 0 and of the type of a bit mask.
abbrev pub packed_empty_bit_set : Bytes
packed_empty_bit_set = 0xc7 ∷ 0x00 ∷ 8 ∷ []

unfoldable pub packed_tuples : Packer → List Bytes → Bytes
packed_tuples p [] = []
packed_tuples p (t ∷ ts) = packed_empty_bit_set ++ (p.pack_bytes t ++ packed_tuples p ts)

-- An operation to be sent, with its payload.
pub record Operation : Type 0 where
  pub code : OpCode
  pub data_bytes : Bytes

-- Nothing is sent for no tuples.
unfoldable pub tuple_write_all : Packer → OpCode → ℤ → ℤ → List Bytes → Option Operation
tuple_write_all p code table_id version [] = none
tuple_write_all p code table_id version (t ∷ ts) = some (record {
  code = code;
  data_bytes =
      p.pack_int64 table_id
      ++ (p.pack_null
          ++ (p.pack_int64 version
              ++ (p.pack_int64 (pos (length (t ∷ ts))) ++ packed_tuples p (t ∷ ts))));
})

unfoldable pub upsert_all :
    GoLib → (String → String) → Sort → Packer → Table → List Row → Result (Option Operation)
upsert_all lib to_upper sort p t [] = ok none
upsert_all lib to_upper sort p t (row ∷ rows) = do
  tuples ← encode_rows lib to_upper sort t.schema false "failed to encode row %d" (row ∷ rows)
  ok (tuple_write_all p op_tuple_upsert_all t.id t.schema.version tuples)

unfoldable pub delete_all :
    GoLib → (String → String) → Sort → Packer → Table → List Row → Result (Option Operation)
delete_all lib to_upper sort p t [] = ok none
delete_all lib to_upper sort p t (key ∷ keys) = do
  tuples ← encode_rows lib to_upper sort t.schema true "failed to encode key %d" (key ∷ keys)
  ok (tuple_write_all p op_tuple_delete_all t.id t.schema.version tuples)
