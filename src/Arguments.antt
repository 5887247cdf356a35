-- ===== src/Arguments.antt =====
-- SQL arguments: AddValue, the set functions and Bytes of Tuple in binary/v1/tuple.go. A value takes
-- three elements of the tuple: its type, its scale and its payload.
pub mod Layout
pub mod Reads
pub mod Nulls
use ignite3_go_client.Base.{
  ℕ, ◌+◌, ◌*◌, ◌/◌, ◌-◌, ◌^◌, List, [], ◌∷◌, ◌++◌, Bytes, Bool, true, false, ltb, ◌==◌, length,
  if◌then◌else◌,
}
use ignite3_go_client.Base.Int.{ℤ, pos, negsuc, wrap}
use ignite3_go_client.Base.Result.{Result, ok, err, panic, errorf, ◌>>=◌}
use ignite3_go_client.Wire.{le_bytes}
use ignite3_go_client.Integers.{encode_int_le}
use ignite3_go_client.Decimals.{encode_decimal_unscaled}
use ignite3_go_client.Values
use ignite3_go_client.Values.{Value, Time, Decimal}
use ignite3_go_client.Values.Uuids.{flip}
use ignite3_go_client.BinaryTuple.{date_bytes, time_bytes}
use ignite3_go_client.Tuples.{TypeScaleValue}
use ignite3_go_client.ColumnTypes.{
  TypeId, type_null, type_boolean, type_tinyint, type_smallint, type_int, type_bigint, type_real,
  type_double, type_decimal, type_date, type_time, type_datetime, type_timestamp, type_uuid,
  type_varchar, type_varbinary, id_of,
}

abbrev pub tsv : TypeId → ℤ → Bytes → TypeScaleValue
tsv t s v = record { type_id = t; scale = s; precision = pos 0; value = v }

unfoldable pub set_nil : TypeScaleValue
set_nil = tsv type_null (pos 0) []

unfoldable pub set_bool : Bool → TypeScaleValue
set_bool b = tsv type_boolean (pos 0) ((if b then 1 else 0) ∷ [])

unfoldable pub set_byte : ℕ → TypeScaleValue
set_byte b = tsv type_tinyint (pos 0) (b ∷ [])

unfoldable pub set_byte_array : Bytes → TypeScaleValue
set_byte_array b = tsv type_varbinary (pos 0) b

unfoldable pub set_string : Bytes → TypeScaleValue
set_string b = tsv type_varchar (pos 0) b

unfoldable pub set_int8 : ℤ → TypeScaleValue
set_int8 v = set_byte (wrap (2 ^ 8) v)

unfoldable pub set_int16 : ℤ → TypeScaleValue
set_int16 v = tsv type_smallint (pos 0) (encode_int_le v)

unfoldable pub set_int32 : ℤ → TypeScaleValue
set_int32 v = tsv type_int (pos 0) (encode_int_le v)

unfoldable pub set_int64 : ℤ → TypeScaleValue
set_int64 v = tsv type_bigint (pos 0) (encode_int_le v)

unfoldable pub set_float32 : ℕ → TypeScaleValue
set_float32 v = tsv type_real (pos 0) (le_bytes 4 v)

unfoldable pub set_float64 : ℕ → TypeScaleValue
set_float64 v = tsv type_double (pos 0) (le_bytes 8 v)

abbrev pub above_int16 : ℤ → Bool
above_int16 (pos n) = ltb (2 ^ 15 - 1) n
above_int16 (negsuc n) = false

abbrev pub below_int16 : ℤ → Bool
below_int16 (pos n) = false
below_int16 (negsuc n) = ltb (2 ^ 15 - 1) n

unfoldable pub set_decimal : Decimal → Result TypeScaleValue
set_decimal d =
    if above_int16 d.scale
    then err (errorf "Decimal scale is too large")
    else if below_int16 d.scale
    then err (errorf "Decimal scale is too small")
    else (do
      b ← encode_decimal_unscaled d.unscaled
      ok (tsv type_decimal d.scale (le_bytes 2 (wrap (2 ^ 16) d.scale) ++ b)))

-- Flip, to write it on the wire.
unfoldable pub set_uuid : Bytes → TypeScaleValue
set_uuid u = tsv type_uuid (pos 0) (flip u)

unfoldable pub set_date_time : Time → Result TypeScaleValue
set_date_time t = do d ← date_bytes t; b ← time_bytes t; ok (tsv type_datetime (pos 0) (d ++ b))

-- The seconds as an int64, then the nanoseconds as an int32.
unfoldable pub set_timestamp : Time → TypeScaleValue
set_timestamp t =
    tsv type_timestamp (pos 0) (le_bytes 8 (wrap (2 ^ 64) t.unix) ++ le_bytes 4 t.civil.nanosecond)

unfoldable pub set_date : Time → Result TypeScaleValue
set_date t = do d ← date_bytes t; ok (tsv type_date (pos 0) d)

unfoldable pub set_time : Time → Result TypeScaleValue
set_time t = do b ← time_bytes t; ok (tsv type_time (pos 0) b)

-- The type switch of AddValue.
unfoldable pub argument : Value → Result TypeScaleValue
argument (Value.int n) = ok (set_int64 n)
argument (Value.int64 n) = ok (set_int64 n)
argument (Value.int32 n) = ok (set_int32 n)
argument (Value.int16 n) = ok (set_int16 n)
argument (Value.int8 n) = ok (set_int8 n)
argument (Value.float64 f) = ok (set_float64 f)
argument (Value.float32 f) = ok (set_float32 f)
argument (Value.bool b) = ok (set_bool b)
argument (Value.uint8 b) = ok (set_byte b)
argument (Value.bytes b) = ok (set_byte_array b)
argument (Value.text b) = ok (set_string b)
argument (Value.decimal d) = set_decimal d
argument (Value.uuid u) = ok (set_uuid u)
argument (Value.date_time t) = set_date_time t
argument (Value.date t) = set_date t
argument (Value.time t) = set_time t
argument (Value.timestamp t) = ok (set_timestamp t)
argument Value.nil = ok set_nil
argument _ = err (errorf "Unsupported type: %T")

unfoldable pub add_value : List TypeScaleValue → Value → Result (List TypeScaleValue)
add_value values v = do t ← argument v; ok (values ++ t ∷ [])

-- `s < math.MaxUint8` of an int16.
unfoldable pub scale_length : ℤ → ℕ
scale_length (pos n) = if ltb n 255 then 1 else 2
scale_length (negsuc n) = 1

abbrev pub is_null : TypeId → Bool
is_null type_null = true
is_null _ = false

unfoldable pub get_length : TypeScaleValue → ℕ
get_length v = if is_null v.type_id then 0 else 1 + scale_length v.scale + length v.value

unfoldable pub total_length : List TypeScaleValue → ℕ
total_length [] = 0
total_length (v ∷ vs) = get_length v + total_length vs

unfoldable pub entry_size : ℕ → ℕ
entry_size total =
    if ltb total (2 ^ 8 - 1)
    then 1
    else if ltb total (2 ^ 16 - 1)
    then 2
    else if ltb total (2 ^ 32 - 1)
    then 4
    else 8

-- `t >> 1`, and 3 for 8.
unfoldable pub to_header : ℕ → ℕ
to_header t = if t == 8 then 3 else t / 2

-- Three entries for each value; `byte`, `uint16` and the others keep the low bytes.
unfoldable pub offsets : ℕ → ℕ → List TypeScaleValue → Bytes
offsets size prev [] = []
offsets size prev (v ∷ vs) =
    le_bytes size (prev + 1)
    ++ (le_bytes size (prev + 2)
        ++ (le_bytes size (prev + get_length v) ++ offsets size (prev + get_length v) vs))

unfoldable pub scale_bytes : ℤ → Bytes
scale_bytes s = le_bytes (scale_length s) (wrap (2 ^ 16) s)

unfoldable pub payloads : List TypeScaleValue → Bytes
payloads [] = []
payloads (v ∷ vs) =
    wrap (2 ^ 8) (id_of v.type_id) ∷ (scale_bytes v.scale ++ (v.value ++ payloads vs))

unfoldable pub bytes : List TypeScaleValue → Bytes
bytes values =
    let size = entry_size (total_length values) in
    to_header size ∷ (offsets size 0 values ++ payloads values)
