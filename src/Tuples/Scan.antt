-- ===== src/Tuples/Scan.antt =====
-- GetValue, expandIntValue and expandDoubleValue of binary/v1/tuple.go.
pub mod Ranges
pub mod Types
pub mod Written
pub mod Special
pub mod Rows
use ignite3_go_client.Base.{
  ℕ, ◌+◌, ◌*◌, ◌%◌, ◌^◌, List, [], ◌∷◌, Bytes, Bool, true, false, Option, none, some, ltb, ◌==◌,
  length, take, get_elem?, if◌then◌else◌, not,
}
use ignite3_go_client.Base.Int.{ℤ, pos, negsuc, wrap, signed}
use ignite3_go_client.Base.Result.{Result, ok, err, panic, errorf, ◌>>=◌}
use ignite3_go_client.Wire.{from_le}
use ignite3_go_client.Integers.{decode_big_endian}
use ignite3_go_client.Decimals.{decode_unscaled}
use ignite3_go_client.Temporal.{Instant, decode_date, decode_time, decode_timestamp}
use ignite3_go_client.Temporal.Calendar.{Civil, midnight}
use ignite3_go_client.Values.{Decimal}
use ignite3_go_client.Values.Uuids.{flip}
use ignite3_go_client.Tuples.{TypeScaleValue, index}
use ignite3_go_client.ColumnTypes.{
  TypeId, type_null, type_boolean, type_tinyint, type_smallint, type_int, type_bigint, type_real,
  type_double, type_decimal, type_date, type_time, type_datetime, type_timestamp, type_uuid,
  type_varchar, type_varbinary, type_unknown,
}

-- What GetValue returns.
pub data Scanned : Type 0 where
  nil : Scanned
  bool : Bool → Scanned
  int8 int16 int32 int64 : ℤ → Scanned
  float32 float64 : ℕ → Scanned
  decimal : Decimal → Scanned
  civil : Civil → Scanned
  instant : Instant → Scanned
  uuid text bytes : Bytes → Scanned

-- `intN(v)` of an int64, for 2 h values.
abbrev pub narrow : ℕ → ℤ → ℤ
narrow h v = signed h (wrap (h + h) v)

-- Reading `k` bytes of a shorter slice panics.
unfoldable pub prefix_le : ℕ → Bytes → Result ℕ
prefix_le k raw = if ltb (length raw) k then panic else ok (from_le (take k raw))

unfoldable pub expand_double : Bytes → Result Scanned
expand_double raw =
    if length raw == 4
    then ok (float32 (from_le raw))
    else if length raw == 8
    then ok (float64 (from_le raw))
    else err (errorf "Length not implemented for DOUBLE: %d")

-- `raw[:2]` and `raw[2:]`
unfoldable pub scan_decimal : Bytes → Result Scanned
scan_decimal (a ∷ b ∷ raw) = ok (
    decimal (record {
      unscaled = some (decode_unscaled raw);
      scale = signed (2 ^ 15) (from_le (a ∷ b ∷ []));
    }))
scan_decimal _ = panic

unfoldable pub scan_date : Bytes → Result Scanned
scan_date raw = do d ← decode_date raw; ok (civil (midnight d.year d.month d.day))

unfoldable pub scan_datetime : Bytes → ℤ → Result Scanned
scan_datetime raw precision =
    if ltb 6 (length raw)
    then (do
      d ← decode_date raw
      t ← decode_time raw precision
      ok (
          civil (record d {
            hour = t.hour;
            minute = t.minute;
            second = t.second;
            nanosecond = t.nanosecond;
          })))
    else ok (civil (midnight (pos 1) 1 1))

-- `[16]byte(raw)` takes the first sixteen bytes and panics on fewer.
unfoldable pub scan_uuid : Bytes → Result Scanned
scan_uuid raw = if ltb (length raw) 16 then panic else ok (uuid (flip (take 16 raw)))

-- The switch on the requested type, for a payload that is not empty.
unfoldable pub scan_payload : TypeId → ℤ → Bytes → Result Scanned
scan_payload type_null precision raw = ok nil
scan_payload type_boolean precision raw = do b ← index raw 0; ok (bool (not (b == 0)))
scan_payload type_tinyint precision raw = do v ← decode_big_endian raw; ok (int8 (narrow (2 ^ 7) v))
scan_payload type_smallint precision raw = do
  v ← decode_big_endian raw
  ok (int16 (narrow (2 ^ 15) v))
scan_payload type_int precision raw = do v ← decode_big_endian raw; ok (int32 (narrow (2 ^ 31) v))
scan_payload type_bigint precision raw = do v ← decode_big_endian raw; ok (int64 v)
scan_payload type_real precision raw = do b ← prefix_le 4 raw; ok (float32 b)
scan_payload type_double precision raw = expand_double raw
scan_payload type_decimal precision raw = scan_decimal raw
scan_payload type_date precision raw = scan_date raw
scan_payload type_time precision raw = do t ← decode_time raw precision; ok (civil t)
scan_payload type_datetime precision raw = scan_datetime raw precision
scan_payload type_timestamp precision raw = do t ← decode_timestamp raw; ok (instant t)
scan_payload type_uuid precision raw = scan_uuid raw
scan_payload type_varchar precision raw = ok (text raw)
scan_payload type_varbinary precision raw = ok (bytes raw)
scan_payload (type_unknown k) precision raw = err (errorf "Type not implemented : %x")

-- An empty payload is NULL.
unfoldable pub scan : TypeId → ℤ → Bytes → Result Scanned
scan t precision [] = ok nil
scan t precision (b ∷ raw) = scan_payload t precision (b ∷ raw)

abbrev pub tuple_length : List TypeScaleValue → ℕ
tuple_length = length

unfoldable pub scan_elem : TypeId → Option TypeScaleValue → Result Scanned
scan_elem type_null e = ok nil
scan_elem t none = panic
scan_elem t (some v) = scan t v.precision v.value

-- The guard lets the index through that is the number of values.
unfoldable pub get_value : List TypeScaleValue → ℤ → TypeId → Result Scanned
unfolding scan_elem
get_value values (negsuc i) t = err (errorf "Index is invalid")
get_value values (pos i) t =
    if ltb (tuple_length values) i
    then err (errorf "Index is invalid")
    else scan_elem t (get_elem? values i)
