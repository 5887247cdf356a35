-- ===== src/Tests/Tuples.antt =====
-- Single elements of binary tuples, and SQL arguments.
use ignite3_go_client.Base.{List, [], ◌∷◌, Bytes, ◌≡◌, ◌⊎◌, ◌↔◌, refl, arith}
use ignite3_go_client.Base.Int.{pos}
use ignite3_go_client.Base.Result.{ok}
use ignite3_go_client.Integers.Kinds.{bt_null, bt_int32, bt_timestamp}
use ignite3_go_client.Values.{Value}
use ignite3_go_client.Wire.{le_bytes}
use ignite3_go_client.Integers.{put_int, encode_int_le}
use ignite3_go_client.BinaryTuple.{element, kind_bytes}
use ignite3_go_client.BinaryTuple.Convert.{to_int64}
use ignite3_go_client.BinaryTuple.Nulls.{element-empty_iff}
use ignite3_go_client.Tuples.{ColumnInfo, TypeScaleValue, new_tuple}
use ignite3_go_client.Tuples.Entries.{read_back}
use ignite3_go_client.Tuples.Scan
use ignite3_go_client.Tuples.Scan.{scan}
use ignite3_go_client.Tuples.Scan.Written.{column, WritesAs}
use ignite3_go_client.Tuples.Scan.Special.{scan-timestamp}
use ignite3_go_client.ColumnTypes.{type_timestamp, type_boolean}
use ignite3_go_client.Arguments.{
  scale_length, total_length, get_length, set_int32, set_string, bytes,
}
use ignite3_go_client.Arguments.Layout.{pieces, Plain, new_tuple-bytes}
use ignite3_go_client.Tests.Samples.{plain_lib, leap_day}

abbrev three_hundred : Bytes
three_hundred = 0x2c ∷ 1 ∷ []

writes_300 : element plain_lib (column bt_int32 (pos 0)) (Value.int64 (pos 300)) ≡ ok three_hundred
unfolding element kind_bytes to_int64 put_int
writes_300 = refl

element-empty_iff_example :
    (three_hundred ≡ []) ↔ ((Value.int64 (pos 300) ≡ Value.nil) ⊎ (bt_int32 ≡ bt_null))
element-empty_iff_example =
    element-empty_iff plain_lib (column bt_int32 (pos 0)) (Value.int64 (pos 300)) three_hundred
      writes_300

scan-timestamp_example :
    WritesAs plain_lib
      (column bt_timestamp (pos 0))
      (Value.timestamp (leap_day 500))
      type_timestamp
      (pos 9)
      (Scan.instant (record { unix = pos 1709212455; nanosecond = 500 }))
scan-timestamp_example =
    scan-timestamp plain_lib (pos 0) (pos 9) (leap_day 500) (omega arith) (omega arith)
      (omega arith)

abbrev flag : ColumnInfo
flag = record { type_id = type_boolean; scale = pos 0; precision = pos 0 }

abbrev six_flags : List ColumnInfo
six_flags = flag ∷ flag ∷ flag ∷ flag ∷ flag ∷ flag ∷ []

abbrev two_arguments : List TypeScaleValue
two_arguments = set_int32 (pos 300) ∷ set_string (97 ∷ []) ∷ []

two_arguments-Plain : Plain two_arguments
unfolding set_int32 set_string scale_length
two_arguments-Plain = (refl, refl, (refl, refl, tt))

two_arguments-length : total_length two_arguments ≡ 7
unfolding total_length get_length scale_length set_int32 set_string encode_int_le le_bytes
two_arguments-length = refl

new_tuple-bytes_example :
    new_tuple six_flags (bytes two_arguments) ≡ ok (read_back six_flags (pieces two_arguments))
new_tuple-bytes_example =
    new_tuple-bytes two_arguments six_flags two_arguments-Plain refl (omega arith)
      (omega (arith, two_arguments-length))
