-- ===== src/Tests/Rows.antt =====
-- Whole rows, and the rows of a query.
use ignite3_go_client.Base.{List, [], ◌∷◌, Bytes, ◌≡◌, refl, arith, length, false}
use ignite3_go_client.Base.Int.{pos}
use ignite3_go_client.Base.Result.{ok}
use ignite3_go_client.Wire.{le_bytes}
use ignite3_go_client.Integers.{put_int, decode_big_endian, sign_extend, shift_in}
use ignite3_go_client.BinaryTuple.{
  element, kind_bytes, string_of, varlen_string, entry_log, offset_table, area_loop, append_value,
  build_binary_tuple,
}
use ignite3_go_client.BinaryTuple.Convert.{to_int64}
use ignite3_go_client.BinaryTuple.Layout.{Encodes, area, chosen_log}
use ignite3_go_client.Tuples.{TypeScaleValue, new_tuple, strip_marker}
use ignite3_go_client.Tuples.Elements.{arrange}
use ignite3_go_client.ColumnTypes.{
  type_bigint, type_int, type_varchar, ColumnType, entry, kind_int32, col_types,
}
use ignite3_go_client.BinaryTuple.Sizes.{HasSizes, build_binary_tuple-HasSizes}
use ignite3_go_client.ColumnTypes.Lookup.{get_column_type_by_id, type_of_id}
use ignite3_go_client.Tuples.Scan.{get_value, scan_elem, nil, Scanned}
use ignite3_go_client.Tuples.Scan.Ranges.{HasGoType, get_value-HasGoType}
use ignite3_go_client.ResultSets.Rows.{convert}
use ignite3_go_client.ResultSets.Rows.Types.{IsCellOf, convert-get_value}
use ignite3_go_client.Tuples.Entries.{read_back}
use ignite3_go_client.Tuples.RoundTrip.{new_tuple-build}
use ignite3_go_client.Tuples.Scan
use ignite3_go_client.Tuples.Scan.Rows.{RowWritesAs, oks, read_all, row_round_trip}
use ignite3_go_client.Tests.Samples.{plain_lib, id_and_name, id_and_name_infos, one_row}

abbrev one_row_chunks : List Bytes
one_row_chunks = (0x2c ∷ 1 ∷ []) ∷ (97 ∷ 98 ∷ []) ∷ []

one_row-Encodes : Encodes plain_lib id_and_name one_row one_row_chunks
unfolding element kind_bytes to_int64 put_int string_of varlen_string
one_row-Encodes = (refl, (refl, tt))

-- Header, two offsets, and the values area.
build_one_row :
    build_binary_tuple plain_lib id_and_name one_row ≡ ok (0 ∷ 2 ∷ 4 ∷ 0x2c ∷ 1 ∷ 97 ∷ 98 ∷ [])
unfolding build_binary_tuple area_loop append_value entry_log offset_table le_bytes element
    kind_bytes to_int64 put_int string_of varlen_string
build_one_row = refl

new_tuple-build_example :
    (out : Bytes) × (build_binary_tuple plain_lib id_and_name one_row ≡ ok out)
    × (new_tuple id_and_name_infos out ≡ ok (read_back id_and_name_infos one_row_chunks))
new_tuple-build_example =
    new_tuple-build plain_lib id_and_name one_row one_row_chunks id_and_name_infos one_row-Encodes
      refl (omega arith) (omega arith)

abbrev one_row_read : List Scanned
one_row_read = Scan.int32 (pos 300) ∷ Scan.text (97 ∷ 98 ∷ []) ∷ []

abbrev three_hundred : Bytes
three_hundred = 0x2c ∷ 1 ∷ []

abbrev letters : Bytes
letters = 97 ∷ 98 ∷ []

reads_300 : Scan.scan type_int (pos 0) (arrange type_int three_hundred) ≡ ok (Scan.int32 (pos 300))
unfolding Scan.scan Scan.scan_payload arrange decode_big_endian sign_extend shift_in
reads_300 = refl

reads_letters :
    Scan.scan type_varchar (pos 0) (arrange type_varchar letters) ≡ ok (Scan.text letters)
unfolding Scan.scan Scan.scan_payload arrange strip_marker
reads_letters = refl

abbrev one_row_written : RowWritesAs plain_lib id_and_name id_and_name_infos one_row one_row_read
one_row_written = (
  (three_hundred, one_row-Encodes.0, reads_300),
  ((letters, one_row-Encodes.1.0, reads_letters), tt),
)

row_round_trip_example :
    (out : Bytes) × (values : List TypeScaleValue) × (build_binary_tuple plain_lib id_and_name
        one_row
      ≡ ok out)
    × (new_tuple id_and_name_infos out ≡ ok values)
    × (read_all values 0 id_and_name_infos ≡ oks one_row_read)
row_round_trip_example =
    row_round_trip plain_lib id_and_name id_and_name_infos one_row one_row_read one_row_written
      (omega arith) (omega arith)

build_binary_tuple-HasSizes_example :
    (chunks : List Bytes) × Encodes plain_lib id_and_name one_row chunks
    × (length chunks ≡ 2)
    × HasSizes (chosen_log (length (area chunks))) chunks (0 ∷ 2 ∷ 4 ∷ 0x2c ∷ 1 ∷ 97 ∷ 98 ∷ [])
build_binary_tuple-HasSizes_example =
    build_binary_tuple-HasSizes plain_lib id_and_name one_row (0 ∷ 2 ∷ 4 ∷ 0x2c ∷ 1 ∷ 97 ∷ 98 ∷ [])
      build_one_row

-- The bytes as the reader has them, in big-endian order.
abbrev elements : List TypeScaleValue
elements =
    record { type_id = type_int; scale = pos 0; precision = pos 0; value = 1 ∷ 0x2c ∷ [] } ∷ []

value_300 : get_value elements (pos 0) type_int ≡ ok (Scan.int32 (pos 300))
unfolding get_value Scan.scan Scan.scan_payload decode_big_endian sign_extend shift_in
value_300 = refl

long_300 : get_value elements (pos 0) type_bigint ≡ ok (Scan.int64 (pos 300))
unfolding get_value Scan.scan Scan.scan_payload decode_big_endian sign_extend shift_in
long_300 = refl

get_value-HasGoType_example : HasGoType (Scan.int64 (pos 300)) type_bigint
get_value-HasGoType_example =
    get_value-HasGoType elements (pos 0) type_bigint (Scan.int64 (pos 300))
      ((omega arith, (omega arith, tt)), tt) long_300

abbrev int_type : ColumnType
int_type = entry "INT" 4 kind_int32 false false false

int_found : get_column_type_by_id col_types (pos 4) ≡ ok int_type
unfolding get_column_type_by_id
int_found = refl

value_of_column : get_value elements (pos 0) (type_of_id (pos 4)) ≡ ok (Scan.int32 (pos 300))
unfolding type_of_id
value_of_column = value_300

convert-get_value_example :
    IsCellOf (Scan.int32 (pos 300)) (convert int_type (Scan.int32 (pos 300)))
convert-get_value_example =
    convert-get_value (pos 4) int_type elements (pos 0) (Scan.int32 (pos 300)) int_found
      value_of_column (λ e. cc)
