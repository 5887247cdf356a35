-- ===== src/BinaryTuple.antt =====
-- BuildBinaryTuple of binary/v1/binary-tuple.go: the encoder of rows and keys.
pub mod Convert
pub mod Layout
pub mod Nulls
pub mod Sizes
use Convert.{to_bool, to_int64, to_float64, to_decimal, to_time}
use ignite3_go_client.Base.{
  ℕ, zero, suc, ◌+◌, ◌-◌, ◌*◌, ◌/◌, ◌%◌, ◌^◌, List, [], ◌∷◌, ◌++◌, Bytes, Bool, Option, none, some,
  leb, ltb, ◌==◌, not, ◌||◌, length, take, drop, if◌then◌else◌,
}
use ignite3_go_client.Base.Int.{ℤ, pos, wrap}
use ignite3_go_client.Base.Result.{Result, ok, err, panic, errorf, wrapf, or_wrap, ◌>>=◌}
use ignite3_go_client.Wire.{le_bytes, from_le}
use ignite3_go_client.Integers.{put_int}
use ignite3_go_client.Integers.Kinds.{
  Kind, bt_null, bt_boolean, bt_int8, bt_int16, bt_int32, bt_int64, bt_float, bt_double, bt_decimal,
  bt_date, bt_time, bt_date_time, bt_timestamp, bt_uuid, bt_string, bt_bytes, unknown,
}
use ignite3_go_client.Decimals.{twos_complement_bytes}
use ignite3_go_client.Temporal.{encode_date, encode_time}
use ignite3_go_client.Temporal.Calendar.{Civil}
use ignite3_go_client.Values.{Value, Time, Decimal, GoLib, nil, text, bytes, uuid, uuid_ptr}

pub record BinaryTupleColumn : Type 0 where
  pub kind : Kind
  pub scale : ℤ

unfoldable pub date_bytes : Time → Result Bytes
date_bytes t = encode_date t.civil.year (pos t.civil.month) (pos t.civil.day)

unfoldable pub time_bytes : Time → Result Bytes
time_bytes t =
    encode_time (pos t.civil.hour) (pos t.civil.minute) (pos t.civil.second)
      (pos t.civil.nanosecond)

unfoldable pub uuid_of : Value → Result Bytes
uuid_of (uuid u) = ok u
uuid_of (uuid_ptr (some u)) = ok u
uuid_of _ = err (errorf "cannot convert %T to UUID")

-- `LittleEndian.Uint64` of a half, and its eight bytes again.
abbrev pub half : Bytes → Bytes
half u = le_bytes 8 (from_le (take 8 u))

unfoldable pub bytes_of : Value → Result Bytes
bytes_of (bytes b) = ok b
bytes_of (text b) = ok b
bytes_of _ = err (errorf "cannot convert %T to byte array")

unfoldable pub string_of : GoLib → Value → Bytes
string_of lib (text b) = b
string_of lib v = lib.sprint v

-- An empty string is written as one byte 0x80.
unfoldable pub varlen_string : Bytes → Bytes
varlen_string [] = 0x80 ∷ []
varlen_string (b ∷ bs) = b ∷ bs

-- 0x80 is put before an empty payload and before one that starts with 0x80.
unfoldable pub varlen_bytes : Bytes → Bytes
varlen_bytes [] = 0x80 ∷ []
varlen_bytes (b ∷ bs) = if b == 0x80 then 0x80 ∷ b ∷ bs else b ∷ bs

unfoldable pub float_bytes : GoLib → ℕ → Bytes
float_bytes lib f = le_bytes 4 (lib.narrow f)

-- Four bytes where the value is exactly representable in them.
unfoldable pub double_bytes : GoLib → ℕ → Bytes
double_bytes lib f =
    if lib.f64_eq (lib.widen (lib.narrow f)) f then le_bytes 4 (lib.narrow f) else le_bytes 8 f

unfoldable pub timestamp_bytes : Time → Bytes
timestamp_bytes t =
    let ns = t.civil.nanosecond in
    le_bytes 8 (wrap (2 ^ 64) t.unix) ++ (if ns == 0 then [] else le_bytes 4 (ns % 2 ^ 32))

unfoldable pub decimal_bytes : Decimal → Bytes
decimal_bytes d = le_bytes 2 (wrap (2 ^ 16) d.scale) ++ twos_complement_bytes d.unscaled

-- What a value that is not nil writes into a column of each kind.
unfoldable pub kind_bytes : GoLib → Kind → ℤ → Value → Result Bytes
kind_bytes lib bt_null scale v = ok []
kind_bytes lib bt_boolean scale v = do b ← to_bool lib v; ok ((if b then 1 else 0) ∷ [])
kind_bytes lib bt_int8 scale v = do n ← to_int64 lib v; put_int [] bt_int8 n
kind_bytes lib bt_int16 scale v = do n ← to_int64 lib v; put_int [] bt_int16 n
kind_bytes lib bt_int32 scale v = do n ← to_int64 lib v; put_int [] bt_int32 n
kind_bytes lib bt_int64 scale v = do n ← to_int64 lib v; put_int [] bt_int64 n
kind_bytes lib bt_float scale v = do f ← to_float64 lib v; ok (float_bytes lib f)
kind_bytes lib bt_double scale v = do f ← to_float64 lib v; ok (double_bytes lib f)
kind_bytes lib bt_decimal scale v = do d ← to_decimal lib scale v; ok (decimal_bytes d)
kind_bytes lib bt_date scale v = do t ← to_time lib v; date_bytes t
kind_bytes lib bt_time scale v = do t ← to_time lib v; time_bytes t
kind_bytes lib bt_date_time scale v = do
  t ← to_time lib v
  d ← date_bytes t
  b ← time_bytes t
  ok (d ++ b)
kind_bytes lib bt_timestamp scale v = do t ← to_time lib v; ok (timestamp_bytes t)
kind_bytes lib bt_uuid scale v = do u ← uuid_of v; ok (half u ++ half (drop 8 u))
kind_bytes lib bt_string scale v = ok (varlen_string (string_of lib v))
kind_bytes lib bt_bytes scale v = do b ← bytes_of v; ok (varlen_bytes b)
kind_bytes lib (unknown k) scale v = err (errorf "unsupported binary tuple kind: %d")

-- NULL: zero bytes.
unfoldable pub element : GoLib → BinaryTupleColumn → Value → Result Bytes
element lib col nil = ok []
element lib col v = kind_bytes lib col.kind col.scale v

-- appendBinaryTupleValue only appends; on an error the caller drops the buffer.
unfoldable pub append_value : GoLib → Bytes → BinaryTupleColumn → Value → Result Bytes
append_value lib buf col v = do p ← element lib col v; ok (buf ++ p)

-- `for i, col := range cols`: the value area, and behind it the end offsets, as int32 patterns.
unfoldable pub area_loop :
    GoLib → List BinaryTupleColumn → List Value → Bytes → List ℕ → Result (Bytes × List ℕ)
area_loop lib [] vals buf offsets = ok (buf, offsets)
area_loop lib (c ∷ cs) [] buf offsets = panic
area_loop lib (c ∷ cs) (v ∷ vs) buf offsets = do
  buf' ← or_wrap "binary tuple: column %d" (append_value lib buf c v)
  area_loop lib cs vs buf' (offsets ++ (length buf' % 2 ^ 32) ∷ [])

-- log2 of the entry size, from the length of the value area.
unfoldable pub entry_log : ℕ → Result ℕ
entry_log len =
    if leb len 0xff
    then ok 0
    else if leb len 0xffff
    then ok 1
    else if leb len (2 ^ 31 - 1)
    then ok 2
    else err (errorf "binary tuple: value area is too big: %d bytes")

-- `append(out, raw[:entrySize]...)` for each offset
unfoldable pub offset_table : ℕ → List ℕ → Bytes
offset_table size [] = []
offset_table size (o ∷ os) = take size (le_bytes 4 o) ++ offset_table size os

abbrev pub count : {A : Type 0} → List A → ℕ
count = length

unfoldable pub build_binary_tuple : GoLib → List BinaryTupleColumn → List Value → Result Bytes
build_binary_tuple lib cols vals =
    if count cols == count vals
    then (do
      (area, offsets) ← area_loop lib cols vals [] []
      log ← entry_log (length area)
      ok (log ∷ offset_table (2 ^ log) offsets ++ area))
    else err (errorf "binary tuple: %d columns but %d values")
