-- ===== src/Tuples.antt =====
-- The reader of binary tuples in binary/v1/tuple.go: NewTupleFromByteArrayWithMetadata, entryOffset
-- and GetValue. An `int` is its bit pattern below 2 ^ 64.
pub mod Elements
pub mod Entries
pub mod Loop
pub mod RoundTrip
pub mod Scan
use ignite3_go_client.Base.{
  ℕ, zero, suc, ◌+◌, ◌-◌, ◌*◌, ◌/◌, ◌%◌, ◌^◌, bit_and, List, [], ◌∷◌, ◌++◌, Bytes, Bool, true,
  false, Option, none, some, leb, ltb, ◌==◌, not, ◌||◌, length, take, drop, get_elem?,
  if◌then◌else◌,
}
use ignite3_go_client.Base.Int.{ℤ, pos, negsuc, wrap, signed}
use ignite3_go_client.Base.Result.{Result, ok, err, panic, errorf, ◌>>=◌, ◌>>◌}
use ignite3_go_client.Wire.{from_le}
use ignite3_go_client.Integers.{decode_big_endian}
use ignite3_go_client.Decimals.{decode_unscaled}
use ignite3_go_client.Temporal.{Instant, decode_date, decode_time, decode_timestamp}
use ignite3_go_client.Temporal.Calendar.{Civil, midnight}
use ignite3_go_client.Values.{Decimal}
use ignite3_go_client.Values.Uuids.{flip}
use ignite3_go_client.ColumnTypes.{
  TypeId, type_null, type_boolean, type_tinyint, type_smallint, type_int, type_bigint, type_real,
  type_double, type_decimal, type_date, type_time, type_datetime, type_timestamp, type_uuid,
  type_varchar, type_varbinary, type_unknown,
}

-- What the reader takes from the metadata of a column.
pub record ColumnInfo : Type 0 where
  pub type_id : TypeId
  pub scale : ℤ
  pub precision : ℤ

pub record TypeScaleValue : Type 0 where
  pub type_id : TypeId
  pub scale : ℤ
  pub precision : ℤ
  pub value : Bytes

abbrev pub int_mod : ℕ
int_mod = 2 ^ 64

unfoldable pub from_header : ℕ → Result ℕ
from_header h =
    if h == 3
    then ok 8
    else if h == 0
    then ok 1
    else if h == 1 || h == 2
    then ok (h * 2)
    else err (errorf "Invalid header: %x")

-- `bin[pos : pos+size]` read as a little-endian number; a slice past the end panics.
unfoldable pub entry_offset : Bytes → ℕ → ℕ → Result ℕ
entry_offset bin size i =
    let p = 1 + i * size in
    if ltb (length bin) (p + size) then panic else ok (from_le (take size (drop p bin)))

-- entryOffset(i-1), which is 0 before the first element.
unfoldable pub start_offset : Bytes → ℕ → ℕ → Result ℕ
start_offset bin size zero = ok 0
start_offset bin size (suc i) = entry_offset bin size i

unfoldable pub index : Bytes → ℕ → Result ℕ
index bin i = elim (get_elem? bin i) [ none ↦ panic | some b ↦ ok b ]

-- `for i := 0; i < n; i++ { value[i] = bin[start+i] }`
unfoldable pub copy_up : Bytes → ℕ → ℕ → Result Bytes
copy_up bin start zero = ok []
copy_up bin start (suc n) = do
  b ← index bin start
  rest ← copy_up bin ((start + 1) % int_mod) n
  ok (b ∷ rest)

-- `for i := 0; i < n; i++ { value[i] = bin[end-(i+1)] }`
unfoldable pub copy_down : Bytes → ℕ → ℕ → Result Bytes
copy_down bin end zero = ok []
copy_down bin end (suc n) = do
  b ← index bin ((end + int_mod - 1) % int_mod)
  rest ← copy_down bin ((end + int_mod - 1) % int_mod) n
  ok (b ∷ rest)

-- A leading 0x80 is dropped: it marks an empty value, or doubles a 0x80.
unfoldable pub strip_marker : Bytes → Bytes
strip_marker [] = []
strip_marker (b ∷ bs) = if b == 0x80 then bs else b ∷ bs

-- The payload between two offsets, in the order that its type wants.
unfoldable pub read_value : Bytes → ℕ → TypeId → ℕ → ℕ → Result Bytes
read_value bin base type_smallint start end =
    copy_down bin ((base + end) % int_mod) ((end + int_mod - start) % int_mod)
read_value bin base type_int start end =
    copy_down bin ((base + end) % int_mod) ((end + int_mod - start) % int_mod)
read_value bin base type_bigint start end =
    copy_down bin ((base + end) % int_mod) ((end + int_mod - start) % int_mod)
read_value bin base type_varchar start end = do
  v ← copy_up bin ((base + start) % int_mod) ((end + int_mod - start) % int_mod)
  ok (strip_marker v)
read_value bin base type_varbinary start end = do
  v ← copy_up bin ((base + start) % int_mod) ((end + int_mod - start) % int_mod)
  ok (strip_marker v)
read_value bin base _ start end =
    copy_up bin ((base + start) % int_mod) ((end + int_mod - start) % int_mod)

-- `make([]byte, n)` panics on a negative length.
unfoldable pub make_checked : ℕ → ℕ → Result (Unit {0})
make_checked start end = if ltb ((end + int_mod - start) % int_mod) (2 ^ 63) then ok tt else panic

-- The end of element i: its own entry, or the end of the bytes for the last element.
unfoldable pub end_offset : Bytes → ℕ → ℕ → ℕ → List ColumnInfo → Result ℕ
end_offset bin size base i [] = ok ((length bin + int_mod - base) % int_mod)
end_offset bin size base i (c ∷ cs) = entry_offset bin size i

unfoldable pub elements_loop : Bytes → ℕ → ℕ → ℕ → List ColumnInfo → Result (List TypeScaleValue)
elements_loop bin size base i [] = ok []
elements_loop bin size base i (c ∷ cs) = do
  start ← start_offset bin size i
  end ← end_offset bin size base i cs
  make_checked start end
  v ← read_value bin base c.type_id start end
  rest ← elements_loop bin size base (suc i) cs
  ok (record { type_id = c.type_id; scale = c.scale; precision = c.precision; value = v } ∷ rest)

abbrev pub column_count : List ColumnInfo → ℕ
column_count = length

unfoldable pub new_tuple : List ColumnInfo → Bytes → Result (List TypeScaleValue)
new_tuple cols [] = err (errorf "tuple length is too small")
new_tuple cols (h ∷ bin) = do
  size ← from_header h
  elements_loop (h ∷ bin) size (1 + column_count cols * size) 0 cols
