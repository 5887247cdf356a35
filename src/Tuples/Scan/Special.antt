-- ===== src/Tuples/Scan/Special.antt =====
-- NULL, dates, timestamps, UUIDs and empty values, from BuildBinaryTuple to GetValue.
use ignite3_go_client.Base.{
  ℕ, ◌%◌, ◌^◌, ◌≤◌, ◌<◌, [], ◌∷◌, ◌++◌, Bytes, false, All, IsByte, length, length-append, take,
  ◌==◌, le→ltb_false, lt→ltb, ◌≡◌, refl, ◌∙◌, arith,
}
use ignite3_go_client.Base.Int.{ℤ, pos, Fits, wrap}
use ignite3_go_client.Base.Result.{ok, panic}
use ignite3_go_client.Wire.{le_bytes, from_le}
use ignite3_go_client.Wire.Laws.{
  length-le_bytes, from_le-le_bytes, le_bytes-from_le, take_prefix, drop_prefix,
}
use ignite3_go_client.Integers.Kinds.{bt_date, bt_timestamp, bt_uuid, bt_string, bt_bytes}
use ignite3_go_client.Integers.RoundTrip.{wrap-lt, signed-wrap64}
use ignite3_go_client.Temporal.{decode_timestamp, ns_second}
use ignite3_go_client.Temporal.Calendar.{midnight, days_in_month}
use ignite3_go_client.Temporal.Dates.{decode-encode_date}
use ignite3_go_client.Values.{Value, Time, GoLib}
use ignite3_go_client.Values.Uuids.{flip, eight}
use ignite3_go_client.BinaryTuple.{
  BinaryTupleColumn, element, kind_bytes, date_bytes, timestamp_bytes, uuid_of, half, bytes_of,
  string_of, varlen_string, varlen_bytes,
}
use ignite3_go_client.BinaryTuple.Convert.{to_time}
use ignite3_go_client.Tuples.{strip_marker}
use ignite3_go_client.Tuples.Elements.{arrange}
use ignite3_go_client.Tuples.Scan.{Scanned, scan, scan_payload, scan_date, scan_uuid}
use ignite3_go_client.Tuples.Scan.Written.{column, WritesAs, scan-nonempty}
use ignite3_go_client.ColumnTypes.{
  TypeId, type_smallint, type_int, type_bigint, type_date, type_timestamp, type_uuid, type_varchar,
  type_varbinary,
}

-- NULL is written into a column of any kind as no byte, and reads as NULL at every type.
pub scan-nil :
    (lib : GoLib) (col : BinaryTupleColumn) (t : TypeId) (precision : ℤ)
    → WritesAs lib col Value.nil t precision Scanned.nil
unfolding element arrange strip_marker scan
scan-nil lib col type_smallint precision = ([], refl, refl)
scan-nil lib col type_int precision = ([], refl, refl)
scan-nil lib col type_bigint precision = ([], refl, refl)
scan-nil lib col type_varchar precision = ([], refl, refl)
scan-nil lib col type_varbinary precision = ([], refl, refl)
scan-nil lib col _ precision = ([], refl, refl)

-- An existing date of the years 0 to 16383 comes back as midnight of that date.
pub scan-date :
    (lib : GoLib) (scale precision : ℤ) (t : Time) (y : ℕ)
    → t.civil.year ≡ pos y
    → y < 2 ^ 14
    → 1 ≤ t.civil.month
    → t.civil.month ≤ 12
    → 1 ≤ t.civil.day
    → t.civil.day ≤ days_in_month (pos y) t.civil.month
    → WritesAs lib
        (column bt_date scale)
        (Value.date t)
        type_date
        precision
        (Scanned.civil (midnight t.civil.year t.civil.month t.civil.day))
unfolding element kind_bytes to_time date_bytes arrange
scan-date lib scale precision t y e hy m1 m12 d1 dm =
    let (b, w, l, d) = decode-encode_date y t.civil.month t.civil.day hy m1 m12 d1 dm in
    (
      b,
      rw e w,
      scan-nonempty type_date precision b (omega arith)
          ∙ unfold scan_payload scan_date in rw (d, e) refl,
    )

zero_test : (n : ℕ) → 0 < n → (n == 0) ≡ false
zero_test n h = ground arith

-- A timestamp whose seconds are an int64 and whose nanoseconds are not zero comes back as the same
-- point in time.
pub scan-timestamp :
    (lib : GoLib) (scale precision : ℤ) (t : Time)
    → Fits (2 ^ 63) t.unix
    → 0 < t.civil.nanosecond
    → t.civil.nanosecond < 1_000_000_000
    → WritesAs lib
        (column bt_timestamp scale)
        (Value.timestamp t)
        type_timestamp
        precision
        (Scanned.instant (record { unix = t.unix; nanosecond = t.civil.nanosecond }))
unfolding element kind_bytes to_time arrange
scan-timestamp lib scale precision t f lo hi = (
  s ++ ns,
  unfold timestamp_bytes in rw (zero_test t.civil.nanosecond lo) refl,
  scan-nonempty type_timestamp precision (s ++ ns) (omega (arith, total))
      ∙ unfold scan_payload decode_timestamp in
        rw
          (
            le→ltb_false (length (s ++ ns)) 12 (omega (arith, total)),
            take_prefix 8 s ns (length-le_bytes 8 _),
            drop_prefix 8 s ns (length-le_bytes 8 _),
            from_le-le_bytes 8 (wrap (2 ^ 64) t.unix) (wrap-lt (2 ^ 64) t.unix (omega arith)),
            signed-wrap64 t.unix f,
          )
          (rw (nanos, lt→ltb t.civil.nanosecond ns_second hi) refl),
)
  where
    s : Bytes
    s = le_bytes 8 (wrap (2 ^ 64) t.unix)

    ns : Bytes
    ns = le_bytes 4 (t.civil.nanosecond % 2 ^ 32)

    nanos : from_le (take 4 (le_bytes 4 (t.civil.nanosecond % 2 ^ 32))) ≡ t.civil.nanosecond
    nanos = unfold le_bytes from_le in omega arith

    total : length (s ++ ns) ≡ 12
    total =
        length-append s ns
        ∙ omega (
          arith,
          length-le_bytes 8 (wrap (2 ^ 64) t.unix),
          length-le_bytes 4 (t.civil.nanosecond % 2 ^ 32),
        )

-- A timestamp on a whole second is written as eight bytes, and GetValue of them panics.
pub scan-timestamp_defect :
    (lib : GoLib) (scale precision : ℤ) (t : Time)
    → t.civil.nanosecond ≡ 0
    → (p : Bytes) × (element lib (column bt_timestamp scale) (Value.timestamp t) ≡ ok p)
      × (scan type_timestamp precision (arrange type_timestamp p) ≡ panic)
unfolding element kind_bytes to_time arrange
scan-timestamp_defect lib scale precision t h = (
  s ++ [],
  unfold timestamp_bytes in rw h refl,
  scan-nonempty type_timestamp precision (s ++ []) (omega (arith, total))
      ∙ unfold scan_payload decode_timestamp in
        rw (lt→ltb (length (s ++ [])) 12 (omega (arith, total))) refl,
)
  where
    s : Bytes
    s = le_bytes 8 (wrap (2 ^ 64) t.unix)

    total : length (s ++ []) ≡ 8
    total = length-append s [] ∙ omega (arith, length-le_bytes 8 (wrap (2 ^ 64) t.unix))

-- `half` of eight bytes is those bytes.
half-eight :
    (a b c d e f g h : ℕ) (rest : Bytes)
    → All IsByte (eight a b c d e f g h)
    → half (eight a b c d e f g h ++ rest) ≡ eight a b c d e f g h
half-eight a b c d e f g h rest x = le_bytes-from_le (eight a b c d e f g h) x

-- A UUID is written in the order of its text, and GetValue turns the bytes around: what comes back
-- is the UUID with each half reversed.
pub scan-uuid_flipped :
    (lib : GoLib) (scale precision : ℤ) (a b c d e f g h a' b' c' d' e' f' g' h' : ℕ)
    → All IsByte (eight a b c d e f g h)
    → All IsByte (eight a' b' c' d' e' f' g' h')
    → WritesAs lib
        (column bt_uuid scale)
        (Value.uuid (eight a b c d e f g h ++ eight a' b' c' d' e' f' g' h'))
        type_uuid
        precision
        (Scanned.uuid (eight h g f e d c b a ++ eight h' g' f' e' d' c' b' a'))
unfolding element kind_bytes uuid_of arrange
scan-uuid_flipped lib scale precision a b c d e f g h a' b' c' d' e' f' g' h' x y = (
  eight a b c d e f g h ++ eight a' b' c' d' e' f' g' h',
  rw
      (
        half-eight a b c d e f g h (eight a' b' c' d' e' f' g' h') x,
        half-eight a' b' c' d' e' f' g' h' [] y,
      )
      refl,
  unfold scan scan_payload scan_uuid flip in refl,
)

-- An empty VARCHAR or VARBINARY is written as the byte 0x80, which tells it from NULL, but the
-- reader drops that byte and GetValue gives NULL.
pub scan-empty :
    (lib : GoLib) (scale precision : ℤ)
    → WritesAs lib (column bt_string scale) (Value.text []) type_varchar precision Scanned.nil
      × WritesAs lib (column bt_bytes scale) (Value.bytes []) type_varbinary precision Scanned.nil
unfolding element kind_bytes string_of bytes_of varlen_string varlen_bytes arrange strip_marker scan
scan-empty lib scale precision = ((0x80 ∷ [], refl, refl), (0x80 ∷ [], refl, refl))
