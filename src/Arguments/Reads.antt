-- ===== src/Arguments/Reads.antt =====
-- SQL arguments and GetValue: what AddValue puts down for a value, and what a read of it gives.
use ignite3_go_client.Base.{
  ℕ, ◌^◌, ◌≤◌, ◌<◌, [], ◌∷◌, ◌++◌, Bytes, some, length, length-append, take, if_elim, ◌≡◌, refl,
  ◌∙◌, arith, le→ltb_false, lt→ltb,
}
use ignite3_go_client.Base.Int.{ℤ, pos, Fits, fits, wrap, Fits-mono}
use ignite3_go_client.Base.Result.{ok}
use ignite3_go_client.Wire.{le_bytes, from_le}
use ignite3_go_client.Wire.Laws.{length-le_bytes, from_le-le_bytes, take_prefix, drop_prefix}
use ignite3_go_client.Integers.Kinds.{Kind, bt_null, bt_int8, bt_int16, bt_int32, bt_int64}
use ignite3_go_client.Integers.{encode_int_le}
use ignite3_go_client.Integers.RoundTrip.{
  wrap-lt, decoded8, signed-wrap8, signed-wrap16, signed-wrap32, signed-wrap64,
}
use ignite3_go_client.Integers.Elements.{half_range, in_range, decode-encode_int_le}
use ignite3_go_client.Temporal.{decode_timestamp, ns_second}
use ignite3_go_client.Values.{Value, Time}
use ignite3_go_client.Values.Uuids.{flip, eight}
use ignite3_go_client.Tuples
use ignite3_go_client.Tuples.{strip_marker}
use ignite3_go_client.Tuples.Elements.{arrange}
use ignite3_go_client.Tuples.Scan.{Scanned, scan, scan_payload, scan_uuid}
use ignite3_go_client.Tuples.Scan.Written.{int_value, scan-nonempty, scan_reversed}
use ignite3_go_client.ColumnTypes.{
  type_tinyint, type_smallint, type_int, type_bigint, type_timestamp, type_varbinary,
}
use ignite3_go_client.Arguments.{
  tsv, argument, set_int8, set_byte, set_int16, set_int32, set_int64, set_timestamp, set_uuid,
  set_byte_array,
}

-- AddValue takes `v`, and the reader makes `s` of the payload at the type that AddValue gave it.
abbrev pub ReadsAs : Value → ℤ → Scanned → Type 0
ReadsAs v precision s =
    (t : Tuples.TypeScaleValue) × (argument v ≡ ok t)
    × (scan t.type_id precision (arrange t.type_id t.value) ≡ ok s)

abbrev pub int_argument : Kind → ℤ → Value
int_argument bt_int8 n = Value.int8 n
int_argument bt_int16 n = Value.int16 n
int_argument bt_int32 n = Value.int32 n
int_argument bt_int64 n = Value.int64 n
int_argument _ n = Value.nil

encode_int_le-nonempty : (v : ℤ) → 1 ≤ length (encode_int_le v)
unfolding encode_int_le
encode_int_le-nonempty v =
    if_elim Nonempty (fits (2 ^ 7) v) _ _ (λ _. omega (arith, length-le_bytes 1 (wrap (2 ^ 64) v)))
      λ _.
        if_elim Nonempty (fits (2 ^ 15) v) _ _
          (λ _. omega (arith, length-le_bytes 2 (wrap (2 ^ 64) v)))
          λ _.
            if_elim Nonempty (fits (2 ^ 31) v) _ _
              (λ _. omega (arith, length-le_bytes 4 (wrap (2 ^ 64) v)))
              (λ _. omega (arith, length-le_bytes 8 (wrap (2 ^ 64) v)))
  where
    Nonempty : Bytes → Type 0
    Nonempty bs = 1 ≤ length bs

-- An int8, int16, int32 or int64 argument is read back as it was.
pub argument-int :
    (kind : Kind) (precision n : ℤ) {h : ℕ}
    → half_range kind ≡ some h
    → Fits h n
    → ReadsAs (int_argument kind n) precision (int_value kind n)
unfolding argument arrange scan_payload set_int8 set_byte set_int16 set_int32 set_int64
argument-int bt_int8 precision n e f =
    let g : Fits (2 ^ 7) n = in_range n f e in
    (
      tsv type_tinyint (pos 0) (wrap (2 ^ 8) n ∷ []),
      refl,
      scan-nonempty type_tinyint precision (wrap (2 ^ 8) n ∷ []) (omega arith)
          ∙ rw (decoded8 n g, signed-wrap8 n g) refl,
    )
argument-int bt_int16 precision n e f =
    let g : Fits (2 ^ 15) n = in_range n f e in
    (
      tsv type_smallint (pos 0) (encode_int_le n),
      refl,
      scan_reversed type_smallint precision (encode_int_le n) (encode_int_le-nonempty n)
          ∙ rw
              (
                decode-encode_int_le n (Fits-mono (2 ^ 15) (2 ^ 63) n (omega arith) g),
                signed-wrap16 n g,
              )
              refl,
    )
argument-int bt_int32 precision n e f =
    let g : Fits (2 ^ 31) n = in_range n f e in
    (
      tsv type_int (pos 0) (encode_int_le n),
      refl,
      scan_reversed type_int precision (encode_int_le n) (encode_int_le-nonempty n)
          ∙ rw
              (
                decode-encode_int_le n (Fits-mono (2 ^ 31) (2 ^ 63) n (omega arith) g),
                signed-wrap32 n g,
              )
              refl,
    )
argument-int bt_int64 precision n e f = (
  tsv type_bigint (pos 0) (encode_int_le n),
  refl,
  scan_reversed type_bigint precision (encode_int_le n) (encode_int_le-nonempty n)
      ∙ rw (decode-encode_int_le n (in_range n f e)) refl,
)
argument-int bt_null precision n e f = cc
argument-int _ precision n e f = cc

-- A Timestamp argument whose seconds are an int64 is read back as the same point in time, whether
-- its nanoseconds are zero or not.
pub argument-timestamp :
    (t : Time) (precision : ℤ)
    → Fits (2 ^ 63) t.unix
    → t.civil.nanosecond < 1_000_000_000
    → ReadsAs
        (Value.timestamp t)
        precision
        (Scanned.instant (record { unix = t.unix; nanosecond = t.civil.nanosecond }))
unfolding argument arrange set_timestamp
argument-timestamp t precision f h = (
  tsv type_timestamp (pos 0) (s ++ ns),
  refl,
  scan-nonempty type_timestamp precision (s ++ ns) (omega (arith, total))
      ∙ unfold scan_payload decode_timestamp in
        rw
          (
            le→ltb_false (length (s ++ ns)) 12 (omega (arith, total)),
            take_prefix 8 s ns (length-le_bytes 8 _),
            drop_prefix 8 s ns (length-le_bytes 8 _),
            from_le-le_bytes 8 (wrap (2 ^ 64) t.unix) (wrap-lt (2 ^ 64) t.unix (omega arith)),
            signed-wrap64 t.unix f,
          )
          (rw (nanos, lt→ltb t.civil.nanosecond ns_second h) refl),
)
  where
    s : Bytes
    s = le_bytes 8 (wrap (2 ^ 64) t.unix)

    ns : Bytes
    ns = le_bytes 4 t.civil.nanosecond

    nanos : from_le (take 4 (le_bytes 4 t.civil.nanosecond)) ≡ t.civil.nanosecond
    nanos = unfold le_bytes from_le in omega arith

    total : length (s ++ ns) ≡ 12
    total =
        length-append s ns
        ∙ omega
            (arith, length-le_bytes 8 (wrap (2 ^ 64) t.unix), length-le_bytes 4 t.civil.nanosecond)

-- A Uuid argument of sixteen bytes goes through Flip twice, on the way out and back, and is read
-- as it was.
pub argument-uuid :
    (a b c d e f g h a' b' c' d' e' f' g' h' : ℕ) (precision : ℤ)
    → ReadsAs
        (Value.uuid (eight a b c d e f g h ++ eight a' b' c' d' e' f' g' h'))
        precision
        (Scanned.uuid (eight a b c d e f g h ++ eight a' b' c' d' e' f' g' h'))
unfolding argument arrange set_uuid scan scan_payload scan_uuid flip
argument-uuid a b c d e f g h a' b' c' d' e' f' g' h' precision = (_, refl, refl)

-- A []byte argument of two bytes or more that starts with 0x80 is read back without that byte,
-- since set_byte_array does not double it as BuildBinaryTuple does.
pub argument-bytes_defect :
    (b : ℕ) (bs : Bytes) (precision : ℤ)
    → ReadsAs (Value.bytes (0x80 ∷ b ∷ bs)) precision (Scanned.bytes (b ∷ bs))
unfolding argument arrange set_byte_array strip_marker scan scan_payload
argument-bytes_defect b bs precision = (tsv type_varbinary (pos 0) (0x80 ∷ b ∷ bs), refl, refl)
