-- ===== src/Tuples/Scan/Written.antt =====
-- Values that BuildBinaryTuple writes and GetValue returns, kind by kind.
use ignite3_go_client.Base.{
  ℕ, ◌/◌, ◌%◌, ◌^◌, ◌≤◌, ◌<◌, [], ◌∷◌, ◌++◌, Bytes, Bool, true, false, some, length, ◌≡◌, ◌≢◌, refl,
  ◌∙◌, arith,
}
use mathlib.Core.List.{reverse}
use ignite3_go_client.Base.Int.{ℤ, Fits, fits-Fits, wrap}
use ignite3_go_client.Base.Result.{ok}
use ignite3_go_client.Wire.{le_bytes, from_le}
use ignite3_go_client.Integers.Kinds.{
  Kind, bt_null, bt_boolean, bt_int8, bt_int16, bt_int32, bt_int64, bt_decimal, bt_bytes, bt_string,
}
use ignite3_go_client.Integers.{put_int}
use ignite3_go_client.Integers.RoundTrip.{
  wrap-lt, decoded8, signed-wrap8, signed-wrap16, signed-wrap32,
}
use ignite3_go_client.Integers.Elements.{half_range, put_int-Appends, in_range}
use ignite3_go_client.Decimals.{twos_complement_bytes}
use ignite3_go_client.Decimals.RoundTrip.{decode-twos_complement_bytes}
use ignite3_go_client.Values.{Value, GoLib}
use ignite3_go_client.BinaryTuple.{
  BinaryTupleColumn, element, kind_bytes, varlen_string, varlen_bytes, string_of, bytes_of,
  decimal_bytes,
}
use ignite3_go_client.BinaryTuple.Convert.{to_bool, to_int64, to_decimal}
use ignite3_go_client.Tuples.{strip_marker, index}
use ignite3_go_client.Tuples.Elements.{arrange, length-reverse}
use ignite3_go_client.Tuples.Scan.{Scanned, scan, scan_payload, scan_decimal}
use ignite3_go_client.ColumnTypes.{
  TypeId, type_null, type_boolean, type_tinyint, type_smallint, type_int, type_bigint, type_decimal,
  type_varchar, type_varbinary,
}

abbrev pub column : Kind → ℤ → BinaryTupleColumn
column kind scale = record { kind = kind; scale = scale }

-- The column `col` takes `v`, and a read of it at type `t` gives `s`.
abbrev pub WritesAs : GoLib → BinaryTupleColumn → Value → TypeId → ℤ → Scanned → Type 0
WritesAs lib col v t precision s =
    (p : Bytes) × (element lib col v ≡ ok p) × (scan t precision (arrange t p) ≡ ok s)

abbrev pub int_type : Kind → TypeId
int_type bt_int8 = type_tinyint
int_type bt_int16 = type_smallint
int_type bt_int32 = type_int
int_type bt_int64 = type_bigint
int_type _ = type_null

abbrev pub int_value : Kind → ℤ → Scanned
int_value bt_int8 n = Scanned.int8 n
int_value bt_int16 n = Scanned.int16 n
int_value bt_int32 n = Scanned.int32 n
int_value bt_int64 n = Scanned.int64 n
int_value _ n = Scanned.nil

pub scan-nonempty :
    (t : TypeId) (precision : ℤ) (raw : Bytes)
    → 1 ≤ length raw
    → scan t precision raw ≡ scan_payload t precision raw
unfolding scan
scan-nonempty t precision [] h = absurd (omega arith)
scan-nonempty t precision (b ∷ raw) h = refl

pub scan_reversed :
    (t : TypeId) (precision : ℤ) (p : Bytes)
    → 1 ≤ length p
    → scan t precision (reverse p) ≡ scan_payload t precision (reverse p)
scan_reversed t precision p h =
    scan-nonempty t precision (reverse p) (omega (arith, length-reverse p))

-- A number in the range of a TINYINT, SMALLINT, INT or BIGINT column comes back from it as it was.
pub scan-int :
    (lib : GoLib) (kind : Kind) (scale precision n : ℤ) {h : ℕ}
    → half_range kind ≡ some h
    → Fits h n
    → WritesAs lib (column kind scale) (Value.int64 n) (int_type kind) precision (int_value kind n)
unfolding element kind_bytes to_int64 arrange scan_payload
scan-int lib bt_int8 scale precision n e f =
    let g : Fits (2 ^ 7) n = in_range n f e in
    (
      wrap (2 ^ 8) n ∷ [],
      unfold put_int in rw (fits-Fits (2 ^ 7) n g) refl,
      scan-nonempty type_tinyint precision (wrap (2 ^ 8) n ∷ []) (omega arith)
          ∙ rw (decoded8 n g, signed-wrap8 n g) refl,
    )
scan-int lib bt_int16 scale precision n e f =
    let (p, w, d, lo, hi) = put_int-Appends [] bt_int16 n e f in
    (
      p,
      w,
      scan_reversed type_smallint precision p lo ∙ rw (d, signed-wrap16 n (in_range n f e)) refl,
    )
scan-int lib bt_int32 scale precision n e f =
    let (p, w, d, lo, hi) = put_int-Appends [] bt_int32 n e f in
    (p, w, scan_reversed type_int precision p lo ∙ rw (d, signed-wrap32 n (in_range n f e)) refl)
scan-int lib bt_int64 scale precision n e f =
    let (p, w, d, lo, hi) = put_int-Appends [] bt_int64 n e f in
    (p, w, scan_reversed type_bigint precision p lo ∙ rw d refl)
scan-int lib bt_null scale precision n e f = cc
scan-int lib _ scale precision n e f = cc

pub two_bytes : (x : ℕ) → x < 2 ^ 16 → from_le ((x % 256) ∷ (x / 256 % 256) ∷ []) ≡ x
unfolding from_le
two_bytes x h = omega arith

-- A decimal of any unscaled integer comes back from a DECIMAL column, with its scale if that is an
-- int16.
pub scan-decimal :
    (lib : GoLib) (precision column_scale v s : ℤ)
    → Fits (2 ^ 15) s
    → WritesAs lib
        (column bt_decimal column_scale)
        (Value.decimal (record { unscaled = some v; scale = s }))
        type_decimal
        precision
        (Scanned.decimal (record { unscaled = some v; scale = s }))
unfolding element kind_bytes to_decimal decimal_bytes le_bytes arrange scan_payload scan_decimal
    scan
scan-decimal lib precision column_scale v s f = (
  le_bytes 2 (wrap (2 ^ 16) s) ++ twos_complement_bytes (some v),
  refl,
  rw
      (
        decode-twos_complement_bytes v,
        two_bytes (wrap (2 ^ 16) s) (wrap-lt (2 ^ 16) s (omega arith)),
        signed-wrap16 s f,
      )
      refl,
)

-- A string that is not empty and does not start with the byte 0x80 comes back from a VARCHAR
-- column.
pub scan-text :
    (lib : GoLib) (scale precision : ℤ) (b : ℕ) (bs : Bytes)
    → b ≢ 0x80
    → WritesAs lib
        (column bt_string scale)
        (Value.text (b ∷ bs))
        type_varchar
        precision
        (Scanned.text (b ∷ bs))
unfolding element kind_bytes string_of varlen_string arrange strip_marker scan scan_payload
scan-text lib scale precision b bs h = (b ∷ bs, refl, ground arith)

-- VARBINARY: bytes come back if there are any.
pub scan-bytes :
    (lib : GoLib) (scale precision : ℤ) (b : ℕ) (bs : Bytes)
    → WritesAs lib
        (column bt_bytes scale)
        (Value.bytes (b ∷ bs))
        type_varbinary
        precision
        (Scanned.bytes (b ∷ bs))
unfolding element kind_bytes bytes_of varlen_bytes arrange strip_marker scan scan_payload
scan-bytes lib scale precision b bs = (varlen_bytes (b ∷ bs), refl, ground arith)

-- BOOLEAN
pub scan-bool :
    (lib : GoLib) (scale precision : ℤ) (b : Bool)
    → WritesAs lib (column bt_boolean scale) (Value.bool b) type_boolean precision (Scanned.bool b)
unfolding element kind_bytes to_bool arrange scan scan_payload index
scan-bool lib scale precision true = (1 ∷ [], refl, refl)
scan-bool lib scale precision false = (0 ∷ [], refl, refl)
