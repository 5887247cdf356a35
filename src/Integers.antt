-- ===== src/Integers.antt =====
-- Integer elements of binary tuples: putBinaryTupleInt of binary/v1/binary-tuple.go; encodeIntLe,
-- decodeBigEndianTwosComplement and expandIntValue of binary/v1/tuple.go.
pub mod Kinds
pub mod RoundTrip
pub mod Elements
use Kinds.{Kind, bt_int8, bt_int16, bt_int32, bt_int64}
use ignite3_go_client.Base.{
  ℕ, ◌+◌, ◌-◌, ◌*◌, ◌/◌, ◌%◌, ◌^◌, bit_and, bit_or, [], ◌∷◌, ◌++◌, Bytes, ltb, ◌==◌, length,
  if◌then◌else◌,
}
use ignite3_go_client.Base.Int.{ℤ, pos, negsuc, fits, wrap, signed}
use ignite3_go_client.Base.Result.{Result, ok, err, errorf}
use ignite3_go_client.Wire.{put_uint16, put_uint32, put_uint64, le_bytes}

-- `fits h n` is the test `-h ≤ n && n ≤ h - 1`.
unfoldable pub put_int : Bytes → Kind → ℤ → Result Bytes
unfolding put_uint16 put_uint32 put_uint64
put_int buf bt_int8 n =
    if fits (2 ^ 7) n
    then ok (buf ++ wrap (2 ^ 8) n ∷ [])
    else err (errorf "%d does not fit into TINYINT")
put_int buf bt_int16 n =
    if fits (2 ^ 7) n
    then ok (buf ++ wrap (2 ^ 8) n ∷ [])
    else if fits (2 ^ 15) n
    then ok (put_uint16 buf (wrap (2 ^ 16) n))
    else err (errorf "%d does not fit into SMALLINT")
put_int buf bt_int32 n =
    if fits (2 ^ 7) n
    then ok (buf ++ wrap (2 ^ 8) n ∷ [])
    else if fits (2 ^ 15) n
    then ok (put_uint16 buf (wrap (2 ^ 16) n))
    else if fits (2 ^ 31) n
    then ok (put_uint32 buf (wrap (2 ^ 32) n))
    else err (errorf "%d does not fit into INT")
put_int buf bt_int64 n =
    if fits (2 ^ 15) n
    then ok (put_uint16 buf (wrap (2 ^ 16) n))
    else if fits (2 ^ 31) n
    then ok (put_uint32 buf (wrap (2 ^ 32) n))
    else ok (put_uint64 buf (wrap (2 ^ 64) n))
put_int buf _ n = err (errorf "unsupported integer kind: %d")

-- `byte(v >> (8 * i))` is byte `i` of the bit pattern of `v`.
unfoldable pub encode_int_le : ℤ → Bytes
encode_int_le v =
    if fits (2 ^ 7) v
    then le_bytes 1 (wrap (2 ^ 64) v)
    else if fits (2 ^ 15) v
    then le_bytes 2 (wrap (2 ^ 64) v)
    else if fits (2 ^ 31) v
    then le_bytes 4 (wrap (2 ^ 64) v)
    else le_bytes 8 (wrap (2 ^ 64) v)

-- `v = v<<8 | uint64(b)` for each byte, in a uint64.
unfoldable pub shift_in : ℕ → Bytes → ℕ
shift_in v [] = v
shift_in v (b ∷ bs) = shift_in (bit_or b (v * 256 % 2 ^ 64)) bs

-- `v -= uint64(1) << uint(8*len(raw))`, where Go's shift by 64 is 0.
unfoldable pub sign_extend : ℕ → ℕ → ℕ → ℕ
sign_extend first len v =
    if bit_and first 0x80 == 0 then v else (v + 2 ^ 64 - 2 ^ (8 * len) % 2 ^ 64) % 2 ^ 64

unfoldable pub decode_big_endian : Bytes → Result ℤ
decode_big_endian [] = ok (pos 0)
decode_big_endian (b ∷ bs) =
    if ltb 8 (length (b ∷ bs))
    then err (errorf "invalid integer length: %d")
    else ok (signed (2 ^ 63) (sign_extend b (length (b ∷ bs)) (shift_in 0 (b ∷ bs))))
