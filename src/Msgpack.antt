-- ===== src/Msgpack.antt =====
-- The msgpack wrappers of binary/v1/types.go, and skipPackedValue of binary/v1/client-schemas.go. The
-- package vmihailenco/msgpack is the parameter: `M` is what a reader still holds.
pub mod Laws
pub mod Timestamps
pub mod Uuids
use ignite3_go_client.Base.{
  ℕ, suc, ◌+◌, ◌-◌, ◌*◌, ◌/◌, ◌%◌, ◌^◌, List, [], ◌∷◌, ◌++◌, Bytes, Bool, true, false, ◌||◌, String,
  ltb, ◌==◌, length, take, drop, if◌then◌else◌,
}
use ignite3_go_client.Base.Int.{ℤ, pos, negsuc, wrap, signed, sub_ℕ}
use ignite3_go_client.Base.Result.{Result, ok, err, panic, errorf, ◌>>=◌}
use ignite3_go_client.Values.Uuids.{flip}
use ignite3_go_client.Requests.{Unpacker}

-- An element of a slice that msgpack decodes into interface{} values.
pub data Dynamic : Type 0 where
  int64_value : ℤ → Dynamic
  other_value : ℕ → Dynamic

-- What msgpack makes of a value that it decodes into an interface{}: nil, a *Uuid, or another value.
pub data ErrorObject : Type 0 where
  no_error : ErrorObject
  trace_id : Bytes → ErrorObject
  other_object : ErrorObject

-- msgpack.Decoder, with the codes of msgpcode. `skip` may fail, and the reader moves either way.
-- `ext_payload` is what msgpack.Unmarshal hands to UnmarshalMsgpack of a registered type.
pub record Decoder (M : Type 0) : Type 0 where
  pub peek_code : M → Result ℕ
  pub skip : M → Result (Unit {0}) × M
  pub decode_int64 : M → Result (ℤ × M)
  pub decode_int32 : M → Result (ℤ × M)
  pub decode_int8 : M → Result (ℤ × M)
  pub decode_uint8 : M → Result (ℕ × M)
  pub decode_bool : M → Result (Bool × M)
  pub decode_string : M → Result (String × M)
  pub decode_bytes : M → Result (Bytes × M)
  pub decode_slice : M → Result (List Dynamic × M)
  pub decode_interface : M → Result (ErrorObject × M)
  pub read_full : ℕ → M → Result (Bytes × M)
  pub ext_payload : Bytes → Result Bytes
  pub is_fixed_num : ℕ → Bool
  pub code_nil : ℕ
  pub code_int8 : ℕ
  pub code_int16 : ℕ
  pub code_int32 : ℕ
  pub code_int64 : ℕ

-- Uuid.MarshalMsgpack and UnmarshalMsgpack: the halves are reversed, in the receiver too, which
-- comes first here; bytes behind the sixteenth are not read.
unfoldable pub marshal_uuid : Bytes → Bytes × Bytes
marshal_uuid u = (flip u, flip u)

unfoldable pub unmarshal_uuid : Bytes → Result Bytes
unmarshal_uuid b =
    if ltb (length b) 16 then err (errorf "unexpected EOF") else ok (flip (take 16 b))

-- `x >> 16` of a signed integer, `x / 1000` of one, which rounds to zero, and time.Unix as the
-- nanoseconds since the epoch.
unfoldable pub shift_16 : ℤ → ℤ
shift_16 (pos n) = pos (n / 65536)
shift_16 (negsuc n) = negsuc (n / 65536)

unfoldable pub quot_1000 : ℤ → ℤ
quot_1000 (pos n) = pos (n / 1000)
quot_1000 (negsuc n) = sub_ℕ 0 ((n + 1) / 1000)

unfoldable pub unix : ℤ → ℕ → ℤ
unix (pos s) n = pos (s * 1000000000 + n)
unix (negsuc s) n = sub_ℕ n ((s + 1) * 1000000000)

-- `raw & 0xFF % 1000 * int64(time.Millisecond)`, which Go reads from the left
unfoldable pub timestamp_of : ℤ → ℤ
timestamp_of raw =
    let low = wrap 256 raw % 1000 * 1000000 in let high = quot_1000 (shift_16 raw) in unix high low

-- UnixMilli of a time, and `ms*256*256` as an int64
unfoldable pub unix_milli : ℤ → ℤ
unix_milli (pos n) = pos (n / 1000000)
unix_milli (negsuc n) = negsuc (n / 1000000)

unfoldable pub times_65536 : ℤ → ℤ
times_65536 (pos n) = pos (n * 65536)
times_65536 (negsuc n) = negsuc ((n + 1) * 65536 - 1)

unfoldable pub raw_of_timestamp : ℤ → ℤ
raw_of_timestamp ts = signed (2 ^ 63) (wrap (2 ^ 64) (times_65536 (unix_milli ts)))

-- `res64 = append(res64, i.(int64))`
unfoldable pub all_int64 : List Dynamic → Result (List ℤ)
all_int64 [] = ok []
all_int64 (int64_value z ∷ vs) = do zs ← all_int64 vs; ok (z ∷ zs)
all_int64 (other_value _ ∷ vs) = panic

module _ {M : Type 0} (d : Decoder M) where
  open d use {
    peek_code, skip, decode_int64, decode_int32, decode_bool, decode_string, decode_bytes,
    decode_slice, read_full, ext_payload, is_fixed_num, code_nil, code_int8, code_int16, code_int32,
    code_int64,
  }

  -- The error of `dec.Skip()` is dropped.
  unfoldable pub try_read_packed_nil : M → Result (Bool × M)
  try_read_packed_nil m = do
    code ← peek_code m
    if code == code_nil then ok (true, (skip m).1) else ok (false, m)

  abbrev pub is_int_code : ℕ → Bool
  is_int_code code =
      code == code_int8 || (code == code_int16 || (code == code_int32 || code == code_int64))

  unfoldable pub try_read_packed_int_with_default : M → ℤ → Result (ℤ × M)
  try_read_packed_int_with_default m default_value = do
    code ← peek_code m
    let other = if is_int_code code then decode_int64 m else ok (default_value, m)
    if is_fixed_num code then ok (pos code, (skip m).1) else other

  unfoldable pub read_packed_int64_array : M → Result (List ℤ × M)
  read_packed_int64_array m = do (res, m1) ← decode_slice m; res64 ← all_int64 res; ok (res64, m1)

  unfoldable pub read_packed_int64_string : M → Result ((ℤ × String) × M)
  read_packed_int64_string m = do
    (k, m1) ← decode_int64 m
    (v, m2) ← decode_string m1
    ok ((k, v), m2)

  unfoldable pub read_packed_uuid : M → Result (Bytes × M)
  read_packed_uuid m = do
    (buf, m1) ← read_full 18 m
    b ← ext_payload buf
    u ← unmarshal_uuid b
    ok (u, m1)

  unfoldable pub read_packed_timestamp : M → Result (ℤ × M)
  read_packed_timestamp m = do (raw, m1) ← decode_int64 m; ok (timestamp_of raw, m1)

  unfoldable pub skip_packed_value : M → Result M
  skip_packed_value m = do _ ← (skip m).0; ok (skip m).1

  -- What the header of a response is read with.
  abbrev pub unpacker : Unpacker M
  unpacker = record {
    read_int64 = decode_int64;
    read_string = decode_string;
    read_uuid = read_packed_uuid;
    read_timestamp = read_packed_timestamp;
  }
