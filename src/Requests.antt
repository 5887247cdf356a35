-- ===== src/Requests.antt =====
-- Frames on the wire: RequestOperation.WriteTo of binary/v1/request-operation.go, and response.ReadFrom
-- of binary/v1/response.go with ReadFrom and CheckStatus of binary/v1/response-operation.go.
pub mod Frames
use ignite3_go_client.Base.{
  ℕ, ◌+◌, ◌-◌, ◌%◌, ◌^◌, bit_and, List, [], ◌∷◌, ◌++◌, Bytes, Bool, String, Option, none, some, ltb,
  ◌==◌, length, take, drop, if◌then◌else◌,
}
use ignite3_go_client.Base.Int.{ℤ, pos, negsuc, wrap, signed}
use ignite3_go_client.Base.Result.{
  Result, ok, err, panic, Error, errorf, new_error, or_wrap, ◌>>=◌, ◌>>◌, guard,
}
use ignite3_go_client.Wire.{be_bytes, from_be}
use ignite3_go_client.ColumnTypes.Lookup.{same_int}

-- The four bytes of the length, then the operation code, the request id and the data. `pack_int64` is
-- the msgpack encoding of an integer.
unfoldable pub request_frame : (ℤ → Bytes) → ℤ → ℤ → Bytes → Bytes
request_frame pack_int64 code request_id data_bytes =
    let buf = pack_int64 code ++ pack_int64 request_id in
    be_bytes 4 ((length buf + length data_bytes) % 2 ^ 32) ++ (buf ++ data_bytes)

-- The length is an int32: `make` panics on a negative one. A short stream is an error.
unfoldable pub read_message : ℕ → Bytes → Result (Bytes × Bytes)
read_message len stream =
    if ltb len (2 ^ 31)
    then if ltb (length stream) len
      then err (errorf "failed to read response data")
      else ok (take len stream, drop len stream)
    else panic

unfoldable pub read_frame : Bytes → Result (Bytes × Bytes)
read_frame stream =
    if ltb (length stream) 4
    then err (errorf "failed to read response length")
    else read_message (from_be 0 (take 4 stream)) (drop 4 stream)

-- Taking an integer, a string, a UUID or a timestamp off a message goes through msgpack.
pub record Unpacker (M : Type 0) : Type 0 where
  pub read_int64 : M → Result (ℤ × M)
  pub read_string : M → Result (String × M)
  pub read_uuid : M → Result (Bytes × M)
  pub read_timestamp : M → Result (ℤ × M)

pub record ResponseOperation : Type 0 where
  pub request_id : ℤ
  pub flags : ℕ
  pub obs_ts : ℤ
  pub code : ℤ
  pub uuid : Bytes
  pub message : String
  pub details : String

-- `flags & FlagPartitionAssignmentChanged`, `flags & FlagError`
abbrev pub partition_changed : ℕ → Bool
partition_changed flags = bit_and flags 1 == 1

abbrev pub is_error : ℕ → Bool
is_error flags = bit_and flags 4 == 4

module _ {M : Type 0} (u : Unpacker M) where
  unfoldable pub read_error : ResponseOperation → M → Result (ResponseOperation × M)
  read_error r m = do
    (id, m1) ← or_wrap "failed to read error uuid" (u.read_uuid m)
    (c, m2) ← or_wrap "failed to read error code" (u.read_int64 m1)
    (s, m3) ← or_wrap "failed to read error message" (u.read_string m2)
    (d, m4) ← or_wrap "failed to read error details" (u.read_string m3)
    ok (record r { uuid = id; code = c; message = s; details = d }, m4)

  abbrev pub skip_timestamp : Bool → M → Result M
  skip_timestamp b m =
      if b
      then (do
        (_, m') ← or_wrap "failed to read partition changed timestamp" (u.read_timestamp m)
        ok m')
      else ok m

  -- ReadFrom, after the message has come in.
  unfoldable pub read_operation : ResponseOperation → M → Result (ResponseOperation × M)
  read_operation r m = do
    (rid, m1) ← or_wrap "failed to read operation response id" (u.read_int64 m)
    (flags, m2) ← or_wrap "failed to read flags" (u.read_int64 m1)
    let f = wrap (2 ^ 64) flags
    m3 ← skip_timestamp (partition_changed f) m2
    (ts, m4) ← or_wrap "failed to read observable timestamp" (u.read_timestamp m3)
    guard (same_int rid r.request_id) (errorf "invalid request ID: got %d, but expected %d")
    let r' = record r { flags = f % 2 ^ 32; obs_ts = ts }
    if is_error f then read_error r' m4 else ok (r', m4)

-- CheckStatus; `join` makes one text of the message and the details.
unfoldable pub check_status : (String → String → String) → ResponseOperation → Result (Unit {0})
check_status join r =
    if is_error r.flags
    then err (new_error (signed (2 ^ 31) (wrap (2 ^ 32) r.code)) (join r.message r.details))
    else ok tt
