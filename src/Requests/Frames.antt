-- ===== src/Requests/Frames.antt =====
-- A frame is read back whole, and a reply is taken only for the request that it answers.
use ignite3_go_client.Base.{
  ℕ, ◌+◌, ◌%◌, ◌^◌, ◌<◌, ◌++◌, Bytes, Bool, true, false, length, length-append, le→ltb_false,
  lt→ltb, if◌then◌else◌, ◌≡◌, refl, ap, arith,
}
use mathlib.Core.List.{append_assoc}
use ignite3_go_client.Base.Int.{ℤ, wrap}
use ignite3_go_client.Base.Result.{
  ok, >>=-eq-ok, or_wrap, or_wrap-eq-ok, guard, guard-eq-ok, errorf,
}
use ignite3_go_client.Wire.{be_bytes}
use ignite3_go_client.Wire.Laws.{length-be_bytes, from_be-be_bytes, take_prefix, drop_prefix}
use ignite3_go_client.ColumnTypes.Lookup.{same_int}
use ignite3_go_client.Requests.{
  request_frame, read_message, read_frame, Unpacker, ResponseOperation, partition_changed, is_error,
  skip_timestamp, read_error, read_operation,
}

message_read :
    (msg rest : Bytes)
    → length msg < 2 ^ 31
    → read_message (length msg) (msg ++ rest) ≡ ok (msg, rest)
unfolding read_message
message_read msg rest h =
    rw
      (
        lt→ltb (length msg) (2 ^ 31) h,
        le→ltb_false (length (msg ++ rest)) (length msg) (omega (arith, length-append msg rest)),
        take_prefix (length msg) msg rest refl,
        drop_prefix (length msg) msg rest refl,
      )
      refl

-- A message behind its length is taken off whole.
pub read_frame-framed :
    (msg rest : Bytes)
    → length msg < 2 ^ 31
    → read_frame (be_bytes 4 (length msg) ++ (msg ++ rest)) ≡ ok (msg, rest)
unfolding read_frame
read_frame-framed msg rest h =
    rw
      (
        le→ltb_false (length (head ++ (msg ++ rest))) 4
            (omega (arith, length-append head (msg ++ rest), four)),
        take_prefix 4 head (msg ++ rest) four,
        drop_prefix 4 head (msg ++ rest) four,
        from_be-be_bytes 4 (length msg) (omega arith),
      )
      (message_read msg rest h)
  where
    head : Bytes
    head = be_bytes 4 (length msg)

    four : length head ≡ 4
    four = length-be_bytes 4 (length msg)

-- A request of less than 2 ^ 31 bytes after its length goes over the wire as one frame: a reader of
-- frames takes off exactly its code, its id and its data, and leaves what comes behind.
pub read_frame-request_frame :
    (pack_int64 : ℤ → Bytes) (code request_id : ℤ) (data_bytes rest : Bytes)
    → length ((pack_int64 code ++ pack_int64 request_id) ++ data_bytes) < 2 ^ 31
    → read_frame (request_frame pack_int64 code request_id data_bytes ++ rest)
      ≡ ok ((pack_int64 code ++ pack_int64 request_id) ++ data_bytes, rest)
unfolding request_frame
read_frame-request_frame pack_int64 code request_id data_bytes rest h =
    let buf = pack_int64 code ++ pack_int64 request_id in
    let size : (length buf + length data_bytes) % 2 ^ 32 ≡ length (buf ++ data_bytes) =
      omega (arith, h, length-append buf data_bytes) in
    rw (size, append_assoc (be_bytes 4 (length (buf ++ data_bytes))) (buf ++ data_bytes) rest)
      (read_frame-framed (buf ++ data_bytes) rest h)

module _ {M : Type 0} (u : Unpacker M) where
  read_error-request_id :
      (r : ResponseOperation) (m : M) (r' : ResponseOperation) (m' : M)
      → read_error u r m ≡ ok (r', m')
      → (r'.request_id ≡ r.request_id) × (r'.flags ≡ r.flags)
  unfolding read_error
  read_error-request_id r m r' m' e =
      let (a, _, e1) = >>=-eq-ok (or_wrap "failed to read error uuid" (u.read_uuid m)) _ e in
      let (b, _, e2) = >>=-eq-ok (or_wrap "failed to read error code" (u.read_int64 a.1)) _ e1 in
      let (c, _, e3) =
        >>=-eq-ok (or_wrap "failed to read error message" (u.read_string b.1)) _ e2 in
      let (d, _, e4) =
        >>=-eq-ok (or_wrap "failed to read error details" (u.read_string c.1)) _ e3 in
      let f : r' ≡ record r { uuid = a.0; code = b.0; message = c.0; details = d.0 } = cc in
      (ap (λ x. x.request_id) f, ap (λ x. x.flags) f)

  kept :
      (b : Bool) (r : ResponseOperation) (m : M) (r' : ResponseOperation) (m' : M)
      → (if b then read_error u r m else ok (r, m)) ≡ ok (r', m')
      → (r'.request_id ≡ r.request_id) × (r'.flags ≡ r.flags)
  kept true r m r' m' e = read_error-request_id r m r' m' e
  kept false r m r' m' e = let f : r' ≡ r = cc in (ap (λ x. x.request_id) f, ap (λ x. x.flags) f)

  -- A response that is accepted starts with the id of the request that waits for it; that id is
  -- kept, and the flags are the second integer of the message, as an int32.
  pub read_operation-answers :
      (r : ResponseOperation) (m : M) (r' : ResponseOperation) (m' : M)
      → read_operation u r m ≡ ok (r', m')
      → (rid : ℤ) × (m1 : M) × (flags : ℤ) × (m2 : M) × (u.read_int64 m ≡ ok (rid, m1))
        × (same_int rid r.request_id ≡ true)
        × (u.read_int64 m1 ≡ ok (flags, m2))
        × (r'.request_id ≡ r.request_id)
        × (r'.flags ≡ wrap (2 ^ 64) flags % 2 ^ 32)
  unfolding read_operation
  read_operation-answers r m r' m' e =
      let (a, ea, e1) =
        >>=-eq-ok (or_wrap "failed to read operation response id" (u.read_int64 m)) _ e in
      let (b, eb, e2) = >>=-eq-ok (or_wrap "failed to read flags" (u.read_int64 a.1)) _ e1 in
      let f : ℕ = wrap (2 ^ 64) b.0 in
      let (c, ec, e3) = >>=-eq-ok (skip_timestamp u (partition_changed f) b.1) _ e2 in
      let (d, ed, e4) =
        >>=-eq-ok (or_wrap "failed to read observable timestamp" (u.read_timestamp c)) _ e3 in
      let (g, eg, e5) =
        >>=-eq-ok
          (guard (same_int a.0 r.request_id) (errorf "invalid request ID: got %d, but expected %d"))
          _ e4 in
      let k = kept (is_error f) (record r { flags = f % 2 ^ 32; obs_ts = d.0 }) d.1 r' m' e5 in
      (
        a.0,
        a.1,
        b.0,
        b.1,
        or_wrap-eq-ok _ (u.read_int64 m) ea,
        guard-eq-ok _ _ eg,
        or_wrap-eq-ok _ (u.read_int64 a.1) eb,
        k.0,
        k.1,
      )
