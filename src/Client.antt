-- ===== src/Client.antt =====
-- The client of binary/v1/client.go: Do, Connected, Close and the request id, with the pattern of a
-- request and its response that every operation follows.
pub mod Answers
pub mod Calls
pub mod Connected
pub mod Handshake
pub mod Heartbeat
pub mod Interleaving
use ignite3_go_client.Base.{
  ℕ, ◌+◌, ◌%◌, ◌^◌, [], Bytes, Bool, true, false, Option, none, some, String, if◌then◌else◌,
}
use ignite3_go_client.Base.Int.{ℤ, pos, negsuc, signed, sub_ℕ}
use ignite3_go_client.Base.Result.{Result, ok, err, panic, Error, wrapf, or_wrap, ◌>>=◌, ◌>>◌}
use ignite3_go_client.Msgpack.{Decoder, unpacker}
use ignite3_go_client.Requests.{
  request_frame, read_frame, ResponseOperation, read_operation, check_status,
}

-- A net.Conn in the state `W`. `receive` gives what a new buffered reader takes off the connection for
-- one response: bytes that it has taken and that the response leaves are lost with it.
pub record Socket (W : Type 0) : Type 0 where
  pub send : Bytes → W → Option Error × W
  pub receive : W → Bytes × W
  pub close_conn : W → Option Error × W

-- `connected` is `conn != nil`.
pub record Client (W : Type 0) : Type 0 where
  pub connected : Bool
  pub conn : W
  pub request_id : ℤ

-- `c.RequestId++` on an int64
unfoldable pub next_id : ℤ → ℤ
next_id (pos n) = signed (2 ^ 63) ((n + 1) % 2 ^ 64)
next_id (negsuc n) = sub_ℕ 0 n

-- What an operation of the client does: its outcome and the client after it.
abbrev pub Run : Type 0 → Type 0 → Type 0
Run W A = Client W → Result A × Client W

-- The steps after a call, which an error or a panic of it skips.
abbrev pub and_then : {W A B : Type 0} → Result A × Client W → (A → Run W B) → Result B × Client W
and_then (ok a, c) rest = rest a c
and_then (err e, c) rest = (err e, c)
and_then (panic, c) rest = (panic, c)

module _ {W : Type 0} (s : Socket W) where
  -- Do, on a request that is a sequence of bytes and a response that is read by `read_from`. The id
  -- grows once the request is sent, whatever the response. Writing to a nil connection panics.
  abbrev pub received :
      {A : Type 0} → (Bytes → Result A) → Client W → Option Error × W → Result A × Client W
  received read_from c (some e, w) =
      (err (wrapf e "failed to send request to server"), record c { conn = w })
  received read_from c (none, w) = (
    read_from (s.receive w).0,
    record c { conn = (s.receive w).1; request_id = next_id c.request_id },
  )

  unfoldable pub do_request : {A : Type 0} → Bytes → (Bytes → Result A) → Run W A
  do_request frame read_from c =
      if c.connected then received read_from c (s.send frame c.conn) else (panic, c)

  -- Close: a second one does nothing.
  abbrev pub closed : Client W → Option Error × W → Result (Unit {0}) × Client W
  closed c (some e, w) = (err e, record c { conn = w; connected = false })
  closed c (none, w) = (ok tt, record c { conn = w; connected = false })

  unfoldable pub close_client : Run W (Unit {0})
  close_client c = if c.connected then closed c (s.close_conn c.conn) else (ok tt, c)

-- What goes through msgpack and strings.Join.
pub record Protocol (M : Type 0) : Type 0 where
  pub decoder : Decoder M
  pub pack_int64 : ℤ → Bytes
  pub open_message : Bytes → M
  pub join : String → String → String

-- NewResponseOperation
unfoldable pub new_response : ℤ → ResponseOperation
new_response uid = record {
  request_id = uid;
  flags = 0;
  obs_ts = pos 0;
  code = pos 0;
  uuid = [];
  message = "";
  details = "";
}

module _ {M : Type 0} (p : Protocol M) where
  unfoldable pub read_response : ℤ → Bytes → Result (ResponseOperation × M)
  read_response uid stream = do
    (msg, _) ← or_wrap "failed to read operation response" (read_frame stream)
    read_operation (unpacker p.decoder) (new_response uid) (p.open_message msg)

  -- NewRequestOperation and NewResponseOperation with the client's id, Do, and CheckStatus: the message
  -- behind the header, if the server has not answered with an error.
  unfoldable pub checked : String → Result (ResponseOperation × M) → Result M
  checked text res = do (r, m) ← or_wrap text res; check_status p.join r; ok m

  unfoldable pub call : {W : Type 0} → Socket W → String → ℤ → Bytes → Run W M
  call s text code payload c =
      let frame = request_frame p.pack_int64 code c.request_id payload in
      let out = do_request s frame (read_response c.request_id) c in (checked text out.0, out.1)
