-- ===== src/Client/Heartbeat.antt =====
-- Heartbeats: SendHeartbeat of binary/v1/client.go with binary/v1/request-heartbeat.go and
-- response-heartbeat.go.
use ignite3_go_client.Base.{ℕ, suc, ◌<◌, ◌^◌, [], ◌∷◌, ◌++◌, Bytes, none, true, ◌≡◌, ap, ◌∙◌, arith}
use mathlib.Core.List.{append_assoc}
use ignite3_go_client.Base.Int.{ℤ, pos}
use ignite3_go_client.Base.Result.{Result, ok, errorf, new_error, or_wrap, guard, ◌>>=◌, ◌>>◌}
use ignite3_go_client.Wire.{be_bytes}
use ignite3_go_client.ColumnTypes.Lookup.{same_int}
use ignite3_go_client.Requests.{read_frame}
use ignite3_go_client.Requests.Frames.{read_frame-framed}
use ignite3_go_client.Msgpack.{Decoder}
use ignite3_go_client.Client.{Socket, Protocol, Run, next_id, do_request}
use ignite3_go_client.Client.Calls.{next_id-pos}

abbrev pub op_heartbeat : ℤ
op_heartbeat = pos 1

-- The length is the constant 2, whatever follows.
unfoldable pub heartbeat_frame : (ℤ → Bytes) → ℤ → ℤ → Bytes
heartbeat_frame pack_int64 code uid = be_bytes 4 2 ++ (pack_int64 code ++ pack_int64 uid)

pub record ResponseHeartbeat : Type 0 where
  pub uid : ℤ
  pub status : ℤ
  pub unknown_data : ℤ

-- ReadFrom, after the message has come in; the ids and the status are read as int8.
unfoldable pub read_heartbeat : {M : Type 0} → Decoder M → ℤ → M → Result ResponseHeartbeat
read_heartbeat d uid m = do
  (got, m1) ← or_wrap "failed to read operation response id" (d.decode_int8 m)
  (status, m2) ← or_wrap "failed to read status code" (d.decode_int8 m1)
  (unknown, _) ← or_wrap "failed to read unkown data" (d.decode_int64 m2)
  guard (same_int status (pos 0)) (errorf "failed to read error message")
  guard (same_int got uid) (errorf "invalid request ID: got %d, but expected %d")
  ok (record { uid = uid; status = status; unknown_data = unknown })

-- CheckStatus
unfoldable pub check_heartbeat : ResponseHeartbeat → Result (Unit {0})
check_heartbeat r = guard (same_int r.status (pos 0)) (new_error r.status "")

-- The id is counted here, and once more by Do.
unfoldable pub send_heartbeat : {M W : Type 0} → Protocol M → Socket W → Run W (Unit {0})
send_heartbeat p s c =
    let out =
      do_request s (heartbeat_frame p.pack_int64 op_heartbeat c.request_id)
        (λ stream. do
          (msg, _) ← or_wrap "failed to read operation response" (read_frame stream)
          read_heartbeat p.decoder c.request_id (p.open_message msg))
        (record c { request_id = next_id c.request_id }) in
    ((do r ← or_wrap "failed to execute OP_HEARTBEAT operation" out.0; check_heartbeat r), out.1)

-- A reader of frames takes the code and one byte of the id for the whole heartbeat, where the code is
-- one byte; the bytes of a longer id stay in front of the next frame. With an id of one byte the
-- heartbeat is one frame.
pub read_frame-heartbeat_frame :
    (pack_int64 : ℤ → Bytes) (code uid : ℤ) (a b : ℕ) (more rest : Bytes)
    → pack_int64 code ≡ a ∷ []
    → pack_int64 uid ≡ b ∷ more
    → read_frame (heartbeat_frame pack_int64 code uid ++ rest) ≡ ok (a ∷ b ∷ [], more ++ rest)
unfolding heartbeat_frame
read_frame-heartbeat_frame pack_int64 code uid a b more rest ec eu =
    rw (ec, eu, append_assoc (be_bytes 4 2) (a ∷ b ∷ more) rest)
      (read_frame-framed (a ∷ b ∷ []) (more ++ rest) (omega arith))

-- A heartbeat that is sent over a connection takes two request ids, whatever the server answers.
pub send_heartbeat-request_id :
    {M W : Type 0} (p : Protocol M) (s : Socket W) (w w1 : W) (k : ℕ)
    → suc (suc k) < 2 ^ 63
    → s.send (heartbeat_frame p.pack_int64 op_heartbeat (pos k)) w ≡ (none, w1)
    → (send_heartbeat p s (record { connected = true; conn = w; request_id = pos k })).1.request_id
      ≡ pos (suc (suc k))
unfolding send_heartbeat do_request
send_heartbeat-request_id p s w w1 k small sent =
    rw (sent) (ap next_id (next_id-pos k (omega arith)) ∙ next_id-pos (suc k) small)
