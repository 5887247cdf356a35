-- ===== src/Tests/Protocols.antt =====
-- The client against a server that answers every operation with an empty body, and handshakes.
use ignite3_go_client.Base.{
  ℕ, suc, ◌+◌, ◌*◌, ◌/◌, ◌%◌, [], ◌∷◌, ◌++◌, Bytes, true, none, ◌==◌, length, if◌then◌else◌, ◌≡◌,
  ◌≢◌, ◌⊎◌, refl, ap, arith,
}
use ignite3_go_client.Base.Int.{ℤ, pos, negsuc}
use ignite3_go_client.Base.Result.{ok}
use ignite3_go_client.Wire.{be_bytes}
use ignite3_go_client.Requests.{request_frame}
use ignite3_go_client.Msgpack.{no_error, trace_id, other_object}
use ignite3_go_client.Client.{Socket, Protocol}
use ignite3_go_client.Client.Answers.{reply}
use ignite3_go_client.Client.Calls.{Server, Reaches, Operations, run_calls, serve, run_calls-serve}
use ignite3_go_client.Client.Handshake.{
  TextPacker, RequestHandshake, ResponseHandshake, read_version, read_node, read_handshake,
  handshake_frame, connect,
}
use ignite3_go_client.Client.Handshake.Reads.{
  read_handshake-object, exchanged, Settled, connect-Settled,
}
use ignite3_go_client.Client.Interleaving.{System, prepare, connected_to, made, performed, Reach}
use ignite3_go_client.Client.Interleaving.Ids.{replicate, ids_repeat}
use ignite3_go_client.Tests.Tokens.{Tokens, int_token, text_token, tokens, writer, tokens-IsLawful}

-- An integer as one number.
abbrev fold : ℤ → ℕ
fold (pos n) = 2 * n
fold (negsuc n) = 2 * n + 1

abbrev unfold_int : ℕ → ℤ
unfold_int x = if x % 2 == 0 then pos (x / 2) else negsuc (x / 2)

unfold_int-fold : (z : ℤ) → unfold_int (fold z) ≡ z
unfold_int-fold (pos n) = ground arith
unfold_int-fold (negsuc n) = ground arith

-- The message that starts with an integer, and then has two zeros.
abbrev opened_message : Bytes → Tokens
opened_message [] = []
opened_message (x ∷ _) = int_token (unfold_int x) ∷ int_token (pos 0) ∷ int_token (pos 0) ∷ []

abbrev message_bytes : Tokens → Bytes
message_bytes (int_token z ∷ _) = fold z ∷ []
message_bytes _ = []

abbrev pub protocol : Protocol Tokens
protocol = record {
  decoder = tokens;
  pack_int64 = λ z. fold z ∷ [];
  open_message = opened_message;
  join = λ a b. a;
}

-- The sixth byte of a request is its id.
abbrev id_of_frame : Bytes → ℕ
id_of_frame (_ ∷ _ ∷ _ ∷ _ ∷ _ ∷ id ∷ _) = id
id_of_frame _ = 0

-- The number of requests, and the response that waits.
abbrev pub echo : Socket (ℕ × Bytes)
echo = record {
  send = λ frame w. (none, (suc w.0, be_bytes 4 1 ++ id_of_frame frame ∷ []));
  receive = λ w. (w.1, (w.0, []));
  close_conn = λ w. (none, w);
}

abbrev pub counter : Server ℕ Tokens
counter st code payload = (reply (pos 0) [], suc st)

pub opened_id :
    (id : ℤ)
    → opened_message (fold id ∷ []) ≡ int_token id ∷ int_token (pos 0) ∷ int_token (pos 0) ∷ []
opened_id id = rw (unfold_int-fold id) refl

pub answered_id :
    (w : ℕ × Bytes) (st : ℕ) (id code : ℤ) (payload : Bytes)
    → w.0 ≡ st
    → (w1 : ℕ × Bytes) × (w2 : ℕ × Bytes) × (rest : Bytes) × (echo.send
          (request_frame protocol.pack_int64 code id payload)
          w
        ≡ (none, w1))
      × (echo.receive w1 ≡ (be_bytes 4 1 ++ ((fold id ∷ []) ++ rest), w2))
      × (w2.0 ≡ suc st)
unfolding request_frame be_bytes
answered_id w st id code payload h =
    ((suc w.0, be_bytes 4 1 ++ fold id ∷ []), (suc w.0, []), [], refl, refl, ap suc h)

abbrev pub echo_reaches : Reaches protocol writer echo counter
echo_reaches = record {
  Holds = λ w st. w.0 ≡ st;
  bytes_of = message_bytes;
  opened = λ st id code payload. opened_id id;
  sendable = λ st code payload. omega arith;
  short = λ st id code payload. omega arith;
  answered = answered_id;
}

abbrev two_calls : Operations
two_calls = ("close", (pos 52, [])) ∷ ("tables", (pos 3, 7 ∷ [])) ∷ []

run_calls-serve_example :
    (w' : ℕ × Bytes) × (run_calls protocol echo two_calls
        (record { connected = true; conn = (5, []); request_id = pos 8 })
      ≡ (
        (serve protocol.join counter two_calls 5).0,
        record { connected = true; conn = w'; request_id = pos (8 + length two_calls) },
      ))
    × (w'.0 ≡ (serve protocol.join counter two_calls 5).1)
run_calls-serve_example =
    run_calls-serve protocol writer tokens-IsLawful echo counter echo_reaches two_calls (5, []) 8 5
      (omega arith) refl

-- Two requests are made, and the first of them is performed.
abbrev op : ℤ
op = pos 50

abbrev fresh : System (ℕ × Bytes)
fresh = connected_to (0, [])

abbrev two_made : System (ℕ × Bytes)
two_made = made op [] (made op [] fresh)

abbrev one_performed : System (ℕ × Bytes)
one_performed =
    performed protocol echo two_made (prepare op [] fresh.client) (prepare op [] fresh.client ∷ [])

ids_repeat_example :
    (y : System (ℕ × Bytes)) × Reach protocol echo (0, []) y
    × (y.waiting ≡ [])
    × (y.sent ≡ replicate 3 (pos 0))
ids_repeat_example = ids_repeat protocol echo (λ b w. refl) (0, []) 3

abbrev version : ℤ × ℤ × ℤ
version = (pos 3, pos 0, pos 0)

-- A refusal by an object that is a text.
abbrev hello : Tokens
hello =
    int_token (pos 3)
    ∷ int_token (pos 0)
    ∷ int_token (pos 0)
    ∷ text_token "no"
    ∷ int_token (pos 1)
    ∷ []

hello_version : read_version tokens hello ≡ ok (version, text_token "no" ∷ int_token (pos 1) ∷ [])
unfolding read_version
hello_version = refl

read_handshake-object_example :
    (((id : Bytes)
        → other_object ≡ trace_id id
        → (r : ResponseHandshake) → read_handshake tokens hello ≢ ok r)
      × ((other_object ≡ no_error) ⊎ (other_object ≡ other_object)
          → read_handshake tokens hello ≡ read_node tokens version (int_token (pos 1) ∷ []))
      × ((r : ResponseHandshake)
          → read_handshake tokens hello ≡ ok r
          → (r.success ≡ true) × (r.version ≡ version)))
read_handshake-object_example =
    read_handshake-object tokens hello (text_token "no" ∷ int_token (pos 1) ∷ [])
      (int_token (pos 1) ∷ []) version other_object hello_version refl

abbrev pub text_packer : TextPacker
text_packer = record { pack_string = λ s. []; pack_bytes = λ b. b }

abbrev greeting : RequestHandshake
greeting = record { major = pos 3; minor = pos 0; patch = pos 0; auth_info = [] }

connect-Settled_example :
    Settled protocol echo
      (exchanged protocol echo (echo.send (handshake_frame text_packer greeting) (0, [])))
      (connect protocol echo (λ a b. true) text_packer greeting (0, []))
connect-Settled_example = connect-Settled protocol echo (λ a b. true) text_packer greeting (0, [])
