-- ===== src/Client/Calls.antt =====
-- A client that runs one operation after the other against a server that keeps the protocol.
use ignite3_go_client.Base.{
  ℕ, suc, ◌+◌, ◌<◌, ◌^◌, List, [], ◌∷◌, ◌++◌, Bytes, true, none, String, length, ◌≡◌, refl, ap,
  arith,
}
use ignite3_go_client.Base.Int.{ℤ, pos}
use ignite3_go_client.Base.Result.{Result, ok, err, panic, ◌>>=◌}
use ignite3_go_client.Wire.{be_bytes}
use ignite3_go_client.Requests.{request_frame}
use ignite3_go_client.Requests.Frames.{read_frame-framed}
use ignite3_go_client.Msgpack.Laws.{Encoder, IsLawful}
use ignite3_go_client.Client.{
  Socket, Client, Protocol, next_id, do_request, read_response, call, and_then,
}
use ignite3_go_client.Client.Answers.{Answer, IsSendable, put_answer, outcome, checked-put_answer}

pub next_id-pos : (k : ℕ) → suc k < 2 ^ 63 → next_id (pos k) ≡ pos (suc k)
unfolding next_id
next_id-pos k h = ground arith

-- A server: what it answers to an operation with a payload, and the server then.
abbrev pub Server : Type 0 → Type 0 → Type 0
Server S M = S → ℤ → Bytes → Answer M × S

-- A connection, in a state that stands for a server's, to that server: each request that is sent comes
-- back as one frame with the request's id and the server's answer, whatever comes behind it.
pub record Reaches {M W S : Type 0} (p : Protocol M) (e : Encoder M) (s : Socket W)
    (server : Server S M) : Type 1 where
  pub Holds : W → S → Type 0
  pub bytes_of : M → Bytes
  pub opened :
      (st : S) (id code : ℤ) (payload : Bytes)
      → p.open_message (bytes_of (put_answer e id (server st code payload).0))
        ≡ put_answer e id (server st code payload).0
  pub sendable : (st : S) (code : ℤ) (payload : Bytes) → IsSendable (server st code payload).0
  pub short :
      (st : S) (id code : ℤ) (payload : Bytes)
      → length (bytes_of (put_answer e id (server st code payload).0)) < 2 ^ 31
  pub answered :
      (w : W) (st : S) (id code : ℤ) (payload : Bytes)
      → Holds w st
      → (w1 : W) × (w2 : W) × (rest : Bytes) × (s.send
            (request_frame p.pack_int64 code id payload)
            w
          ≡ (none, w1))
        × (s.receive w1 ≡ (
          be_bytes 4 (length (bytes_of (put_answer e id (server st code payload).0)))
              ++ (bytes_of (put_answer e id (server st code payload).0) ++ rest),
          w2,
        ))
        × Holds w2 (server st code payload).1

-- The client over a connection in the state `w`, about to give the id `k`.
abbrev pub at_server : {W : Type 0} → W → ℕ → Client W
at_server w k = record { connected = true; conn = w; request_id = pos k }

-- An answer with its body left out.
abbrev pub done : {M : Type 0} → Result M → Result (Unit {0})
done r = r >>= λ _. ok tt

pub finished :
    {M W : Type 0} (a : Result M) (c : Client W)
    → and_then (a, c) (λ _ c'. (ok tt, c')) ≡ (done a, c)
finished (ok m) c = refl
finished (err x) c = refl
finished panic c = refl

-- Operations one after the other: the text of the caller's error, the code and the payload.
abbrev pub Operations : Type 0
Operations = List (String × (ℤ × Bytes))

unfoldable pub run_calls :
    {M W : Type 0} → Protocol M → Socket W → Operations → Client W → List (Result M) × Client W
run_calls p s [] c = ([], c)
run_calls p s ((text, (code, payload)) ∷ ops) c =
    let out = call p s text code payload c in
    let rest = run_calls p s ops out.1 in (out.0 ∷ rest.0, rest.1)

-- What they should do: the server's answers in order.
unfoldable pub serve :
    {M S : Type 0} → (String → String → String) → Server S M → Operations → S → List (Result M) × S
serve join server [] st = ([], st)
serve join server ((text, (code, payload)) ∷ ops) st =
    let out = server st code payload in
    let rest = serve join server ops out.1 in (outcome join out.0 ∷ rest.0, rest.1)

module _ {M W S : Type 0} (p : Protocol M) (e : Encoder M) (l : IsLawful p.decoder e) (s : Socket W)
    (server : Server S M) (r : Reaches p e s server) where
  pub call-answer :
      (text : String) (code : ℤ) (payload : Bytes) (w : W) (k : ℕ) (st : S)
      → suc k < 2 ^ 63
      → r.Holds w st
      → (w2 : W) × (call p s text code payload
            (record { connected = true; conn = w; request_id = pos k })
          ≡ (
            outcome p.join (server st code payload).0,
            record { connected = true; conn = w2; request_id = pos (suc k) },
          ))
        × r.Holds w2 (server st code payload).1
  unfolding call do_request read_response
  call-answer text code payload w k st small h =
      let (w1, w2, rest, sent, came, holds) = r.answered w st (pos k) code payload h in
      let msg : Bytes = r.bytes_of (put_answer e (pos k) (server st code payload).0) in
      (
        w2,
        rw
            (
              sent,
              came,
              read_frame-framed msg rest (r.short st (pos k) code payload),
              r.opened st (pos k) code payload,
              checked-put_answer p e l text (pos k) (server st code payload).0 (omega arith)
                  (r.sendable st code payload),
            )
            (ap
              (λ z. (
                outcome p.join (server st code payload).0,
                record { connected = true; conn = w2; request_id = z },
              ))
              (next_id-pos k small)),
        holds,
      )

  -- Against such a server, a client that runs operations one after the other gives its callers exactly
  -- the server's answers, in order, as the abstract run of the server does: bodies, and errors
  -- with their code and text. It counts one id for each, stays connected, and ends with a connection to
  -- the server in the state that the answers leave.
  pub run_calls-serve :
      (ops : Operations) (w : W) (k : ℕ) (st : S)
      → k + length ops < 2 ^ 63
      → r.Holds w st
      → (w' : W) × (run_calls p s ops (record { connected = true; conn = w; request_id = pos k })
          ≡ (
            (serve p.join server ops st).0,
            record { connected = true; conn = w'; request_id = pos (k + length ops) },
          ))
        × r.Holds w' (serve p.join server ops st).1
  unfolding run_calls serve
  run_calls-serve [] w k st small h = (
    w,
    ap (λ n. ([], record { connected = true; conn = w; request_id = pos n })) (omega arith),
    h,
  )
  run_calls-serve ((text, (code, payload)) ∷ ops) w k st small h =
      let (w1, eq, held) = call-answer text code payload w k st (omega arith) h in
      let (w2, more, holds) =
        run_calls-serve ops w1 (suc k) (server st code payload).1 (omega arith) held in
      (
        w2,
        rw (eq, more)
            (ap
              (λ n. (
                outcome p.join (server st code payload).0
                    ∷ (serve p.join server ops (server st code payload).1).0,
                record { connected = true; conn = w2; request_id = pos n },
              ))
              (omega arith)),
        holds,
      )
