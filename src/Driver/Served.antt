-- ===== src/Driver/Served.antt =====
-- ExecContext over a connection to a server: what is asked of the server, and what comes of it.
use ignite3_go_client.Base.{
  ℕ, suc, ◌<◌, ◌^◌, List, [], Bytes, some, String, if◌then◌else◌, Bool-cases, inl, inr, ◌≡◌, refl,
  ap, arith,
}
use ignite3_go_client.Base.Int.{ℤ, pos}
use ignite3_go_client.Base.Result.{Result, ok, err, panic, wrapf, or_wrap, ◌>>=◌}
use ignite3_go_client.ColumnTypes.Lookup.{same_int}
use ignite3_go_client.ResultSets.Rows.{positive}
use ignite3_go_client.Msgpack.Laws.{Encoder, IsLawful}
use ignite3_go_client.Client.{Socket, Client, Protocol, and_then}
use ignite3_go_client.Client.Answers.{outcome}
use ignite3_go_client.Client.Calls.{Server, Reaches, at_server, done, finished, call-answer}
use ignite3_go_client.Queries.{
  QueryPacker, QueryData, op_sql_execute, op_sql_cursor_close, query_payload, query_sql_fields_raw,
  query_sql_fields, resource_close,
}
use ignite3_go_client.Queries.Results.{QueryResult, convert_fields, read_result}
use ignite3_go_client.Driver.{
  ConnInfo, Conn, NamedValue, ExecResult, affected, no_rows, query_of, finish_exec, exec_context,
}

-- A result with the number of the next request and the state of the server.
abbrev pub Served : Type 0 → Type 0 → Type 0
Served S A = Result A × ℕ × S

abbrev pub exec_result : QueryResult → ExecResult
exec_result q = if positive q.header.affected_rows then affected q.header.affected_rows else no_rows

module _ {M S : Type 0} (p : Protocol M) (server : Server S M) where
  abbrev pub answer : S → ℤ → Bytes → Result M
  answer st code payload = outcome p.join (server st code payload).0

  abbrev pub after : S → ℤ → Bytes → S
  after st code payload = (server st code payload).1

  -- A cursor is closed by one request, but not under the id 0.
  abbrev pub close_served : ℤ → ℕ → S → Served S (Unit {0})
  close_served id n st =
      if same_int id (pos 0)
      then (ok tt, n, st)
      else (done (answer st op_sql_cursor_close []), suc n, after st op_sql_cursor_close [])

  abbrev pub finish_served : QueryResult → ℕ → S → Served S ExecResult
  finish_served q n st =
      let (closed, n', st') = close_served q.response_id n st in
      if q.header.has_more
      then ((do _ ← or_wrap "failed to close server cursor" closed; ok (exec_result q)), n', st')
      else (ok (exec_result q), n, st)

  abbrev pub result_served : Result QueryResult → ℕ → S → Served S ExecResult
  result_served (ok q) n st = finish_served q n st
  result_served (err x) n st = (err (wrapf x "failed to execute query"), n, st)
  result_served panic n st = (panic, n, st)

  -- A query that is encoded is sent once; its answer is read as the answer to the request `n`.
  abbrev pub exec_served : Result Bytes → ℕ → S → Served S ExecResult
  exec_served (ok payload) n st =
      result_served
        (answer st op_sql_execute payload
          >>= read_result p.decoder "failed to get column type parsing rows" convert_fields (pos n))
        (suc n) (after st op_sql_execute payload)
  exec_served (err x) n st = (err (wrapf x "failed to execute query"), n, st)
  exec_served panic n st = (panic, n, st)

module _ {M W S : Type 0} (p : Protocol M) (e : Encoder M) (l : IsLawful p.decoder e) (s : Socket W)
    (server : Server S M) (r : Reaches p e s server) (k : QueryPacker)
    (sort : List NamedValue → List NamedValue) where
  -- The client gives that result, and is left with that number and a connection to that server.
  abbrev Comes : {A : Type 0} → Result A × Client W → Served S A → Type 0
  Comes out sv = (w2 : W) × (out ≡ (sv.0, at_server w2 sv.1)) × r.Holds w2 sv.2

  close-Comes :
      (id : ℤ) (w : W) (n : ℕ) (st : S)
      → suc n < 2 ^ 63
      → r.Holds w st
      → Comes (resource_close p s k id (at_server w n)) (close_served p server id n st)
  unfolding resource_close
  close-Comes id w n st small h = elim (Bool-cases (same_int id (pos 0))) [
    | inl zero_id ↦ rw zero_id (w, refl, h)
    | inr other_id ↦
        let (w2, eq, held) =
          call-answer p e l s server r "failed to execute SQL_CURSOR_CLOSE operation"
            op_sql_cursor_close [] w n st small h in
        rw other_id (w2, rw eq (finished _ (at_server w2 (suc n))), held)
  ]

  finish-Comes :
      (q : QueryResult) (w : W) (n : ℕ) (st : S)
      → suc n < 2 ^ 63
      → r.Holds w st
      → Comes (finish_exec p s k sort q (at_server w n)) (finish_served p server q n st)
  unfolding finish_exec
  finish-Comes q w n st small h = elim (Bool-cases q.header.has_more) [
    | inl more ↦
        let (w2, eq, held) = close-Comes q.response_id w n st small h in
        rw more (w2, rw eq refl, held)
    | inr last ↦ rw last (w, refl, h)
  ]

  result-Comes :
      (res : Result QueryResult) (w : W) (n : ℕ) (st : S)
      → suc n < 2 ^ 63
      → r.Holds w st
      → Comes
          (and_then (or_wrap "failed to execute query" res, at_server w n) (finish_exec p s k sort))
          (result_served p server res n st)
  result-Comes (ok q) w n st small h = finish-Comes q w n st small h
  result-Comes (err x) w n st small h = (w, refl, h)
  result-Comes panic w n st small h = (w, refl, h)

  read_behind :
      (res : Result M) (read : M → Result QueryResult) (c : Client W)
      → and_then (res, c) (λ m c'. (read m, c')) ≡ (res >>= read, c)
  read_behind (ok m) read c = refl
  read_behind (err x) read c = refl
  read_behind panic read c = refl

  exec-Comes :
      (now : ℤ) (q : QueryData) (made : Result Bytes) (w : W) (n : ℕ) (st : S)
      → query_payload k now q ≡ made
      → suc (suc n) < 2 ^ 63
      → r.Holds w st
      → Comes
          (and_then
            (
              or_wrap "failed to execute query" (query_sql_fields p s k now q (at_server w n)).0,
              (query_sql_fields p s k now q (at_server w n)).1,
            )
            (finish_exec p s k sort))
          (exec_served p server made n st)
  unfolding query_sql_fields query_sql_fields_raw
  exec-Comes now q (ok payload) w n st m small h =
      let (w1, eq, held) =
        call-answer p e l s server r "failed to execute SQL_EXECUTE operation" op_sql_execute
          payload w n st (omega arith) h in
      let read =
        read_result p.decoder "failed to get column type parsing rows" convert_fields (pos n) in
      rw
        (m, eq, read_behind (answer p server st op_sql_execute payload) read (at_server w1 (suc n)))
        (result-Comes (answer p server st op_sql_execute payload >>= read) w1 (suc n)
          (after p server st op_sql_execute payload) small held)
  exec-Comes now q (err x) w n st m small h = rw m (w, refl, h)
  exec-Comes now q panic w n st m small h = rw m (w, refl, h)

  -- The connection gives that result, and its client is left with that number and a connection to that
  -- server.
  abbrev pub Serves : ConnInfo → Served S ExecResult → Result ExecResult × Conn W → Type 0
  Serves info sv out =
      (w2 : W) × (out ≡ (sv.0, record { info = info; client = some (at_server w2 sv.1) }))
      × r.Holds w2 sv.2

  -- Over a connection to a server that keeps the protocol, ExecContext asks what its specification asks:
  -- one query with page size 10000 and the arguments in their order, and where the answer says that
  -- there are more pages, one request to close the cursor, unless the query had the id 0. Its result, the
  -- next id and the state of the server are those of the specification, for every answer, errors
  -- included; a query that is not encoded asks nothing.
  pub exec_context-exec_served :
      (now : ℤ) (query : String) (args : List NamedValue) (info : ConnInfo) (w : W) (n : ℕ) (st : S)
      → suc (suc n) < 2 ^ 63
      → r.Holds w st
      → Serves info
          (exec_served p server
            (query_payload k now (query_of p s k sort info (pos 10000) query args))
            n
            st)
          (exec_context p s k sort now query args
            (record { info = info; client = some (at_server w n) }))
  unfolding exec_context
  exec_context-exec_served now query args info w n st small h =
      let q = query_of p s k sort info (pos 10000) query args in
      let (w2, eq, held) = exec-Comes now q (query_payload k now q) w n st refl small h in
      (
        w2,
        ap
            (λ (out : Result ExecResult × Client W).
              (out.0, record { info = info; client = some out.1 }))
            eq,
        held,
      )
