-- ===== src/Tables/Sends.antt =====
-- UpsertAll and DeleteAll over a client: the end of tupleWriteAll of
-- binary/v1/client-tuple-operations.go.
use ignite3_go_client.Base.{
  ℕ, suc, ◌<◌, ◌^◌, List, [], ◌∷◌, Bytes, Bool, true, false, length, ◌≢◌, ◌⊎◌, inl, inr, ap, Option,
  none, some, String, ◌≡◌, refl,
}
use ignite3_go_client.Base.Int.{ℤ, pos, Fits}
use ignite3_go_client.Base.Result.{Result, ok, err, panic}
use ignite3_go_client.Values.{GoLib}
use ignite3_go_client.Msgpack.Laws.{Encoder, IsLawful}
use ignite3_go_client.Client.{Socket, Client, Protocol, Run, call, and_then}
use ignite3_go_client.Client.Answers.{outcome}
use ignite3_go_client.Client.Calls.{Server, Reaches, at_server, done, finished, call-answer}
use ignite3_go_client.Tables.Received.{Reader, ReadsBack, read_write}
use ignite3_go_client.Tables.Writes.{Tuples, Sent, upsert_all-Sent}
use ignite3_go_client.Tables.{
  number_of, Row, Table, Sort, Row, Packer, Operation, upsert_all, delete_all,
}

module _ {M W : Type 0} (p : Protocol M) (s : Socket W) where
  -- No tuples, no request.
  unfoldable pub send_operation : Option Operation → Run W (Unit {0})
  send_operation none c = (ok tt, c)
  send_operation (some op) c =
      and_then (call p s "failed to execute tuple operation %d" (number_of op.code) op.data_bytes c)
        (λ _ c'. (ok tt, c'))

  module _ (lib : GoLib) (to_upper : String → String) (sort : Sort) (k : Packer) (t : Table) where
    unfoldable pub table_upsert_all : List Row → Run W (Unit {0})
    table_upsert_all rows c = and_then (upsert_all lib to_upper sort k t rows, c) send_operation

    unfoldable pub table_delete_all : List Row → Run W (Unit {0})
    table_delete_all keys c = and_then (delete_all lib to_upper sort k t keys, c) send_operation

module _ {M W S : Type 0} (p : Protocol M) (e : Encoder M) (l : IsLawful p.decoder e) (s : Socket W)
    (server : Server S M) (r : Reaches p e s server) where
  module _ (lib : GoLib) (to_upper : String → String) (sort : Sort) (pack : Packer)
      (reader : Reader) (laws : ReadsBack pack reader) (t : Table) where
    -- What a write of `rows` with the operation `number` does to the client and to the server in the state
    -- `st`. Without rows nothing is sent. Rows that are encoded go out in one payload that reads as the
    -- table's id, its schema version and their tuples in order: the caller gets the server's answer to that
    -- number and payload, and the server is in the state behind it. Where a row is not encoded, the caller
    -- gets no success and nothing is sent.
    abbrev pub Writes : ℤ → Bool → List Row → W → ℕ → S → Result (Unit {0}) × Client W → Type 0
    Writes number only [] w k st out = out ≡ (ok tt, at_server w k)
    Writes number only (row ∷ rows) w k st out =
        ((ts : List Bytes) × Tuples lib to_upper sort t.schema only (row ∷ rows) ts
          × (payload : Bytes) × (read_write reader payload ≡ some (t.id, t.schema.version, ts))
          × (w2 : W) × (out
              ≡ (done (outcome p.join (server st number payload).0), at_server w2 (suc k)))
          × r.Holds w2 (server st number payload).1)
        ⊎ ((((ts : List Bytes) × Tuples lib to_upper sort t.schema only (row ∷ rows) ts) → ⊥)
            × (out.1 ≡ at_server w k)
            × (out.0 ≢ ok tt))

    Sent-Writes :
        (number : ℤ) (only : Bool) (rows : List Row) (made : Result (Option Operation)) (w : W)
        (k : ℕ) (st : S)
        → suc k < 2 ^ 63
        → r.Holds w st
        → Sent lib to_upper sort pack reader laws t number only rows made
        → Writes number only rows w k st (and_then (made, at_server w k) (send_operation p s))
    unfolding send_operation
    Sent-Writes number only [] made w k st small h e =
        ap (λ m. and_then (m, at_server w k) (send_operation p s)) e
    Sent-Writes number only (row ∷ rows) (ok none) w k st small h e = absurd e
    Sent-Writes number only (row ∷ rows) (ok (some op)) w k st small h (is, ts, encoded, back) =
        let text : String = "failed to execute tuple operation %d" in
        let (w2, eq, held) =
          call-answer p e l s server r text number op.data_bytes w k st small h in
        inl (
          ts,
          encoded,
          op.data_bytes,
          back,
          w2,
          rw is (
              rw eq (
                finished (outcome p.join (server st number op.data_bytes).0)
                  (at_server w2 (suc k)))),
          held,
        )
    Sent-Writes number only (row ∷ rows) (err x) w k st small h never = inr (never, refl, λ e. cc)
    Sent-Writes number only (row ∷ rows) panic w k st small h never = inr (never, refl, λ e. cc)

    -- Over a connection to a server that keeps the protocol, UpsertAll sends its rows under the number 13 and
    -- DeleteAll its keys under 29, in one request: the caller gets the server's answer to it, and the server
    -- is in the state behind it. The payload reads as the table's id, its schema version and the tuples of
    -- the rows in order. Without rows, or where a row is not encoded, nothing is sent, and the client and the
    -- server stay as they were; in the second case the caller does not get a success.
    pub table_upsert_all-Writes :
        (rows : List Row) (w : W) (k : ℕ) (st : S)
        → Fits (2 ^ 63) t.id
        → Fits (2 ^ 63) t.schema.version
        → length rows < 2 ^ 63
        → suc k < 2 ^ 63
        → r.Holds w st
        → Writes
            (pos 13)
            false
            rows
            w
            k
            st
            (table_upsert_all p s lib to_upper sort pack t rows (at_server w k))
          × Writes
              (pos 29)
              true
              rows
              w
              k
              st
              (table_delete_all p s lib to_upper sort pack t rows (at_server w k))
    unfolding table_upsert_all table_delete_all
    table_upsert_all-Writes rows w k st id version few small h =
        let (puts, deletes) =
          upsert_all-Sent lib to_upper sort pack reader laws t rows id version few in
        (
          Sent-Writes (pos 13) false rows (upsert_all lib to_upper sort pack t rows) w k st small h
              puts,
          Sent-Writes (pos 29) true rows (delete_all lib to_upper sort pack t rows) w k st small h
              deletes,
        )
