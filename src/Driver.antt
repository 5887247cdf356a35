-- ===== src/Driver.antt =====
-- The connection of database/sql: sql/v1/conn.go, and newRows of sql/v1/rows.go. `bad_conn` is
-- driver.ErrBadConn, and `sort` is sort.Slice by ordinals.
pub mod Cursors
pub mod DataSources
pub mod Lifecycle
pub mod Opening
pub mod Ordinals
pub mod Served
pub mod Statements
pub mod Uses
use ignite3_go_client.Base.{
  ℕ, List, [], ◌∷◌, Bool, true, false, Option, none, some, String, if◌then◌else◌,
}
use ignite3_go_client.Base.Int.{ℤ, pos}
use ignite3_go_client.Base.Result.{Result, ok, err, panic, Error, errorf, or_wrap, ◌>>=◌}
use ignite3_go_client.Values.{Value}
use ignite3_go_client.ResultSets.{ColumnMetadata}
use ignite3_go_client.ResultSets.Metadata.{read_metadata}
use ignite3_go_client.ResultSets.Rows.{Connection, Rows, positive}
use ignite3_go_client.Msgpack.{Decoder}
use ignite3_go_client.Client.{Socket, Client, Protocol, Run, and_then, close_client}
use ignite3_go_client.Queries.{
  QueryData, QueryPacker, query_sql_fields_raw, query_sql_fields, resource_close,
}
use ignite3_go_client.Queries.Results.{Header, zero_header, QueryResult, read_query_header}

-- The part of common.ConnInfo that queries use.
pub record ConnInfo : Type 0 where
  pub schema : String
  pub page_size : ℤ
  pub timeout : ℤ

-- `client` is none once the connection is closed.
pub record Conn (W : Type 0) : Type 0 where
  pub info : ConnInfo
  pub client : Option (Client W)

pub record NamedValue : Type 0 where
  pub ordinal : ℤ
  pub value : Value

-- A driver.Result: the rows that a statement changed, or driver.ResultNoRows.
pub data ExecResult : Type 0 where
  affected : ℤ → ExecResult
  no_rows : ExecResult

abbrev pub bad_conn : Error
bad_conn = errorf "driver: bad connection"

abbrev pub values : List NamedValue → List Value
values [] = []
values (a ∷ as') = a.value ∷ values as'

-- Runs an operation on the client of a connection that `isConnected`.
abbrev pub with_client : {W A : Type 0} → Run W A → Conn W → Result A × Conn W
with_client op c = elim c.client [
  | none ↦ (err bad_conn, c)
  | some client ↦
      let out = op client in
      if client.connected then (out.0, record c { client = some out.1 }) else (err bad_conn, c)
]

module _ {M : Type 0} (d : Decoder M) where
  -- The row count of the first page.
  unfoldable pub read_count : Bool → M → Result (ℤ × M)
  read_count has_row_set m =
      let count = or_wrap "failed to read row count" (d.decode_int64 m) in
      if has_row_set then count else ok (pos 0, m)

  -- newRows: `var result ignite3.QuerySQLResult`, and `id: result.ResponseId`.
  unfoldable pub new_rows : M → Result (Rows M)
  new_rows m = do
    (h, m1) ← read_query_header d zero_header m
    (metadata, m2) ← read_metadata d m1
    (count, m3) ← read_count h.has_row_set m2
    ok (record {
      response = some m3;
      metadata = metadata;
      id = h.response_id;
      rows_left = count;
      has_more = h.has_more;
    })

module _ {M W : Type 0} (p : Protocol M) (s : Socket W) (k : QueryPacker)
    (sort : List NamedValue → List NamedValue) where
  unfoldable pub conn_resource_close : ℤ → Conn W → Result (Unit {0}) × Conn W
  conn_resource_close id c = with_client (resource_close p s k id) c

  -- QueryNexPageContext calls QuerySQLFieldsCursorGetPageRaw, which the client only has from a nil
  -- interface that it embeds.
  unfoldable pub query_next_page : ℤ → Conn W → Result M × Conn W
  query_next_page id c = with_client (λ client. (panic, client)) c

  abbrev pub query_of : ConnInfo → ℤ → String → List NamedValue → QueryData
  query_of info page_size query args = record {
    schema = info.schema;
    query = query;
    query_args = values (sort args);
    page_size = page_size;
    timeout = info.timeout;
  }

  -- The end of ExecContext: the cursor is closed by the id of the response.
  unfoldable pub finish_exec : QueryResult → Run W ExecResult
  finish_exec r client =
      let result =
        if positive r.header.affected_rows then affected r.header.affected_rows else no_rows in
      let close_text = or_wrap "failed to close server cursor" in
      let closed = resource_close p s k r.response_id client in
      if r.header.has_more
      then ((do _ ← close_text closed.0; ok result), closed.1)
      else (ok result, client)

  unfoldable pub exec_context : ℤ → String → List NamedValue → Conn W → Result ExecResult × Conn W
  exec_context now query args c =
      let q = query_of c.info (pos 10000) query args in
      with_client
        (λ client.
          let out = query_sql_fields p s k now q client in
          and_then (or_wrap "failed to execute query" out.0, out.1) finish_exec)
        c

  unfoldable pub query_context : ℤ → String → List NamedValue → Conn W → Result (Rows M) × Conn W
  query_context now query args c =
      let q = query_of c.info c.info.page_size query args in
      with_client
        (λ client.
          let out = query_sql_fields_raw p s k now q client in
          and_then (or_wrap "failed to execute query" out.0, out.1)
            (λ m client'. (new_rows p.decoder m, client')))
        c

  -- Close
  unfoldable pub close_conn : Conn W → Result (Unit {0}) × Conn W
  close_conn c = elim c.client [
    | none ↦ (ok tt, c)
    | some client ↦ ((close_client s client).0, record c { client = none })
  ]

  -- What the rows of a query use of the connection.
  abbrev pub driver_connection : Connection M (Conn W)
  driver_connection = record {
    read_int = p.decoder.decode_int64;
    read_bytes = p.decoder.decode_bytes;
    query_next_page = query_next_page;
    resource_close = conn_resource_close;
  }
