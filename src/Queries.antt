-- ===== src/Queries.antt =====
-- SQL queries: the operations of binary/v1/client-sql-and-scan-queries.go. `now` is time.Now, and the
-- formats of msgpack are parameters.
pub mod Results
pub mod Rows
use text.Mathlib.Text.{◌==◌ as str_eq}
use ignite3_go_client.Base.{
  ℕ, zero, suc, List, [], ◌∷◌, ◌++◌, Bytes, Bool, true, false, Option, none, some, String, ltb,
  length, if◌then◌else◌,
}
use ignite3_go_client.Base.Int.{ℤ, pos}
use ignite3_go_client.Base.Result.{Result, ok, err, panic, or_wrap, errorf, ◌>>=◌}
use ignite3_go_client.ColumnTypes.{ColumnType}
use ignite3_go_client.ColumnTypes.Lookup.{type_of_id, same_int}
use ignite3_go_client.Values.{Value}
use ignite3_go_client.Arguments
use ignite3_go_client.Tuples.{TypeScaleValue, new_tuple}
use ignite3_go_client.Tuples.Scan.{Scanned, get_value}
use ignite3_go_client.ResultSets.{ColumnMetadata, get_column_type, get_column_origin_name_by_id}
use ignite3_go_client.ResultSets.Metadata.{read_metadata, rounds}
use ignite3_go_client.ResultSets.Rows.{
  Cell, raw, is_struct, as_decimal, as_uuid, as_time, convert, infos_of,
}
use ignite3_go_client.Msgpack.{
  Decoder, raw_of_timestamp, try_read_packed_nil, read_packed_int64_array,
}
use ignite3_go_client.Client.{Socket, Client, Protocol, Run, call, and_then}
use ignite3_go_client.Queries.Results.{
  QueryResult, RowMap, convert_fields, read_result, read_row_set,
}

-- QuerySQLData and QuerySQLFieldsData
pub record QueryData : Type 0 where
  pub schema : String
  pub query : String
  pub query_args : List Value
  pub page_size : ℤ
  pub timeout : ℤ

pub record QueryPacker : Type 0 where
  pub pack_int64 : ℤ → Bytes
  pub pack_null : Bytes
  pub pack_string : String → Bytes
  pub pack_bytes : Bytes → Bytes

abbrev pub op_sql_execute : ℤ
op_sql_execute = pos 50

abbrev pub op_sql_cursor_next_page : ℤ
op_sql_cursor_next_page = pos 51

abbrev pub op_sql_cursor_close : ℤ
op_sql_cursor_close = pos 52

-- `for i, v := range query.QueryArgs`
unfoldable pub add_args : List TypeScaleValue → List Value → Result (List TypeScaleValue)
add_args t [] = ok t
add_args t (v ∷ vs) = do
  t' ← or_wrap "failed to encode args %d" (Arguments.add_value t v)
  add_args t' vs

unfoldable pub packed_args : QueryPacker → List Value → Result Bytes
packed_args k [] = ok k.pack_null
packed_args k (v ∷ vs) = do
  t ← add_args [] (v ∷ vs)
  ok (k.pack_int64 (pos (length (v ∷ vs))) ++ k.pack_bytes (Arguments.bytes t))

-- What both QuerySQL and QuerySQLFieldsRaw send.
unfoldable pub query_payload : QueryPacker → ℤ → QueryData → Result Bytes
query_payload k now q = do
  args ← packed_args k q.query_args
  let schema = if str_eq q.schema "" then "PUBLIC" else q.schema
  let head =
      k.pack_null ++ (k.pack_string schema ++ (k.pack_int64 q.page_size ++ k.pack_int64 q.timeout))
  let properties = k.pack_null ++ (k.pack_null ++ (k.pack_int64 (pos 0) ++ k.pack_bytes (0 ∷ [])))
  let tail = k.pack_string q.query ++ (args ++ k.pack_int64 (raw_of_timestamp now))
  ok (head ++ (properties ++ tail))

module _ {M W : Type 0} (p : Protocol M) (s : Socket W) (k : QueryPacker) where
  unfoldable pub query_sql_fields_raw : ℤ → QueryData → Run W M
  query_sql_fields_raw now q c =
      and_then (query_payload k now q, c)
        (call p s "failed to execute SQL_EXECUTE operation" op_sql_execute)

  unfoldable pub query_sql : ℤ → QueryData → Run W QueryResult
  query_sql now q c =
      and_then (query_sql_fields_raw now q c)
        (λ m c'. (read_result p.decoder "failed to get column type" convert c.request_id m, c'))

  unfoldable pub query_sql_fields : ℤ → QueryData → Run W QueryResult
  query_sql_fields now q c = and_then (query_sql_fields_raw now q c) (λ m c'. (
    read_result p.decoder "failed to get column type parsing rows" convert_fields c.request_id m,
    c',
  ))

  -- ResourceClose: the id is not sent.
  unfoldable pub resource_close : ℤ → Run W (Unit {0})
  resource_close id c =
      let closed =
        and_then (call p s "failed to execute SQL_CURSOR_CLOSE operation" op_sql_cursor_close [] c)
          (λ _ c'. (ok tt, c')) in
      if same_int id (pos 0) then (ok tt, c) else closed

  -- A page of a cursor: its rows, and whether there are more.
  unfoldable pub read_page : List ColumnMetadata → M → Result (List RowMap × Bool)
  read_page metadata m = do
    (rows, m1) ← read_row_set "failed to get column type" convert_fields metadata p.decoder true m
    (more, _) ← or_wrap "failed to read has more pages" (p.decoder.decode_bool m1)
    ok (rows, more)

  unfoldable pub query_sql_cursor_get_page : ℤ → List ColumnMetadata → Run W (List RowMap × Bool)
  query_sql_cursor_get_page id metadata c =
      and_then
        (call p s "failed to execute SQL_CURSOR_NEXT_PAGE operation" op_sql_cursor_next_page
          (k.pack_int64 id) c)
        (λ m c'. (read_page metadata m, c'))
