-- ===== src/Queries/Results.antt =====
-- The message that answers a query: ReadQuerySQLResponseHeader, ReadPartitionAwareness and the loops over
-- rows in binary/v1/client-sql-and-scan-queries.go, and binary/v1/client-partition-awareness.go.
use text.Mathlib.Text.{◌==◌ as str_eq}
use ignite3_go_client.Base.{
  ℕ, zero, suc, List, [], ◌∷◌, Bytes, Bool, false, Option, none, some, String, ltb, if◌then◌else◌,
}
use ignite3_go_client.Base.Int.{ℤ, pos}
use ignite3_go_client.Base.Result.{Result, ok, err, or_wrap, errorf, ◌>>=◌}
use ignite3_go_client.ColumnTypes.{ColumnType}
use ignite3_go_client.ColumnTypes.Lookup.{type_of_id}
use ignite3_go_client.Tuples.{TypeScaleValue, new_tuple}
use ignite3_go_client.Tuples.Scan.{Scanned, get_value}
use ignite3_go_client.ResultSets.{ColumnMetadata, get_column_type, get_column_origin_name_by_id}
use ignite3_go_client.ResultSets.Metadata.{read_metadata, rounds}
use ignite3_go_client.ResultSets.Rows.{Cell, raw, is_struct, as_decimal, as_uuid, as_time, infos_of}
use ignite3_go_client.Msgpack.{Decoder, try_read_packed_nil, read_packed_int64_array}

-- The numbers and flags of QuerySQLResult. ReadQuerySQLResponseHeader sets all but the response id.
pub record Header : Type 0 where
  pub response_id : ℤ
  pub resource_id : ℤ
  pub has_row_set : Bool
  pub has_more : Bool
  pub was_applied : Bool
  pub affected_rows : ℤ

-- QuerySQLResult{}
abbrev pub zero_header : Header
zero_header = record {
  response_id = pos 0;
  resource_id = pos 0;
  has_row_set = false;
  has_more = false;
  was_applied = false;
  affected_rows = pos 0;
}

pub record PartitionAwareness : Type 0 where
  pub table_id : ℤ
  pub indexes : List ℤ
  pub hashes : List ℤ
  pub direct_tx_mode : ℕ

-- NewClientDirectTxModeFromByte
unfoldable pub direct_tx_mode_from_byte : ℕ → ℕ
direct_tx_mode_from_byte val = if ltb 2 val then 0 else val

module _ {M : Type 0} (d : Decoder M) where
  open d use {decode_int64, decode_bool, decode_uint8, decode_bytes}

  unfoldable pub read_resource_id : M → Result (ℤ × M)
  read_resource_id m = do
    (is_nil, m1) ← or_wrap "failed to read resource id existence" (try_read_packed_nil d m)
    let id = or_wrap "failed to read resource id value" (decode_int64 m1)
    if is_nil then ok (pos 0, m1) else id

  unfoldable pub read_query_header : Header → M → Result (Header × M)
  read_query_header result m = do
    (id, m1) ← read_resource_id m
    (row_set, m2) ← or_wrap "failed to read has row set" (decode_bool m1)
    (more, m3) ← or_wrap "failed to read has more pages" (decode_bool m2)
    (applied, m4) ← or_wrap "failed to read was applied" (decode_bool m3)
    (affected, m5) ← or_wrap "failed to read affected rows qty" (decode_int64 m4)
    let h : Header = record result {
      resource_id = id;
      has_row_set = row_set;
      has_more = more;
      was_applied = applied;
      affected_rows = affected;
    }
    ok (h, m5)

  abbrev pub read_direct_tx_mode : Bool → M → Result (ℕ × M)
  read_direct_tx_mode supported m =
      let mode = (do
        (b, m1) ←
            or_wrap "failed to read result set partition awareness direct TX mode support"
              (decode_uint8 m)
        ok (direct_tx_mode_from_byte b, m1)) in
      if supported then mode else ok (0, m)

  -- NewClientPartitionAwarenessMetadataFromReader
  unfoldable pub new_partition_awareness : Bool → M → Result (PartitionAwareness × M)
  new_partition_awareness supported m = do
    (ti, m1) ← or_wrap "failed to read result set partition awareness table ID" (decode_int64 m)
    (idx, m2) ←
        or_wrap "failed to read result set partition awareness indices"
          (read_packed_int64_array d m1)
    (h, m3) ←
        or_wrap "failed to read result set partition awareness hash" (read_packed_int64_array d m2)
    (mode, m4) ← read_direct_tx_mode supported m3
    let a : PartitionAwareness = record {
      table_id = ti;
      indexes = idx;
      hashes = h;
      direct_tx_mode = mode;
    }
    ok (a, m4)

  unfoldable pub read_partition_awareness : Bool → Bool → M → Result (Option PartitionAwareness × M)
  read_partition_awareness aware supported m =
      let some_metadata = (do
        (a, m1) ←
            or_wrap "failed to read client partition awareness metadata"
              (new_partition_awareness supported m)
        ok (some a, m1)) in
      if aware then some_metadata else ok (none, m)

-- The conversion of QuerySQLFields and QuerySQLCursorGetPage, with two more names than QuerySQL's.
unfoldable pub convert_fields : ColumnType → Scanned → Result Cell
convert_fields t v =
    if is_struct t.go_kind
    then if str_eq t.sql_type_name "DECIMAL"
      then as_decimal v
      else if str_eq t.sql_type_name "UUID"
      then as_uuid v
      else if str_eq t.sql_type_name "DATE"
      then as_time v
      else if str_eq t.sql_type_name "TIME"
      then as_time v
      else if str_eq t.sql_type_name "DATETIME"
      then as_time v
      else if str_eq t.sql_type_name "TIMESTAMP"
      then as_time v
      else err (errorf "Unsupported column type: %s at %d")
    else ok (raw v)

-- A Go map from names: the last cell of a name wins.
abbrev pub RowMap : Type 0
RowMap = List (String × Cell)

unfoldable pub set_cell : String → Cell → RowMap → RowMap
set_cell name v [] = (name, v) ∷ []
set_cell name v ((n, w) ∷ row) =
    if str_eq n name then (name, v) ∷ row else (n, w) ∷ set_cell name v row

module _ (type_error : String) (conv : ColumnType → Scanned → Result Cell)
    (metadata : List ColumnMetadata) where
  -- `for j, _ := range metadata.Columns`
  unfoldable pub named_cells :
      List TypeScaleValue → ℕ → List ColumnMetadata → RowMap → Result RowMap
  named_cells tuple j [] row = ok row
  named_cells tuple j (_ ∷ rest) row = do
    t ← or_wrap type_error (get_column_type metadata (pos j))
    name ← or_wrap "failed to get column name" (get_column_origin_name_by_id metadata (pos j))
    v ← or_wrap "failed to parse column %d" (get_value tuple (pos j) (type_of_id t.type_id))
    c ← conv t v
    named_cells tuple (suc j) rest (set_cell name c row)

  unfoldable pub named_row : Bytes → Result RowMap
  named_row bs = do
    tuple ← or_wrap "failed to parse row tuple" (new_tuple (infos_of metadata) bs)
    named_cells tuple 0 metadata []

  -- `for i := 0; i < int(rowCount); i++`
  unfoldable pub read_rows : {M : Type 0} → Decoder M → ℕ → M → Result (List RowMap × M)
  read_rows d zero m = ok ([], m)
  read_rows d (suc n) m = do
    (bs, m1) ← or_wrap "failed to read row tuple" (d.decode_bytes m)
    row ← named_row bs
    (rows, m2) ← read_rows d n m1
    ok (row ∷ rows, m2)

  unfoldable pub read_row_set : {M : Type 0} → Decoder M → Bool → M → Result (List RowMap × M)
  read_row_set d has_row_set m =
      let rows = (do
        (count, m1) ← or_wrap "failed to read row count" (d.decode_int64 m)
        read_rows d (rounds count) m1) in
      if has_row_set then rows else ok ([], m)

-- QuerySQLResult; the response id is that of the request.
pub record QueryResult : Type 0 where
  pub response_id : ℤ
  pub header : Header
  pub metadata : List ColumnMetadata
  pub rows : List RowMap

module _ {M : Type 0} (d : Decoder M) where
  unfoldable pub read_result :
      String → (ColumnType → Scanned → Result Cell) → ℤ → M → Result QueryResult
  read_result type_error conv uid m = do
    (h, m1) ← read_query_header d (record zero_header { response_id = uid }) m
    (metadata, m2) ← read_metadata d m1
    (_, m3) ← read_partition_awareness d false false m2
    (rows, _) ← read_row_set type_error conv metadata d h.has_row_set m3
    ok (record { response_id = h.response_id; header = h; metadata = metadata; rows = rows })
