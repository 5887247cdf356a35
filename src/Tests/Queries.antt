-- ===== src/Tests/Queries.antt =====
-- Metadata, rows and cursors of queries.
use ignite3_go_client.Base.{
  ℕ, List, [], ◌∷◌, Bytes, true, false, Option, none, some, String, length, ◌≡◌, refl, arith,
}
use ignite3_go_client.Base.Int.{ℤ, pos}
use ignite3_go_client.Base.Result.{ok, ◌>>=◌}
use ignite3_go_client.ColumnTypes.{entry, kind_int32, col_types}
use ignite3_go_client.ColumnTypes.Lookup.{get_column_type_by_id}
use ignite3_go_client.ResultSets.{
  ColumnOrigin, ColumnMetadata, get_schema_origin_name_by_id, get_table_origin_name_by_id,
  get_column_origin_name_by_id, origin_schema, origin_table, origin_column,
}
use ignite3_go_client.ResultSets.Metadata.{
  read_metadata, rounds, read_columns, read_column, read_origin_option,
}
use ignite3_go_client.ResultSets.Metadata.Numbering.{AreNumbered, read_metadata-AreNumbered}
use ignite3_go_client.ResultSets.Metadata.RoundTrip.{
  Form, in_full, earlier, AllWritable, put_columns, columns_of, read_metadata-put_columns,
}
use ignite3_go_client.ResultSets.Rows.{Rows, close, row_cells}
use ignite3_go_client.Queries.Results.{
  named_row, convert_fields, read_query_header, read_resource_id,
}
use ignite3_go_client.Queries.Rows.{enter, AreNames, named_row-row_cells}
use ignite3_go_client.Msgpack.{try_read_packed_nil}
use ignite3_go_client.Queries.{QueryPacker}
use ignite3_go_client.Client.{Client}
use ignite3_go_client.Driver.{ConnInfo, Conn, driver_connection, new_rows, read_count}
use ignite3_go_client.Driver.Cursors.{advanced, close-new_rows}
use ignite3_go_client.Tests.Protocols.{protocol, echo}
use ignite3_go_client.Tests.Tokens.{Tokens, int_token, bool_token, tokens, writer, tokens-IsLawful}

abbrev int_column : String → ℕ → Option ColumnOrigin → ColumnMetadata
int_column name i origin = record {
  name = name;
  nullable = true;
  column_type = entry "INT" 4 kind_int32 false false false;
  precision = pos 10;
  scale = pos 0;
  index = pos i;
  origin = origin;
}

abbrev origin_of : String → ColumnOrigin
origin_of name = record { schema = "PUBLIC"; table = "T"; column = name }

-- A column with its origin in full, and one that refers to it.
abbrev two_columns : List (Form × ColumnMetadata)
two_columns =
    (
      record { same_name = true; schema = in_full; table = in_full },
      int_column "A" 0 (some (origin_of "A")),
    )
    ∷ (
      record { same_name = false; schema = earlier 0; table = earlier 0 },
      int_column "B" 1 (some (origin_of "C")),
    )
    ∷ []

int_found :
    get_column_type_by_id col_types (pos 4) ≡ ok (entry "INT" 4 kind_int32 false false false)
unfolding get_column_type_by_id
int_found = refl

two_columns-AllWritable : AllWritable [] 0 two_columns
unfolding get_schema_origin_name_by_id get_table_origin_name_by_id origin_schema origin_table
two_columns-AllWritable = (
  record {
    placed = refl;
    typed = int_found;
    type_fits = omega arith;
    scale_fits = omega arith;
    precision_fits = omega arith;
    origin_fits = ((λ _. refl), tt, tt);
  },
  (
    record {
      placed = refl;
      typed = int_found;
      type_fits = omega arith;
      scale_fits = omega arith;
      precision_fits = omega arith;
      origin_fits = ((λ no_name. cc), (omega arith, refl), (omega arith, refl));
    },
    tt,
  ),
)

abbrev two_sent : Tokens
two_sent = writer.put_int (pos 2) (put_columns writer two_columns [])

read_metadata-put_columns_example : read_metadata tokens two_sent ≡ ok (columns_of two_columns, [])
read_metadata-put_columns_example =
    read_metadata-put_columns tokens writer tokens-IsLawful two_columns [] (omega arith)
      two_columns-AllWritable

two_read : read_metadata tokens two_sent ≡ ok (columns_of two_columns, [])
two_read =
    read_metadata-put_columns tokens writer tokens-IsLawful two_columns [] (omega arith)
      two_columns-AllWritable

read_metadata-AreNumbered_example :
    (count : ℤ) × (m1 : Tokens) × (tokens.decode_int64 two_sent ≡ ok (count, m1))
    × (length (columns_of two_columns) ≡ rounds count)
    × AreNumbered 0 (columns_of two_columns)
read_metadata-AreNumbered_example =
    read_metadata-AreNumbered tokens two_sent (columns_of two_columns) [] two_read

abbrev metadata : List ColumnMetadata
metadata = int_column "A" 0 (some (origin_of "A")) ∷ []

metadata-AreNames : AreNames metadata 0 metadata ("A" ∷ [])
unfolding get_column_origin_name_by_id origin_column
metadata-AreNames = (refl, tt)

-- The tuple of 300.
abbrev tuple_300 : Bytes
tuple_300 = 0 ∷ 2 ∷ 0x2c ∷ 1 ∷ []

named_row-row_cells_example :
    named_row "failed to get column type parsing rows" convert_fields metadata tuple_300
    ≡ (row_cells metadata tuple_300 >>= λ out. ok (enter ("A" ∷ []) out []))
named_row-row_cells_example =
    named_row-row_cells metadata ("A" ∷ []) tuple_300 ((refl, int_found), tt) metadata-AreNames

-- A column without an origin.
abbrev no_origin : ColumnMetadata
no_origin = int_column "A" 0 none

-- The first page of a query: a cursor 7 with more pages, one column and one row.
abbrev first_page : Tokens
first_page =
    int_token (pos 7)
    ∷ bool_token true
    ∷ bool_token true
    ∷ bool_token false
    ∷ int_token (pos 0)
    ∷ writer.put_int (pos 1) (
        put_columns writer
          ((record { same_name = true; schema = in_full; table = in_full }, no_origin) ∷ [])
          (int_token (pos 1) ∷ []))

abbrev page_rows : ℤ → Rows Tokens
page_rows left = record {
  response = some [];
  metadata = no_origin ∷ [];
  id = pos 0;
  rows_left = left;
  has_more = true;
}

first_page_rows : new_rows tokens first_page ≡ ok (page_rows (pos 1))
unfolding new_rows read_query_header read_resource_id try_read_packed_nil read_metadata read_columns
    read_column get_column_type_by_id read_origin_option read_count
first_page_rows = refl

abbrev pub query_packer : QueryPacker
query_packer = record {
  pack_int64 = λ z. [];
  pack_null = [];
  pack_string = λ s. [];
  pack_bytes = λ b. b;
}

abbrev pub info : ConnInfo
info = record { schema = "PUBLIC"; page_size = pos 10; timeout = pos 0 }

abbrev pub open_client : Client (ℕ × Bytes)
open_client = record { connected = true; conn = (0, []); request_id = pos 1 }

abbrev pub open_conn : Conn (ℕ × Bytes)
open_conn = record { info = info; client = some open_client }

-- After the one row, and the panic behind it
close-new_rows_example :
    ((close
        (driver_connection protocol echo query_packer (λ l. l))
        (advanced protocol echo query_packer
          (λ l. l)
          info
          open_client
          refl
          2
          1
          (page_rows (pos 1))
          open_conn).0
        (advanced protocol echo query_packer
          (λ l. l)
          info
          open_client
          refl
          2
          1
          (page_rows (pos 1))
          open_conn).1).0
      ≡ ok tt)
    × ((close
          (driver_connection protocol echo query_packer (λ l. l))
          (advanced protocol echo query_packer
            (λ l. l)
            info
            open_client
            refl
            2
            1
            (page_rows (pos 1))
            open_conn).0
          (advanced protocol echo query_packer
            (λ l. l)
            info
            open_client
            refl
            2
            1
            (page_rows (pos 1))
            open_conn).1).2
        ≡ open_conn)
close-new_rows_example =
    close-new_rows protocol echo query_packer (λ l. l) info open_client refl first_page
      (page_rows (pos 1)) 2 1 first_page_rows
