-- ===== src/Tests/Clients.antt =====
-- Cursors, tables and frames.
use ignite3_go_client.Base.{
  ℕ, suc, ◌%◌, ◌^◌, List, [], ◌∷◌, ◌++◌, Bytes, Bool, true, false, none, some, All, length, ◌≡◌,
  ◌≢◌, refl, arith,
}
use ignite3_go_client.Base.Int.{ℤ, pos, wrap}
use ignite3_go_client.Base.Result.{ok, err, errorf}
use ignite3_go_client.ColumnTypes.{entry, kind_int32}
use ignite3_go_client.ColumnTypes.Lookup.{same_int, type_of_id}
use ignite3_go_client.ResultSets.{ColumnMetadata, get_column_type}
use ignite3_go_client.Wire.{from_le}
use ignite3_go_client.Integers.{decode_big_endian, sign_extend, shift_in}
use ignite3_go_client.Tuples.Scan.{get_value, scan_elem, scan, scan_payload}
use ignite3_go_client.Tuples.{
  new_tuple, from_header, elements_loop, start_offset, end_offset, entry_offset, make_checked,
  read_value, copy_down, index,
}
use ignite3_go_client.Tuples.Scan
use ignite3_go_client.ResultSets.Rows.{raw, row_cells, cells, convert, Connection, Rows, eof}
use ignite3_go_client.ResultSets.Rows.Ends.{Stops, nexts-Stops}
use ignite3_go_client.ResultSets.Rows.Cursor.{nexts, nexts-never_eof, then_eof, nexts-drain}
use ignite3_go_client.Requests.{
  request_frame, read_frame, Unpacker, ResponseOperation, read_operation,
}
use ignite3_go_client.Requests.Frames.{read_frame-request_frame, read_operation-answers}

-- A message is the list of its byte strings; the server has no further page.
abbrev lists : Connection (List Bytes) ℕ
lists = record {
  read_int = λ m. ok (pos (length m), m);
  read_bytes = λ m. elim m [ [] ↦ err (errorf "EOF") | ◌∷◌ b (bs → _) ↦ ok (b, bs) ];
  query_next_page = λ i w. (err (errorf "closed"), suc w);
  resource_close = λ i w. (ok tt, suc w);
}

abbrev number_column : ColumnMetadata
number_column = record {
  name = "N";
  nullable = true;
  column_type = entry "INT" 4 kind_int32 false false false;
  precision = pos 10;
  scale = pos 0;
  index = pos 0;
  origin = none;
}

-- The tuple of 300.
abbrev tuple_300 : Bytes
tuple_300 = 0 ∷ 2 ∷ 0x2c ∷ 1 ∷ []

-- One row of one column is left.
abbrev one_number : Bool → Rows (List Bytes)
one_number more = record {
  response = some (tuple_300 ∷ []);
  metadata = number_column ∷ [];
  id = pos 7;
  rows_left = pos 1;
  has_more = more;
}

cells_300 : row_cells (number_column ∷ []) tuple_300 ≡ ok (raw (Scan.int32 (pos 300)) ∷ [])
unfolding row_cells cells get_column_type get_value scan_elem scan scan_payload convert type_of_id
    new_tuple from_header elements_loop start_offset end_offset entry_offset make_checked read_value
    copy_down index from_le decode_big_endian sign_extend shift_in
cells_300 = refl

nexts-never_eof_example : All (λ o. o ≢ eof) (nexts lists 1 3 (one_number true) 0)
nexts-never_eof_example = nexts-never_eof lists 1 3 (one_number true) 0 refl

nexts-drain_example :
    nexts lists 1 2 (one_number false) 0 ≡ then_eof lists 1 ((raw (Scan.int32 (pos 300)) ∷ []) ∷ [])
nexts-drain_example =
    nexts-drain lists 1 ((raw (Scan.int32 (pos 300)) ∷ []) ∷ []) (one_number false) 0
      (tuple_300 ∷ []) refl refl refl refl (tuple_300, [], refl, cells_300, tt)

read_frame-request_frame_example :
    read_frame (request_frame (λ n. wrap 128 n ∷ []) (pos 12) (pos 5) (1 ∷ 2 ∷ []) ++ (9 ∷ []))
    ≡ ok (12 ∷ 5 ∷ 1 ∷ 2 ∷ [], 9 ∷ [])
read_frame-request_frame_example =
    read_frame-request_frame (λ n. wrap 128 n ∷ []) (pos 12) (pos 5) (1 ∷ 2 ∷ []) (9 ∷ [])
      (omega arith)

-- Messages as lists of numbers.
abbrev numbers : Unpacker (List ℤ)
numbers = record {
  read_int64 = λ m. elim m [ [] ↦ err (errorf "EOF") | ◌∷◌ n (ns → _) ↦ ok (n, ns) ];
  read_string = λ m. ok ("", m);
  read_uuid = λ m. ok ([], m);
  read_timestamp = λ m. ok (pos 0, m);
}

abbrev waiting : ResponseOperation
waiting = record {
  request_id = pos 5;
  flags = 0;
  obs_ts = pos 0;
  code = pos 0;
  uuid = [];
  message = "";
  details = "";
}

accepted : read_operation numbers waiting (pos 5 ∷ pos 0 ∷ []) ≡ ok (waiting, [])
unfolding read_operation
accepted = refl

read_operation-answers_example :
    (rid : ℤ) × (m1 : List ℤ) × (flags : ℤ) × (m2 : List ℤ) × (numbers.read_int64
        (pos 5 ∷ pos 0 ∷ [])
      ≡ ok (rid, m1))
    × (same_int rid (pos 5) ≡ true)
    × (numbers.read_int64 m1 ≡ ok (flags, m2))
    × (waiting.request_id ≡ pos 5)
    × (waiting.flags ≡ wrap (2 ^ 64) flags % 2 ^ 32)
read_operation-answers_example =
    read_operation-answers numbers waiting (pos 5 ∷ pos 0 ∷ []) waiting [] accepted

nexts-Stops_example : Stops (nexts lists 1 2 (one_number false) 0)
nexts-Stops_example = nexts-Stops lists 1 1 (one_number false) 0 refl refl
