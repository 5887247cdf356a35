-- ===== src/ResultSets/Rows.antt =====
-- The rows of a query for database/sql: rows of sql/v1/rows.go, with Columns, Close and Next. What the
-- connection does (fetch a page, close a cursor, take a number or a byte string off a message) is a
-- parameter: it goes through msgpack and the network.
pub mod Cursor
pub mod Ends
pub mod Keeps
pub mod Nulls
pub mod Types
use text.Mathlib.Text.{◌==◌ as str_eq}
use ignite3_go_client.Base.{
  ℕ, zero, suc, List, [], ◌∷◌, ◌++◌, Bytes, Bool, true, false, Option, none, some, String, ltb,
  ◌==◌, length, if◌then◌else◌,
}
use ignite3_go_client.Base.Int.{ℤ, pos, negsuc}
use ignite3_go_client.Base.Result.{Result, ok, err, panic, Error, errorf, wrapf, or_wrap, ◌>>=◌}
use ignite3_go_client.ColumnTypes.{ColumnType, GoKind, kind_struct}
use ignite3_go_client.ColumnTypes.Lookup.{type_of_id, same_int}
use ignite3_go_client.ResultSets.{ColumnMetadata, get_column_type}
use ignite3_go_client.Tuples.{ColumnInfo, TypeScaleValue, new_tuple}
use ignite3_go_client.Tuples.Scan
use ignite3_go_client.Tuples.Scan.{Scanned, get_value}

-- A cell: a value of GetValue, or the text of its String method.
pub data Cell : Type 0 where
  raw : Scanned → Cell
  shown : Scanned → Cell

-- `value.(Decimal)` and the other assertions panic on any other dynamic type, nil included.
unfoldable pub as_decimal : Scanned → Result Cell
as_decimal (Scanned.decimal d) = ok (shown (Scanned.decimal d))
as_decimal _ = panic

unfoldable pub as_uuid : Scanned → Result Cell
as_uuid (Scanned.uuid u) = ok (shown (Scanned.uuid u))
as_uuid _ = panic

unfoldable pub as_time : Scanned → Result Cell
as_time (Scanned.civil c) = ok (shown (Scanned.civil c))
as_time (Scanned.instant t) = ok (shown (Scanned.instant t))
as_time _ = panic

abbrev pub is_struct : GoKind → Bool
is_struct kind_struct = true
is_struct _ = false

-- "Convert value if needed"
unfoldable pub convert : ColumnType → Scanned → Result Cell
convert t v =
    if is_struct t.go_kind
    then if str_eq t.sql_type_name "DECIMAL"
      then as_decimal v
      else if str_eq t.sql_type_name "UUID"
      then as_uuid v
      else if str_eq t.sql_type_name "DATETIME"
      then as_time v
      else if str_eq t.sql_type_name "TIMESTAMP"
      then as_time v
      else err (errorf "Unsupported column type: %s at %d")
    else ok (raw v)

abbrev pub info_of : ColumnMetadata → ColumnInfo
info_of c = record {
  type_id = type_of_id c.column_type.type_id;
  scale = c.scale;
  precision = c.precision;
}

abbrev pub infos_of : List ColumnMetadata → List ColumnInfo
infos_of [] = []
infos_of (c ∷ cs) = info_of c ∷ infos_of cs

-- `for i := 0; i < len(r.metadata.Columns); i++`
unfoldable pub cells :
    List ColumnMetadata → List TypeScaleValue → ℕ → List ColumnMetadata → Result (List Cell)
cells metadata tuple i [] = ok []
cells metadata tuple i (_ ∷ rest) = do
  t ← or_wrap "failed to get column type parsing rows" (get_column_type metadata (pos i))
  v ← or_wrap "failed to parse column %d" (get_value tuple (pos i) (type_of_id t.type_id))
  c ← convert t v
  more ← cells metadata tuple (suc i) rest
  ok (c ∷ more)

unfoldable pub row_cells : List ColumnMetadata → Bytes → Result (List Cell)
row_cells metadata bs = do
  tuple ← or_wrap "failed to parse row tuple" (new_tuple (infos_of metadata) bs)
  cells metadata tuple 0 metadata

-- `M` is a message that is being read, `W` the state of the connection.
pub record Connection (M W : Type 0) : Type 0 where
  pub read_int : M → Result (ℤ × M)
  pub read_bytes : M → Result (Bytes × M)
  pub query_next_page : ℤ → W → Result M × W
  pub resource_close : ℤ → W → Result (Unit {0}) × W

-- `fields` has one entry for each column of the metadata. `response` is nil after a failed fetch.
pub record Rows (M : Type 0) : Type 0 where
  pub response : Option M
  pub metadata : List ColumnMetadata
  pub id : ℤ
  pub rows_left : ℤ
  pub has_more : Bool

-- Columns, and ColumnTypeDatabaseTypeName with the bounds of its index.
abbrev pub names_of : List ColumnMetadata → List String
names_of [] = []
names_of (c ∷ cs) = c.name ∷ names_of cs

unfoldable pub columns : {M : Type 0} → Rows M → List String
columns r = names_of r.metadata

abbrev pub sql_type_at : List ColumnMetadata → ℕ → Result String
sql_type_at [] i = panic
sql_type_at (c ∷ cs) zero = ok c.column_type.sql_type_name
sql_type_at (c ∷ cs) (suc i) = sql_type_at cs i

unfoldable pub column_type_database_type_name : {M : Type 0} → Rows M → ℕ → Result String
column_type_database_type_name r i = sql_type_at r.metadata i

pub data Outcome : Type 0 where
  row : List Cell → Outcome
  eof : Outcome
  failed : Error → Outcome
  panicked : Outcome

abbrev pub positive : ℤ → Bool
positive (pos n) = ltb 0 n
positive (negsuc n) = false

abbrev pub decrement : ℤ → ℤ
decrement (pos zero) = negsuc 0
decrement (pos (suc n)) = pos n
decrement (negsuc n) = negsuc (suc n)

module _ {M W : Type 0} (conn : Connection M W) where
  -- The cursor is closed on the server only while rows are left.
  unfoldable pub close : Rows M → W → Result (Unit {0}) × Rows M × W
  close r w =
      if positive r.rows_left
      then (let (res, w') = conn.resource_close r.id w in (res, record r { rows_left = pos 0 }, w'))
      else (ok tt, r, w)

  -- Close, whose own error is dropped, and the error that led to it.
  unfoldable pub give_up : Error → Rows M → W → Outcome × Rows M × W
  give_up e r w = let (_, r', w') = close r w in (failed e, r', w')

  unfoldable pub finish : Rows M → W → Result (List Cell) → Outcome × Rows M × W
  finish r w (ok cs) = (row cs, record r { rows_left = decrement r.rows_left }, w)
  finish r w (err e) = (failed e, r, w)
  finish r w panic = (panicked, r, w)

  -- A message that is not read stays as it was: the decoder says nothing of how far it came.
  unfoldable pub from_bytes : Rows M → W → Result (Bytes × M) → Outcome × Rows M × W
  from_bytes r w (ok (bs, m)) = finish (record r { response = some m }) w (row_cells r.metadata bs)
  from_bytes r w (err e) = (failed (wrapf e "failed to read row tuple"), r, w)
  from_bytes r w panic = (panicked, r, w)

  unfoldable pub from_response : Rows M → W → Option M → Outcome × Rows M × W
  from_response r w none = (panicked, r, w)
  from_response r w (some m) = from_bytes r w (conn.read_bytes m)

  -- The rest of Next, once a page is there.
  unfoldable pub take_row : ℕ → Rows M → W → Outcome × Rows M × W
  take_row width r w =
      if length r.metadata == width
      then from_response r w r.response
      else (failed (errorf "destination slice size must be %d but got %d"), r, w)

  unfoldable pub counted : ℕ → Rows M → W → Result (ℤ × M) → Outcome × Rows M × W
  counted width r w (ok (n, m)) = take_row width (record r { response = some m; rows_left = n }) w
  counted width r w (err e) = give_up (wrapf e "failed to read row count") r w
  counted width r w panic = (panicked, r, w)

  unfoldable pub paged : ℕ → Rows M → Result M × W → Outcome × Rows M × W
  paged width r (ok m, w) = counted width (record r { response = some m }) w (conn.read_int m)
  paged width r (err e, w) =
      give_up (wrapf e "failed to read cursor page") (record r { response = none }) w
  paged width r (panic, w) = (panicked, r, w)

  unfoldable pub next : ℕ → Rows M → W → Outcome × Rows M × W
  next width r w =
      if same_int r.rows_left (pos 0)
      then if r.has_more then paged width r (conn.query_next_page r.id w) else (eof, r, w)
      else take_row width r w
