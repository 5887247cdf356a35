-- ===== src/ResultSets/Metadata.antt =====
-- Reading the metadata of a result set off a message: NewResultSetMetadataFromReader and what it calls,
-- in binary/v1/client-result-set.go.
pub mod Numbering
pub mod RoundTrip
use ignite3_go_client.Base.{
  ℕ, zero, suc, List, [], ◌∷◌, ◌++◌, Bool, Option, none, some, String, ltb, not, if◌then◌else◌,
}
use ignite3_go_client.Base.Int.{ℤ, pos, negsuc}
use ignite3_go_client.Base.Result.{Result, ok, err, errorf, or_wrap, ◌>>=◌}
use ignite3_go_client.ColumnTypes.{ColumnType, col_types}
use ignite3_go_client.ColumnTypes.Lookup.{get_column_type_by_id, same_int}
use ignite3_go_client.Msgpack.{Decoder, try_read_packed_nil, try_read_packed_int_with_default}
use ignite3_go_client.ResultSets.{
  ColumnOrigin, ColumnMetadata, get_schema_origin_name_by_id, get_table_origin_name_by_id,
}

-- The rounds of `for i := 0; i < int(n); i++`
abbrev pub rounds : ℤ → ℕ
rounds (pos n) = n
rounds (negsuc n) = 0

-- `n < 9`
abbrev pub below_nine : ℤ → Bool
below_nine (pos n) = ltb n 9
below_nine (negsuc n) = Bool.true

module _ {M : Type 0} (d : Decoder M) where
  open d use {decode_int64, decode_string, decode_bool}

  unfoldable pub read_origin_name : String → M → Result (String × M)
  read_origin_name column_name m = do
    (cn, m1) ←
        or_wrap "failed to peek result set column origin name as nil" (try_read_packed_nil d m)
    let name = or_wrap "failed to read result set column origin name" (decode_string m1)
    if cn then ok (column_name, m1) else name

  -- A name in full, or the name at the place of an earlier column.
  unfoldable pub read_reference :
      String → String → String → (ℤ → Result String) → M → Result (String × M)
  read_reference peek_error index_error name_error name_by_id m = do
    (idx, m1) ← or_wrap peek_error (try_read_packed_int_with_default d m (negsuc 0))
    let earlier = (do s ← or_wrap index_error (name_by_id idx); ok (s, m1))
    let full = or_wrap name_error (decode_string m1)
    if not (same_int idx (negsuc 0)) then earlier else full

  unfoldable pub read_origin : List ColumnMetadata → String → M → Result (ColumnOrigin × M)
  read_origin columns column_name m = do
    (column, m1) ← read_origin_name column_name m
    (schema, m2) ←
        read_reference "failed to peek result set column origin schema name index as int"
          "failed to read result set column origin schema name from index"
          "failed to read result set column origin schema name"
          (get_schema_origin_name_by_id columns) m1
    (table, m3) ←
        read_reference "failed to peek result set column origin table name index as int"
          "failed to read result set column origin table name from index"
          "failed to read result set column origin table name" (get_table_origin_name_by_id columns)
          m2
    ok (record { schema = schema; table = table; column = column }, m3)

  unfoldable pub read_origin_option :
      List ColumnMetadata → ℤ → String → Bool → M → Result (Option ColumnOrigin × M)
  read_origin_option columns prop_cnt name has_origin m =
      let read = or_wrap "failed to read result set column origin" (read_origin columns name m) in
      if has_origin
      then if below_nine prop_cnt
        then err (errorf "not enough properties to read column origin")
        else (do (o, m1) ← read; ok (some o, m1))
      else ok (none, m)

  -- NewColumnMetadataFromReader; the columns read before come with it, and the new one is appended.
  unfoldable pub read_column : List ColumnMetadata → ℤ → M → Result (List ColumnMetadata × M)
  read_column columns index m = do
    (prop_cnt, m1) ← or_wrap "failed to read result set column property count" (decode_int64 m)
    (name, m2) ← or_wrap "failed to read result set column name" (decode_string m1)
    (nullable, m3) ← or_wrap "failed to read result set column is nullable" (decode_bool m2)
    (ct, m4) ← or_wrap "failed to read result set column type" (decode_int64 m3)
    t ←
        or_wrap "failed to read result set column type kind (column name %s, id = %d)"
          (get_column_type_by_id col_types ct)
    (cs, m5) ← or_wrap "failed to read result set column scale" (decode_int64 m4)
    (cp, m6) ← or_wrap "failed to read result set column precision" (decode_int64 m5)
    (has_origin, m7) ← or_wrap "failed to read result set column origin" (decode_bool m6)
    (origin, m8) ← read_origin_option columns prop_cnt name has_origin m7
    let c : ColumnMetadata = record {
      name = name;
      nullable = nullable;
      column_type = t;
      precision = cp;
      scale = cs;
      index = index;
      origin = origin;
    }
    ok (columns ++ c ∷ [], m8)

  -- The loop over `k` columns, the next of which has number `i`.
  unfoldable pub read_columns : ℕ → ℕ → List ColumnMetadata → M → Result (List ColumnMetadata × M)
  read_columns zero i columns m = ok (columns, m)
  read_columns (suc k) i columns m = do
    (columns', m1) ←
        or_wrap "failed to read result set column metadata" (read_column columns (pos i) m)
    read_columns k (suc i) columns' m1

  unfoldable pub read_metadata : M → Result (List ColumnMetadata × M)
  read_metadata m = do
    (count, m1) ← or_wrap "failed to read result set metadata length" (decode_int64 m)
    read_columns (rounds count) 0 [] m1
