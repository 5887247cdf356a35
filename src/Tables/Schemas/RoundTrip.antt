-- ===== src/Tables/Schemas/RoundTrip.antt =====
-- Schemas that a server writes are read back, and a table that is named exactly is found in a list.
use ignite3_go_client.Base.{
  ℕ, suc, ◌+◌, ◌-◌, ◌<◌, ◌==◌, ◌^◌, List, [], ◌∷◌, false, Option, none, some, String, length, ◌≡◌,
  refl, sym, arith,
}
use ignite3_go_client.Base.Int.{ℤ, pos, Fits}
use ignite3_go_client.Base.Result.{ok}
use ignite3_go_client.ColumnTypes.{id_of}
use ignite3_go_client.ColumnTypes.Lookup.{type_of_id}
use ignite3_go_client.Msgpack.{Decoder, skip_packed_value}
use ignite3_go_client.Msgpack.Laws.{Encoder, IsLawful}
use ignite3_go_client.Tables.{TableColumn, TableSchema, column_kind_for_type_id}
use ignite3_go_client.Tables.Schemas.{
  nonnegative, skip_values, read_table_column, read_table_columns, read_schema, read_schemas,
  read_schema_list,
}

-- A column as a server writes it: with a colocation index, and with texts for properties that this
-- client does not know.
pub record Written : Type 0 where
  pub column : TableColumn
  pub colocation : ℤ
  pub extras : List String

pub record IsWritable (w : Written) : Type 0 where
  pub typed : type_of_id (id_of w.column.type_id) ≡ w.column.type_id
  pub kind_of : w.column.kind ≡ column_kind_for_type_id w.column.type_id
  pub key_of : w.column.key ≡ nonnegative w.column.key_index
  pub type_fits : Fits (2 ^ 31) (id_of w.column.type_id)
  pub key_fits : Fits (2 ^ 31) w.column.key_index
  pub colocation_fits : Fits (2 ^ 31) w.colocation
  pub scale_fits : Fits (2 ^ 31) w.column.scale
  pub precision_fits : Fits (2 ^ 31) w.column.precision
  pub count_fits : length w.extras + 7 < 2 ^ 31

abbrev pub AllWritable : List Written → Type 0
AllWritable [] = Unit {0}
AllWritable (w ∷ ws) = IsWritable w × AllWritable ws

abbrev pub columns_of : List Written → List TableColumn
columns_of [] = []
columns_of (w ∷ ws) = w.column ∷ columns_of ws

-- A schema: its version and its columns.
abbrev pub SchemasFit : List (ℤ × List Written) → Type 0
SchemasFit [] = Unit {0}
SchemasFit ((v, ws) ∷ ss) =
    (Fits (2 ^ 31) v × (length ws < 2 ^ 31) × AllWritable ws) × SchemasFit ss

abbrev pub last_schema : Option TableSchema → List (ℤ × List Written) → Option TableSchema
last_schema last [] = last
last_schema last ((v, ws) ∷ ss) =
    last_schema (some (record { version = v; columns = columns_of ws })) ss

module _ {M : Type 0} (e : Encoder M) where
  abbrev pub put_strings : List String → M → M
  put_strings [] m = m
  put_strings (s ∷ ss) m = e.put_string s (put_strings ss m)

  abbrev pub put_written : Written → M → M
  put_written w m = e.put_int (pos (length w.extras + 7)) (
      e.put_string w.column.name (
        e.put_int (id_of w.column.type_id) (
          e.put_int w.column.key_index (
            e.put_bool w.column.nullable (
              e.put_int w.colocation (
                e.put_int w.column.scale
                  (e.put_int w.column.precision (put_strings w.extras m))))))))

  abbrev pub put_all_written : List Written → M → M
  put_all_written [] m = m
  put_all_written (w ∷ ws) m = put_written w (put_all_written ws m)

  abbrev pub put_schemas : List (ℤ × List Written) → M → M
  put_schemas [] m = m
  put_schemas ((v, ws) ∷ ss) m =
      e.put_int v (e.put_int (pos (length ws)) (put_all_written ws (put_schemas ss m)))

module _ {M : Type 0} (d : Decoder M) (e : Encoder M) (l : IsLawful d e) where
  skip_values-put_strings :
      (ss : List String) (m : M) → skip_values d (length ss) (put_strings e ss m) ≡ ok m
  unfolding skip_values skip_packed_value
  skip_values-put_strings [] m = refl
  skip_values-put_strings (s ∷ ss) m =
      rw (l.string_skipped s (put_strings e ss m)) (skip_values-put_strings ss m)

  read_table_column-put_written :
      (w : Written) (m : M)
      → IsWritable w
      → read_table_column d (put_written e w m) ≡ ok (w.column, m)
  unfolding read_table_column
  read_table_column-put_written w m i =
      let c = w.column in
      let x : M = put_strings e w.extras m in
      let p : M = e.put_int c.precision x in
      let s : M = e.put_int c.scale p in
      let o : M = e.put_int w.colocation s in
      let n : M = e.put_bool c.nullable o in
      let k : M = e.put_int c.key_index n in
      let t : M = e.put_int (id_of c.type_id) k in
      let seven : length w.extras + 7 - 7 ≡ length w.extras = omega arith in
      rw
        (
          l.int32_back (pos (length w.extras + 7)) (e.put_string c.name t) i.count_fits,
          l.string_back c.name t,
          l.int32_back (id_of c.type_id) k i.type_fits,
          l.int32_back c.key_index n i.key_fits,
          l.bool_back c.nullable o,
          l.int32_back w.colocation s i.colocation_fits,
          l.int32_back c.scale p i.scale_fits,
          l.int32_back c.precision x i.precision_fits,
          seven,
          skip_values-put_strings w.extras m,
          i.typed,
          sym i.kind_of,
          sym i.key_of,
        )
        refl

  read_table_columns-put_all_written :
      (ws : List Written) (m : M)
      → AllWritable ws
      → read_table_columns d (length ws) (put_all_written e ws m) ≡ ok (columns_of ws, m)
  unfolding read_table_columns
  read_table_columns-put_all_written [] m i = refl
  read_table_columns-put_all_written (w ∷ ws) m i =
      rw
        (
          read_table_column-put_written w (put_all_written e ws m) i.0,
          read_table_columns-put_all_written ws m i.1,
        )
        refl

  read_schemas-put_schemas :
      (ss : List (ℤ × List Written)) (last : Option TableSchema) (m : M)
      → SchemasFit ss
      → read_schemas d (length ss) last (put_schemas e ss m) ≡ ok (last_schema last ss)
  unfolding read_schemas read_schema
  read_schemas-put_schemas [] last m i = refl
  read_schemas-put_schemas ((v, ws) ∷ ss) last m ((fv, few, i), is) =
      rw
        (
          l.int32_back v (e.put_int (pos (length ws)) (put_all_written e ws (put_schemas e ss m)))
              fv,
          l.int32_back (pos (length ws)) (put_all_written e ws (put_schemas e ss m)) few,
          read_table_columns-put_all_written ws (put_schemas e ss m) i,
        )
        (read_schemas-put_schemas ss (some (record { version = v; columns = columns_of ws })) m is)

  not_zero : (n : ℕ) → (suc n == 0) ≡ false
  not_zero n = ground arith

  -- From a list of schemas, one at least and each with numbers of 32 bits and types of the constants,
  -- GetTableSchema takes the last one with all its columns, in order; properties that a newer server
  -- writes behind the known ones, as texts, are skipped.
  pub read_schema_list-put_schemas :
      (v : ℤ) (ws : List Written) (ss : List (ℤ × List Written)) (m : M)
      → suc (length ss) < 2 ^ 31
      → SchemasFit ((v, ws) ∷ ss)
      → read_schema_list d (e.put_int (pos (suc (length ss))) (put_schemas e ((v, ws) ∷ ss) m))
        ≡ ok (last_schema none ((v, ws) ∷ ss))
  unfolding read_schema_list
  read_schema_list-put_schemas v ws ss m few i =
      rw
        (
          l.int32_back (pos (suc (length ss))) (put_schemas e ((v, ws) ∷ ss) m) few,
          not_zero (length ss),
        )
        (read_schemas-put_schemas ((v, ws) ∷ ss) none m i)
