-- ===== src/Tables/Schemas.antt =====
-- Schemas and tables from the server: GetTableSchema, tableIdByName, findTableInList, GetTableByName and
-- normalizeTableName of binary/v1/client-schemas.go, and GetTables of
-- binary/v1/client-tables-operations.go.
pub mod Names
pub mod RoundTrip
use text.Mathlib.Text.{◌==◌ as str_eq}
use ignite3_go_client.Base.{
  ℕ, zero, suc, ◌+◌, ◌-◌, List, [], ◌∷◌, ◌++◌, Bytes, Bool, true, false, not, ◌&&◌, ◌||◌, Option,
  none, some, String, if◌then◌else◌,
}
use ignite3_go_client.Base.Int.{ℤ, pos, negsuc}
use ignite3_go_client.Base.Result.{Result, ok, err, panic, errorf, or_wrap, ◌>>=◌, ◌>>◌}
use ignite3_go_client.ColumnTypes.Lookup.{type_of_id, same_int}
use ignite3_go_client.ResultSets.Metadata.{rounds}
use ignite3_go_client.Msgpack.{
  Decoder, try_read_packed_nil, read_packed_int64_string, skip_packed_value,
}
use ignite3_go_client.Client.{Socket, Client, Protocol, Run, call, and_then}
use ignite3_go_client.Tables.{TableColumn, TableSchema, Table, column_kind_for_type_id}

abbrev pub nonnegative : ℤ → Bool
nonnegative (pos n) = true
nonnegative (negsuc n) = false

-- The rounds of `for k := 7; k < int(propertyCount); k++`
abbrev pub extra_rounds : ℤ → ℕ
extra_rounds (pos n) = n - 7
extra_rounds (negsuc n) = 0

module _ {M : Type 0} (d : Decoder M) where
  open d use {decode_int32, decode_string, decode_bool}

  unfoldable pub skip_values : ℕ → M → Result M
  skip_values zero m = ok m
  skip_values (suc k) m = do
    m1 ← or_wrap "failed to skip column property" (skip_packed_value d m)
    skip_values k m1

  unfoldable pub read_table_column : M → Result (TableColumn × M)
  read_table_column m = do
    (count, m1) ← or_wrap "failed to read column property count" (decode_int32 m)
    (name, m2) ← or_wrap "failed to read column name" (decode_string m1)
    (ct, m3) ← or_wrap "failed to read column type" (decode_int32 m2)
    (key_index, m4) ← or_wrap "failed to read column key index" (decode_int32 m3)
    (nullable, m5) ← or_wrap "failed to read column nullability" (decode_bool m4)
    (_, m6) ← or_wrap "failed to read column colocation index" (decode_int32 m5)
    (scale, m7) ← or_wrap "failed to read column scale" (decode_int32 m6)
    (precision, m8) ← or_wrap "failed to read column precision" (decode_int32 m7)
    m9 ← skip_values (extra_rounds count) m8
    let c : TableColumn = record {
      name = name;
      type_id = type_of_id ct;
      kind = column_kind_for_type_id (type_of_id ct);
      key_index = key_index;
      key = nonnegative key_index;
      nullable = nullable;
      scale = scale;
      precision = precision;
    }
    ok (c, m9)

  unfoldable pub read_table_columns : ℕ → M → Result (List TableColumn × M)
  read_table_columns zero m = ok ([], m)
  read_table_columns (suc n) m = do
    (c, m1) ← read_table_column m
    (cs, m2) ← read_table_columns n m1
    ok (c ∷ cs, m2)

  -- `make` panics on a negative capacity.
  abbrev pub make_columns : ℤ → M → Result (List TableColumn × M)
  make_columns (pos n) m = read_table_columns n m
  make_columns (negsuc n) m = panic

  unfoldable pub read_schema : M → Result (TableSchema × M)
  read_schema m = do
    (version, m1) ← or_wrap "failed to read schema version" (decode_int32 m)
    (count, m2) ← or_wrap "failed to read column count" (decode_int32 m1)
    (columns, m3) ← make_columns count m2
    let s : TableSchema = record { version = version; columns = columns }
    ok (s, m3)

  -- The loop over schemas; the last one is the result.
  unfoldable pub read_schemas : ℕ → Option TableSchema → M → Result (Option TableSchema)
  read_schemas zero last m = ok last
  read_schemas (suc n) last m = do (s, m1) ← read_schema m; read_schemas n (some s) m1

  unfoldable pub read_schema_list : M → Result (Option TableSchema)
  read_schema_list m = do
    (count, m1) ← or_wrap "failed to read schema count" (decode_int32 m)
    let none_found = err (errorf "schema not found for table id %d")
    let schemas = read_schemas (rounds count) none m1
    if nonnegative count && not (same_int count (pos 0)) then schemas else none_found

  -- The server answers with nil when the table does not exist.
  unfoldable pub read_table_id : M → Result (ℤ × String)
  read_table_id m = do
    (not_found, m1) ← or_wrap "failed to read table lookup result" (try_read_packed_nil d m)
    let found = (do
      (id, m2) ← or_wrap "failed to read table id" (decode_int32 m1)
      (name, _) ← or_wrap "failed to read table name" (decode_string m2)
      ok (id, name))
    if not_found then ok (negsuc 0, "") else found

  -- `data[key] = value` of GetTables: the last name of an id wins.
  abbrev pub set_table : ℤ → String → List (ℤ × String) → List (ℤ × String)
  set_table k v [] = (k, v) ∷ []
  set_table k v ((j, w) ∷ ts) = if same_int j k then (k, v) ∷ ts else (j, w) ∷ set_table k v ts

  unfoldable pub read_tables : ℕ → List (ℤ × String) → M → Result (List (ℤ × String))
  read_tables zero ts m = ok ts
  read_tables (suc n) ts m = do
    (kv, m1) ← or_wrap "failed to read table infos with index %d" (read_packed_int64_string d m)
    read_tables n (set_table kv.0 kv.1 ts) m1

  unfoldable pub read_table_list : M → Result (List (ℤ × String))
  read_table_list m = do
    (count, m1) ← or_wrap "failed to read pairs count" (decode_int32 m)
    read_tables (rounds count) [] m1

-- Package strings, on whole texts.
pub record Strings : Type 0 where
  pub remove : String → String → String
  pub split : String → List String
  pub join : List String → String
  pub to_lower : String → String
  pub trim_space : String → String
  pub has_suffix : String → String → Bool
  pub concat : String → String → String

module _ (t : Strings) where
  abbrev pub lower_parts : List String → List String
  lower_parts [] = []
  lower_parts (part ∷ parts) = t.to_lower (t.trim_space part) ∷ lower_parts parts

  unfoldable pub normalize_table_name : String → String
  normalize_table_name name = t.join (lower_parts (t.split (t.remove "`" (t.remove "\"" name))))

  -- A name that ends in the other behind a dot.
  abbrev pub is_qualified : String → String → Bool
  is_qualified wanted reported =
      t.has_suffix wanted (t.concat "." reported) || t.has_suffix reported (t.concat "." wanted)

  -- `fallback` is the first id, from 0 on, that fits but for the schema.
  abbrev pub keep_fallback : String → Option (ℤ × String) → ℤ × String → Option (ℤ × String)
  keep_fallback wanted (some f) table = some f
  keep_fallback wanted none (id, name) =
      if is_qualified wanted (normalize_table_name name) && nonnegative id
      then some (id, name)
      else none

  abbrev pub or_fallback : Option (ℤ × String) → Result (ℤ × String)
  or_fallback none = err (errorf "table %s not found, known tables: %v")
  or_fallback (some f) = ok f

  -- findTableInList, over the map in the order of its visit
  unfoldable pub find_table : String → Option (ℤ × String) → List (ℤ × String) → Result (ℤ × String)
  find_table wanted fallback [] = or_fallback fallback
  find_table wanted fallback (table ∷ tables) =
      let rest = find_table wanted (keep_fallback wanted fallback table) tables in
      if str_eq (normalize_table_name table.1) wanted then ok table else rest

-- The operations, with `range_order` the order in which the map is visited.
module _ {M W : Type 0} (p : Protocol M) (s : Socket W) (t : Strings) (pack_null : Bytes)
    (pack_string : String → Bytes) (range_order : List (ℤ × String) → List (ℤ × String)) where
  unfoldable pub get_table_schema : ℤ → Run W (Option TableSchema)
  get_table_schema id c =
      and_then
        (call p s "failed to execute GET_SCHEMA operation" (pos 5) (p.pack_int64 id ++ pack_null) c)
        (λ m c'. (read_schema_list p.decoder m, c'))

  unfoldable pub table_id_by_name : String → Run W (ℤ × String)
  table_id_by_name name c =
      and_then (call p s "failed to execute GET_TABLE operation" (pos 4) (pack_string name) c)
        (λ m c'. (read_table_id p.decoder m, c'))

  unfoldable pub get_tables : Run W (List (ℤ × String))
  get_tables c =
      and_then (call p s "failed to execute GET_TABLES operation" (pos 3) [] c)
        (λ m c'. (read_table_list p.decoder m, c'))

  -- GetTable reads the answer as a list of tables, and drops it.
  unfoldable pub get_table : String → Run W (Unit {0})
  get_table name c =
      and_then
        (and_then (call p s "failed to execute GET_TABLE operation" (pos 4) (pack_string name) c)
          (λ m c'. (read_table_list p.decoder m, c')))
        (λ _ c'. (ok tt, c'))

  unfoldable pub find_table_in_list : String → Run W (ℤ × String)
  find_table_in_list name c =
      and_then (get_tables c)
        (λ tables c'. (find_table t (normalize_table_name t name) none (range_order tables), c'))

  unfoldable pub with_schema : ℤ × String → Run W (ℤ × String × Option TableSchema)
  with_schema (id, name) c =
      and_then (get_table_schema id c) (λ schema c'. (ok (id, name, schema), c'))

  -- GetTableByName: the list of tables is only asked for where the name is not found.
  unfoldable pub get_table_by_name : String → Run W (ℤ × String × Option TableSchema)
  get_table_by_name name c = and_then (table_id_by_name name c) (λ found c'.
      let listed = and_then (find_table_in_list name c') with_schema in
      if nonnegative found.0 then with_schema found c' else listed)
