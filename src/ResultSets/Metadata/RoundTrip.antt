-- ===== src/ResultSets/Metadata/RoundTrip.antt =====
-- Metadata that a server writes is read back.
use ignite3_go_client.Base.{
  ℕ, suc, ◌<◌, ◌^◌, List, [], ◌∷◌, ◌++◌, Bool, true, false, Option, none, some, String, length, ◌≡◌,
  refl, sym, arith,
}
use mathlib.Core.List.{append_assoc, append-nil}
use ignite3_go_client.Base.Int.{ℤ, pos, negsuc, Fits}
use ignite3_go_client.Base.Result.{Result, ok}
use ignite3_go_client.ColumnTypes.{col_types}
use ignite3_go_client.ColumnTypes.Lookup.{get_column_type_by_id}
use ignite3_go_client.Msgpack.{Decoder}
use ignite3_go_client.Msgpack.Laws
use ignite3_go_client.Msgpack.Laws.{Encoder, IsLawful}
use ignite3_go_client.ResultSets.{
  ColumnOrigin, ColumnMetadata, get_schema_origin_name_by_id, get_table_origin_name_by_id,
}
use ignite3_go_client.ResultSets.Metadata.{
  read_origin_name, read_reference, read_origin, read_origin_option, read_column, read_columns,
  read_metadata,
}

-- How a server writes a name: in full, or as the place of an earlier column that has it.
pub data Reference : Type 0 where
  in_full : Reference
  earlier : ℕ → Reference

-- How a server writes an origin: its column's name as nil or in full, and the two references.
pub record Form : Type 0 where
  pub same_name : Bool
  pub schema : Reference
  pub table : Reference

-- A reference is below 128, and the earlier column there has the name.
abbrev pub Refers : (ℤ → Result String) → Reference → String → Type 0
Refers by_id in_full s = Unit {0}
Refers by_id (earlier k) s = (k < 128) × (by_id (pos k) ≡ ok s)

abbrev pub OriginFits : List ColumnMetadata → Form → String → Option ColumnOrigin → Type 0
OriginFits columns f name none = Unit {0}
OriginFits columns f name (some o) =
    (f.same_name ≡ true → o.column ≡ name)
    × (Refers (get_schema_origin_name_by_id columns) f.schema o.schema)
    × (Refers (get_table_origin_name_by_id columns) f.table o.table)

-- A column that can be written after `columns` at place `i`.
pub record IsWritable (columns : List ColumnMetadata) (i : ℕ) (f : Form) (c : ColumnMetadata)
    : Type 0 where
  pub placed : c.index ≡ pos i
  pub typed : get_column_type_by_id col_types c.column_type.type_id ≡ ok c.column_type
  pub type_fits : Fits (2 ^ 63) c.column_type.type_id
  pub scale_fits : Fits (2 ^ 63) c.scale
  pub precision_fits : Fits (2 ^ 63) c.precision
  pub origin_fits : OriginFits columns f c.name c.origin

module _ {M : Type 0} (e : Encoder M) where
  abbrev pub put_name : Bool → String → M → M
  put_name true s m = e.put_nil m
  put_name false s m = e.put_string s m

  abbrev pub put_reference : Reference → String → M → M
  put_reference in_full s m = e.put_string s m
  put_reference (earlier k) s m = e.put_int (pos k) m

  abbrev pub put_origin : Form → Option ColumnOrigin → M → M
  put_origin f none m = e.put_bool false m
  put_origin f (some o) m = e.put_bool true (
      put_name f.same_name o.column
        (put_reference f.schema o.schema (put_reference f.table o.table m)))

  abbrev pub prop_count : Option ColumnOrigin → ℕ
  prop_count none = 6
  prop_count (some o) = 9

  abbrev pub put_column : Form → ColumnMetadata → M → M
  put_column f c m = e.put_int (pos (prop_count c.origin)) (
      e.put_string c.name (
        e.put_bool c.nullable (
          e.put_int c.column_type.type_id
            (e.put_int c.scale (e.put_int c.precision (put_origin f c.origin m))))))

  abbrev pub put_columns : List (Form × ColumnMetadata) → M → M
  put_columns [] m = m
  put_columns ((f, c) ∷ fcs) m = put_column f c (put_columns fcs m)

abbrev pub columns_of : List (Form × ColumnMetadata) → List ColumnMetadata
columns_of [] = []
columns_of ((f, c) ∷ fcs) = c ∷ columns_of fcs

abbrev pub AllWritable : List ColumnMetadata → ℕ → List (Form × ColumnMetadata) → Type 0
AllWritable columns i [] = Unit {0}
AllWritable columns i ((f, c) ∷ fcs) =
    IsWritable columns i f c × AllWritable (columns ++ c ∷ []) (suc i) fcs

module _ {M : Type 0} (d : Decoder M) (e : Encoder M) (l : IsLawful d e) where
  read_origin_name-put_name :
      (b : Bool) (name s : String) (m : M)
      → (b ≡ true → s ≡ name)
      → read_origin_name d name (put_name e b s m) ≡ ok (s, m)
  unfolding read_origin_name
  read_origin_name-put_name true name s m h = rw (Laws.try_read_packed_nil-nil d e l m, h refl) refl
  read_origin_name-put_name false name s m h =
      rw (Laws.try_read_packed_nil-string d e l s m, l.string_back s m) refl

  read_reference-put_reference :
      (p1 p2 p3 : String) (by_id : ℤ → Result String) (r : Reference) (s : String) (m : M)
      → Refers by_id r s
      → read_reference d p1 p2 p3 by_id (put_reference e r s m) ≡ ok (s, m)
  unfolding read_reference
  read_reference-put_reference p1 p2 p3 by_id in_full s m h =
      rw (Laws.try_read_packed_int-string d e l s m (negsuc 0), l.string_back s m) refl
  read_reference-put_reference p1 p2 p3 by_id (earlier k) s m h =
      rw (Laws.try_read_packed_int-small d e l k m (negsuc 0) h.0, h.1) refl

  read_origin_option-put_origin :
      (columns : List ColumnMetadata) (f : Form) (name : String) (o : Option ColumnOrigin) (m : M)
      → OriginFits columns f name o
      → (has_origin : Bool) × (m1 : M) × (d.decode_bool (put_origin e f o m) ≡ ok (has_origin, m1))
        × (read_origin_option d columns (pos (prop_count e o)) name has_origin m1 ≡ ok (o, m))
  unfolding read_origin_option read_origin
  read_origin_option-put_origin columns f name none m h = (false, m, l.bool_back false m, refl)
  read_origin_option-put_origin columns f name (some o) m h = (
    true,
    put_name e f.same_name o.column
        (put_reference e f.schema o.schema (put_reference e f.table o.table m)),
    l.bool_back true _,
    rw
        (
          read_origin_name-put_name f.same_name name o.column
              (put_reference e f.schema o.schema (put_reference e f.table o.table m)) h.0,
          read_reference-put_reference _ _ _ (get_schema_origin_name_by_id columns) f.schema
              o.schema (put_reference e f.table o.table m) h.1,
          read_reference-put_reference _ _ _ (get_table_origin_name_by_id columns) f.table o.table m
              h.2,
        )
        refl,
  )

  prop_count-lt : (o : Option ColumnOrigin) → prop_count e o < 2 ^ 63
  prop_count-lt none = omega arith
  prop_count-lt (some o) = omega arith

  read_column-put_column :
      (columns : List ColumnMetadata) (i : ℕ) (f : Form) (c : ColumnMetadata) (m : M)
      → IsWritable columns i f c
      → read_column d columns (pos i) (put_column e f c m) ≡ ok (columns ++ c ∷ [], m)
  unfolding read_column
  read_column-put_column columns i f c m w =
      let o : M = put_origin e f c.origin m in
      let p : M = e.put_int c.precision o in
      let s : M = e.put_int c.scale p in
      let t : M = e.put_int c.column_type.type_id s in
      let b : M = e.put_bool c.nullable t in
      let (has_origin, m1, peek, rest) =
        read_origin_option-put_origin columns f c.name c.origin m w.origin_fits in
      rw
        (
          l.int_back (pos (prop_count e c.origin)) (e.put_string c.name b) (prop_count-lt c.origin),
          l.string_back c.name b,
          l.bool_back c.nullable t,
          l.int_back c.column_type.type_id s w.type_fits,
          w.typed,
          l.int_back c.scale p w.scale_fits,
          l.int_back c.precision o w.precision_fits,
          peek,
          rest,
          sym w.placed,
        )
        refl

  read_columns-put_columns :
      (columns : List ColumnMetadata) (i : ℕ) (fcs : List (Form × ColumnMetadata)) (m : M)
      → AllWritable columns i fcs
      → read_columns d (length fcs) i columns (put_columns e fcs m)
        ≡ ok (columns ++ columns_of fcs, m)
  unfolding read_columns
  read_columns-put_columns columns i [] m w = rw (append-nil columns) refl
  read_columns-put_columns columns i ((f, c) ∷ fcs) m w =
      rw
        (
          read_column-put_column columns i f c (put_columns e fcs m) w.0,
          read_columns-put_columns (columns ++ c ∷ []) (suc i) fcs m w.1,
          append_assoc columns (c ∷ []) (columns_of fcs),
        )
        refl

  -- Metadata whose columns are numbered by their places, have types of the table of types, and have
  -- numbers of 64 bits is read back from the message, also where a server writes the name of an
  -- origin's schema or table as the place, below 128, of an earlier column with that name, or the name
  -- of the origin's column as nil where it is the name of the column; what follows is left.
  pub read_metadata-put_columns :
      (fcs : List (Form × ColumnMetadata)) (m : M)
      → length fcs < 2 ^ 63
      → AllWritable [] 0 fcs
      → read_metadata d (e.put_int (pos (length fcs)) (put_columns e fcs m))
        ≡ ok (columns_of fcs, m)
  unfolding read_metadata
  read_metadata-put_columns fcs m h w =
      rw (l.int_back (pos (length fcs)) (put_columns e fcs m) h)
        (read_columns-put_columns [] 0 fcs m w)
