-- ===== src/Queries/Rows.antt =====
-- The rows of QuerySQLFields are those of database/sql's rows.Next.
use ignite3_go_client.Base.{
  ℕ, suc, List, [], ◌∷◌, Bytes, true, String, All, none, if◌then◌else◌, Bool-cases, inl, inr, ◌≡◌,
  refl, ap, subst, ◌∙◌,
}
use ignite3_go_client.Base.Int.{ℤ, pos}
use ignite3_go_client.Base.Result.{Result, ok, err, panic, or_wrap, or_wrap-eq-ok, ok_inj, ◌>>=◌}
use ignite3_go_client.ColumnTypes.{ColumnType, col_types}
use ignite3_go_client.ColumnTypes.Lookup.{type_of_id, same_int, get_column_type_by_id}
use ignite3_go_client.Tuples.{TypeScaleValue, new_tuple}
use ignite3_go_client.Tuples.Scan.{Scanned, get_value}
use ignite3_go_client.ResultSets.{
  ColumnMetadata, get_column_type, get_column_origin_name_by_id, origin_column,
}
use ignite3_go_client.ResultSets.Rows.{Cell, cells, row_cells, convert, infos_of}
use ignite3_go_client.ResultSets.Metadata.Numbering.{AreNumbered}
use ignite3_go_client.Queries.Results.{convert_fields, RowMap, set_cell, named_cells, named_row}

-- A type for which the two conversions agree on every value.
abbrev pub Agrees : ColumnType → Type 0
Agrees t = (v : Scanned) → convert_fields t v ≡ convert t v

col_types-Agrees : All Agrees col_types
unfolding convert convert_fields
col_types-Agrees = (
  (λ v. refl),
  (
    (λ v. refl),
    (
      (λ v. refl),
      (
        (λ v. refl),
        (
          (λ v. refl),
          (
            (λ v. refl),
            (
              (λ v. refl),
              (
                (λ v. refl),
                (
                  (λ v. refl),
                  (
                    (λ v. refl),
                    (
                      (λ v. refl),
                      ((λ v. refl), ((λ v. refl), ((λ v. refl), ((λ v. refl), ((λ v. refl), tt))))),
                    ),
                  ),
                ),
              ),
            ),
          ),
        ),
      ),
    ),
  ),
)

get_column_type_by_id-Agrees :
    (ts : List ColumnType) (id : ℤ) (t : ColumnType)
    → All Agrees ts
    → get_column_type_by_id ts id ≡ ok t
    → Agrees t
unfolding get_column_type_by_id
get_column_type_by_id-Agrees [] id t h e = cc
get_column_type_by_id-Agrees (x ∷ ts) id t h e = elim (Bool-cases (same_int x.type_id id)) [
  | inl y ↦
      subst Agrees
        (ok_inj (subst (λ b. (if b then ok x else get_column_type_by_id ts id) ≡ ok t) y e)) h.0
  | inr n ↦
      get_column_type_by_id-Agrees ts id t h.1
        (subst (λ b. (if b then ok x else get_column_type_by_id ts id) ≡ ok t) n e)
]

get_column_type-Agrees :
    (n : ℕ) (cs : List ColumnMetadata) (i : ℤ) (t : ColumnType)
    → AreNumbered n cs
    → get_column_type cs i ≡ ok t
    → Agrees t
unfolding get_column_type
get_column_type-Agrees n [] i t h e = cc
get_column_type-Agrees n (c ∷ cs) i t h e = elim (Bool-cases (same_int c.index i)) [
  | inl y ↦
      subst Agrees
        (ok_inj (subst (λ b. (if b then ok c.column_type else get_column_type cs i) ≡ ok t) y e))
        (get_column_type_by_id-Agrees col_types c.column_type.type_id c.column_type col_types-Agrees
          h.0.1)
  | inr no_match ↦
      get_column_type-Agrees (suc n) cs i t h.1
        (subst (λ b. (if b then ok c.column_type else get_column_type cs i) ≡ ok t) no_match e)
]

-- The names of the columns from place `i` on.
abbrev pub AreNames : List ColumnMetadata → ℕ → List ColumnMetadata → List String → Type 0
AreNames metadata i [] [] = Unit {0}
AreNames metadata i [] (n ∷ names) = ⊥
AreNames metadata i (c ∷ cs) [] = ⊥
AreNames metadata i (c ∷ cs) (n ∷ names) =
    (get_column_origin_name_by_id metadata (pos i) ≡ ok n) × AreNames metadata (suc i) cs names

-- Cells entered under their names, in order.
unfoldable pub enter : List String → List Cell → RowMap → RowMap
enter [] cs row = row
enter (n ∷ ns) [] row = row
enter (n ∷ ns) (c ∷ cs) row = enter ns cs (set_cell n c row)

-- One column, by what its type, its value, its conversion and the later columns give.
module _ (name : String) (names : List String) (row : RowMap) (later : Cell → Result RowMap)
    (right : Result (List Cell))
    (ih : (c : Cell)
      → later c ≡ (right >>= λ out. ok (enter names out (set_cell name c row)))) where
  abbrev entered : Result (List Cell) → Result RowMap
  entered r = r >>= λ out. ok (enter (name ∷ names) out row)

  after_cell :
      (c : Cell) (r : Result (List Cell))
      → (r >>= λ out. ok (enter names out (set_cell name c row)))
        ≡ entered (r >>= λ more. ok (c ∷ more))
  unfolding enter
  after_cell c (ok out) = refl
  after_cell c (err e) = refl
  after_cell c panic = refl

  after_convert :
      (rc : Result Cell) → (rc >>= later) ≡ entered (rc >>= λ c. right >>= λ more. ok (c ∷ more))
  after_convert (ok c) = ih c ∙ after_cell c right
  after_convert (err e) = refl
  after_convert panic = refl

  after_value :
      (t : ColumnType) (rv : Result Scanned)
      → Agrees t
      → (rv >>= λ v. convert_fields t v >>= later)
        ≡ entered (rv >>= λ v. convert t v >>= λ c. right >>= λ more. ok (c ∷ more))
  after_value t (ok v) h = rw (h v) (after_convert (convert t v))
  after_value t (err e) h = refl
  after_value t panic h = refl

  after_type :
      (rt : Result ColumnType) (value : ColumnType → Result Scanned)
      → ((t : ColumnType) → rt ≡ ok t → Agrees t)
      → (rt >>= λ t. value t >>= λ v. convert_fields t v >>= later)
        ≡ entered
            (rt >>= λ t. value t >>= λ v. convert t v >>= λ c. right >>= λ more. ok (c ∷ more))
  after_type (ok t) value h = after_value t (value t) (h t refl)
  after_type (err e) value h = refl
  after_type panic value h = refl

or_wrap-Agrees :
    (m : String) (rt : Result ColumnType)
    → ((t : ColumnType) → rt ≡ ok t → Agrees t)
    → (t : ColumnType) → or_wrap m rt ≡ ok t
    → Agrees t
or_wrap-Agrees m rt h t e = h t (or_wrap-eq-ok m rt e)

named_cells-cells :
    (metadata : List ColumnMetadata) (tuple : List TypeScaleValue) (i : ℕ)
    (cs : List ColumnMetadata) (names : List String) (row : RowMap)
    → AreNumbered 0 metadata
    → AreNames metadata i cs names
    → named_cells "failed to get column type parsing rows" convert_fields metadata tuple i cs row
      ≡ (cells metadata tuple i cs >>= λ out. ok (enter names out row))
unfolding named_cells cells enter
named_cells-cells metadata tuple i [] [] row n h = refl
named_cells-cells metadata tuple i [] (x ∷ names) row n h = absurd h
named_cells-cells metadata tuple i (c ∷ cs) [] row n h = absurd h
named_cells-cells metadata tuple i (c ∷ cs) (x ∷ names) row n h = rw h.0 (
    after_type x names row
      (λ v.
        named_cells "failed to get column type parsing rows" convert_fields metadata tuple (suc i)
          cs (set_cell x v row))
      (cells metadata tuple (suc i) cs)
      (λ v. named_cells-cells metadata tuple (suc i) cs names (set_cell x v row) n h.1)
      (or_wrap "failed to get column type parsing rows" (get_column_type metadata (pos i)))
      (λ t. or_wrap "failed to parse column %d" (get_value tuple (pos i) (type_of_id t.type_id)))
      (or_wrap-Agrees _ (get_column_type metadata (pos i))
        (λ t e. get_column_type-Agrees 0 metadata (pos i) t n e)))

-- With metadata whose columns are numbered by their places and have types of the table of types, and
-- whose columns all have an origin, QuerySQLFields reads a row of bytes exactly as rows.Next does, with
-- its errors and panics: its map holds the cells of rows.Next under the names of the origins, entered
-- in the order of the columns. The two names that only QuerySQLFields converts change nothing.
pub named_row-row_cells :
    (metadata : List ColumnMetadata) (names : List String) (bs : Bytes)
    → AreNumbered 0 metadata
    → AreNames metadata 0 metadata names
    → named_row "failed to get column type parsing rows" convert_fields metadata bs
      ≡ (row_cells metadata bs >>= λ out. ok (enter names out []))
unfolding named_row row_cells
named_row-row_cells metadata names bs n h =
    through (or_wrap "failed to parse row tuple" (new_tuple (infos_of metadata) bs))
  where
    through :
        (r : Result (List TypeScaleValue))
        → (r >>= λ tuple.
            named_cells "failed to get column type parsing rows" convert_fields metadata tuple 0
              metadata [])
          ≡ ((r >>= λ tuple. cells metadata tuple 0 metadata) >>= λ out. ok (enter names out []))
    through (ok tuple) = named_cells-cells metadata tuple 0 metadata names [] n h
    through (err e) = refl
    through panic = refl

-- Where the first column has no origin, as an expression of a SELECT has none, QuerySQLFields panics on
-- every row that can be taken apart: it asks for the name of the origin, which rows.Next does not.
pub named_row-no_origin :
    (c : ColumnMetadata) (cs : List ColumnMetadata) (bs : Bytes) (tuple : List TypeScaleValue)
    → c.index ≡ pos 0
    → c.origin ≡ none
    → new_tuple (infos_of (c ∷ cs)) bs ≡ ok tuple
    → named_row "failed to get column type parsing rows" convert_fields (c ∷ cs) bs ≡ panic
unfolding named_row named_cells get_column_type get_column_origin_name_by_id origin_column
named_row-no_origin c cs bs tuple ei eo et =
    let first : same_int c.index (pos 0) ≡ true = ap (λ z. same_int z (pos 0)) ei in
    rw (et, first) (rw eo refl)
