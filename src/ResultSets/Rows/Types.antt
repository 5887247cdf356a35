-- ===== src/ResultSets/Rows/Types.antt =====
-- The type assertions of rows.Next on the values of GetValue.
use ignite3_go_client.Base.{
  List, [], ◌∷◌, All, Bool-cases, ◌≡◌, ◌≢◌, ◌⊎◌, inl, inr, refl, subst, if◌then◌else◌,
}
use ignite3_go_client.Base.Int.{ℤ}
use ignite3_go_client.Base.Result.{Result, ok, ok_inj}
use ignite3_go_client.ColumnTypes.{
  ColumnType, col_types, type_decimal, type_uuid, type_datetime, type_timestamp,
}
use ignite3_go_client.ColumnTypes.Lookup.{same_int, get_column_type_by_id, type_of_id}
use ignite3_go_client.Tuples.{TypeScaleValue}
use ignite3_go_client.Tuples.Scan.{
  Scanned, nil, bool, int8, int16, int32, int64, float32, float64, decimal, civil, instant, uuid,
  text, bytes, get_value,
}
use ignite3_go_client.Tuples.Scan.Types.{HasType, get_value-HasType}
use ignite3_go_client.ResultSets.Rows.{Cell, raw, shown, convert, as_decimal, as_uuid, as_time}

-- The cell is the value, or the text of the value's String method.
abbrev pub IsCellOf : Scanned → Result Cell → Type 0
IsCellOf v r = (c : Cell) × (r ≡ ok c) × ((c ≡ raw v) ⊎ (c ≡ shown v))

as_decimal-IsCell : (v : Scanned) → v ≢ nil → HasType v type_decimal → IsCellOf v (as_decimal v)
unfolding as_decimal
as_decimal-IsCell nil n h = absurd (n refl)
as_decimal-IsCell (bool x) n h = absurd h
as_decimal-IsCell (int8 x) n h = absurd h
as_decimal-IsCell (int16 x) n h = absurd h
as_decimal-IsCell (int32 x) n h = absurd h
as_decimal-IsCell (int64 x) n h = absurd h
as_decimal-IsCell (float32 x) n h = absurd h
as_decimal-IsCell (float64 x) n h = absurd h
as_decimal-IsCell (decimal x) n h = (shown (decimal x), refl, inr refl)
as_decimal-IsCell (civil x) n h = absurd h
as_decimal-IsCell (instant x) n h = absurd h
as_decimal-IsCell (uuid x) n h = absurd h
as_decimal-IsCell (text x) n h = absurd h
as_decimal-IsCell (bytes x) n h = absurd h

as_uuid-IsCell : (v : Scanned) → v ≢ nil → HasType v type_uuid → IsCellOf v (as_uuid v)
unfolding as_uuid
as_uuid-IsCell nil n h = absurd (n refl)
as_uuid-IsCell (bool x) n h = absurd h
as_uuid-IsCell (int8 x) n h = absurd h
as_uuid-IsCell (int16 x) n h = absurd h
as_uuid-IsCell (int32 x) n h = absurd h
as_uuid-IsCell (int64 x) n h = absurd h
as_uuid-IsCell (float32 x) n h = absurd h
as_uuid-IsCell (float64 x) n h = absurd h
as_uuid-IsCell (decimal x) n h = absurd h
as_uuid-IsCell (civil x) n h = absurd h
as_uuid-IsCell (instant x) n h = absurd h
as_uuid-IsCell (uuid x) n h = (shown (uuid x), refl, inr refl)
as_uuid-IsCell (text x) n h = absurd h
as_uuid-IsCell (bytes x) n h = absurd h

as_time-IsCell_civil : (v : Scanned) → v ≢ nil → HasType v type_datetime → IsCellOf v (as_time v)
unfolding as_time
as_time-IsCell_civil nil n h = absurd (n refl)
as_time-IsCell_civil (bool x) n h = absurd h
as_time-IsCell_civil (int8 x) n h = absurd h
as_time-IsCell_civil (int16 x) n h = absurd h
as_time-IsCell_civil (int32 x) n h = absurd h
as_time-IsCell_civil (int64 x) n h = absurd h
as_time-IsCell_civil (float32 x) n h = absurd h
as_time-IsCell_civil (float64 x) n h = absurd h
as_time-IsCell_civil (decimal x) n h = absurd h
as_time-IsCell_civil (civil x) n h = (shown (civil x), refl, inr refl)
as_time-IsCell_civil (instant x) n h = absurd h
as_time-IsCell_civil (uuid x) n h = absurd h
as_time-IsCell_civil (text x) n h = absurd h
as_time-IsCell_civil (bytes x) n h = absurd h

as_time-IsCell_instant : (v : Scanned) → v ≢ nil → HasType v type_timestamp → IsCellOf v (as_time v)
unfolding as_time
as_time-IsCell_instant nil n h = absurd (n refl)
as_time-IsCell_instant (bool x) n h = absurd h
as_time-IsCell_instant (int8 x) n h = absurd h
as_time-IsCell_instant (int16 x) n h = absurd h
as_time-IsCell_instant (int32 x) n h = absurd h
as_time-IsCell_instant (int64 x) n h = absurd h
as_time-IsCell_instant (float32 x) n h = absurd h
as_time-IsCell_instant (float64 x) n h = absurd h
as_time-IsCell_instant (decimal x) n h = absurd h
as_time-IsCell_instant (civil x) n h = absurd h
as_time-IsCell_instant (instant x) n h = (shown (instant x), refl, inr refl)
as_time-IsCell_instant (uuid x) n h = absurd h
as_time-IsCell_instant (text x) n h = absurd h
as_time-IsCell_instant (bytes x) n h = absurd h

-- The conversion of a column of the type gives a cell.
abbrev Converts : ColumnType → Type 0
Converts t = (v : Scanned) → v ≢ nil → HasType v (type_of_id t.type_id) → IsCellOf v (convert t v)

col_types-Converts : All Converts col_types
unfolding convert type_of_id
col_types-Converts = (
  λ v n h. (raw v, refl, inl refl),
  (
    λ v n h. (raw v, refl, inl refl),
    (
      λ v n h. (raw v, refl, inl refl),
      (
        λ v n h. (raw v, refl, inl refl),
        (
          λ v n h. (raw v, refl, inl refl),
          (
            λ v n h. (raw v, refl, inl refl),
            (
              λ v n h. (raw v, refl, inl refl),
              (
                λ v n h. (raw v, refl, inl refl),
                (
                  as_decimal-IsCell,
                  (
                    λ v n h. (raw v, refl, inl refl),
                    (
                      λ v n h. (raw v, refl, inl refl),
                      (
                        as_time-IsCell_civil,
                        (
                          as_time-IsCell_instant,
                          (
                            as_uuid-IsCell,
                            (
                              λ v n h. (raw v, refl, inl refl),
                              (λ v n h. (raw v, refl, inl refl), tt),
                            ),
                          ),
                        ),
                      ),
                    ),
                  ),
                ),
              ),
            ),
          ),
        ),
      ),
    ),
  ),
)

found-All :
    (P : ColumnType → Type 0) (ts : List ColumnType) (id : ℤ) (t : ColumnType)
    → All P ts
    → get_column_type_by_id ts id ≡ ok t
    → P t
unfolding get_column_type_by_id
found-All P [] id t h e = cc
found-All P (x ∷ ts) id t h e = elim (Bool-cases (same_int x.type_id id)) [
  | inl y ↦
      let e' : ok x ≡ ok t =
        subst (λ b. (if b then ok x else get_column_type_by_id ts id) ≡ ok t) y e in
      subst P (ok_inj e') h.0
  | inr n ↦
      found-All P ts id t h.1
        (subst (λ b. (if b then ok x else get_column_type_by_id ts id) ≡ ok t) n e)
]

-- For a column whose type the table of types has, each value other than NULL that GetValue reads of
-- a tuple as that type becomes a cell: the type assertions of Next hold, and no type is unsupported.
pub convert-get_value :
    (id : ℤ) (t : ColumnType) (tuple : List TypeScaleValue) (i : ℤ) (v : Scanned)
    → get_column_type_by_id col_types id ≡ ok t
    → get_value tuple i (type_of_id t.type_id) ≡ ok v
    → v ≢ nil
    → IsCellOf v (convert t v)
convert-get_value id t tuple i v found read n =
    found-All Converts col_types id t col_types-Converts found v n
      (get_value-HasType tuple i (type_of_id t.type_id) v read)
