-- ===== src/ColumnTypes/Lookup.antt =====
-- The lookups of ColumnTypes in binary/v1/client-result-set.go. `equal_fold` is strings.EqualFold.
use ignite3_go_client.Base.{List, [], ◌∷◌, Bool, false, String, ◌==◌, if◌then◌else◌, All, ◌≡◌, refl}
use ignite3_go_client.Base.Int.{ℤ, pos, negsuc}
use ignite3_go_client.Base.Result.{Result, ok, err, errorf}
use ignite3_go_client.ColumnTypes.{ColumnType, GoKind, TypeId, col_types, id_of}
use ignite3_go_client.ColumnTypes.{
  type_null, type_boolean, type_tinyint, type_smallint, type_int, type_bigint, type_real,
  type_double, type_decimal, type_date, type_time, type_datetime, type_timestamp, type_uuid,
  type_varchar, type_varbinary, type_unknown,
}

-- `==` on Go's ints.
abbrev pub same_int : ℤ → ℤ → Bool
same_int (pos a) (pos b) = a == b
same_int (negsuc a) (negsuc b) = a == b
same_int (pos a) (negsuc b) = false
same_int (negsuc a) (pos b) = false

unfoldable pub get_column_type_by_id : List ColumnType → ℤ → Result ColumnType
get_column_type_by_id [] id = err (errorf "type not found")
get_column_type_by_id (t ∷ ts) id =
    let rest = get_column_type_by_id ts id in if same_int t.type_id id then ok t else rest

unfoldable pub get_kind_by_name :
    (String → String → Bool) → List ColumnType → String → Result GoKind
get_kind_by_name equal_fold [] name = err (errorf "type not found")
get_kind_by_name equal_fold (t ∷ ts) name =
    let rest = get_kind_by_name equal_fold ts name in
    if equal_fold t.sql_type_name name then ok t.go_kind else rest

unfoldable pub get_type_id_by_sql_name :
    (String → String → Bool) → List ColumnType → String → Result ℤ
get_type_id_by_sql_name equal_fold [] name = err (errorf "type not found")
get_type_id_by_sql_name equal_fold (t ∷ ts) name =
    let rest = get_type_id_by_sql_name equal_fold ts name in
    if equal_fold t.sql_type_name name then ok t.type_id else rest

-- Despite its name it compares names of SQL types too.
unfoldable pub get_type_id_by_go_kind :
    (String → String → Bool) → List ColumnType → String → Result ℤ
get_type_id_by_go_kind equal_fold [] name = err (errorf "type not found")
get_type_id_by_go_kind equal_fold (t ∷ ts) name =
    let rest = get_type_id_by_go_kind equal_fold ts name in
    if equal_fold t.sql_type_name name then ok t.type_id else rest

unfoldable pub get_kind_by_id : List ColumnType → ℤ → Result GoKind
get_kind_by_id [] id = err (errorf "type not found")
get_kind_by_id (t ∷ ts) id =
    let rest = get_kind_by_id ts id in if same_int t.type_id id then ok t.go_kind else rest

unfoldable pub get_name_by_id : List ColumnType → ℤ → Result String
get_name_by_id [] id = err (errorf "type not found")
get_name_by_id (t ∷ ts) id =
    let rest = get_name_by_id ts id in if same_int t.type_id id then ok t.sql_type_name else rest

-- The id of `t` leads to `t`, to its kind and to its name.
abbrev pub IsFound : ColumnType → Type 0
IsFound t =
    (get_column_type_by_id col_types t.type_id ≡ ok t)
    × (get_kind_by_id col_types t.type_id ≡ ok t.go_kind)
    × (get_name_by_id col_types t.type_id ≡ ok t.sql_type_name)

-- In the table of all column types each entry is found by its own id, by each of the three lookups.
pub col_types-found : All IsFound col_types
unfolding get_column_type_by_id get_kind_by_id get_name_by_id
col_types-found = (
  (refl, refl, refl),
  (
    (refl, refl, refl),
    (
      (refl, refl, refl),
      (
        (refl, refl, refl),
        (
          (refl, refl, refl),
          (
            (refl, refl, refl),
            (
              (refl, refl, refl),
              (
                (refl, refl, refl),
                (
                  (refl, refl, refl),
                  (
                    (refl, refl, refl),
                    (
                      (refl, refl, refl),
                      (
                        (refl, refl, refl),
                        (
                          (refl, refl, refl),
                          ((refl, refl, refl), ((refl, refl, refl), ((refl, refl, refl), tt))),
                        ),
                      ),
                    ),
                  ),
                ),
              ),
            ),
          ),
        ),
      ),
    ),
  ),
)

abbrev pub constants : List TypeId
constants =
    type_null ∷ type_boolean ∷ type_tinyint ∷ type_smallint ∷ type_int ∷ type_bigint ∷ type_real
    ∷ type_double ∷ type_decimal ∷ type_date ∷ type_time ∷ type_datetime ∷ type_timestamp
    ∷ type_uuid ∷ type_varchar ∷ type_varbinary ∷ []

abbrev pub type_among : List TypeId → ℤ → TypeId
type_among [] n = type_unknown n
type_among (t ∷ ts) n = let rest = type_among ts n in if same_int (id_of t) n then t else rest

-- The case of a number in a switch over the constants.
unfoldable pub type_of_id : ℤ → TypeId
type_of_id = type_among constants

-- The switch takes the case of each constant.
pub type_of_id-constants : All (λ t. type_of_id (id_of t) ≡ t) constants
unfolding type_of_id
type_of_id-constants = (
  refl,
  (
    refl,
    (
      refl,
      (
        refl,
        (
          refl,
          (
            refl,
            (refl, (refl, (refl, (refl, (refl, (refl, (refl, (refl, (refl, (refl, tt)))))))))),
          ),
        ),
      ),
    ),
  ),
)
