-- ===== src/ResultSets/Rows/Nulls.antt =====
-- NULL cells in a result set.
use ignite3_go_client.Base.{All, ◌≡◌, refl, if◌then◌else◌}
use ignite3_go_client.Base.Result.{ok, panic}
use ignite3_go_client.ColumnTypes.{col_types}
use ignite3_go_client.Tuples.Scan.{nil}
use ignite3_go_client.ResultSets.Rows.{raw, convert, is_struct, as_decimal, as_uuid, as_time}

-- Over the table of all column types: a NULL cell is passed on as nil where the kind of the type is
-- not Struct; where it is (DECIMAL, UUID, DATETIME and TIMESTAMP) Next panics on it.
pub convert-nil :
    All (λ t. convert t nil ≡ (if is_struct t.go_kind then panic else ok (raw nil))) col_types
unfolding convert as_decimal as_uuid as_time
convert-nil = (
  refl,
  (
    refl,
    (
      refl,
      (
        refl,
        (
          refl,
          (
            refl,
            (refl, (refl, (refl, (refl, (refl, (refl, (refl, (refl, (refl, (refl, tt)))))))))),
          ),
        ),
      ),
    ),
  ),
)
