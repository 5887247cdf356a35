-- ===== src/Integers/Kinds.antt =====
-- The Bt* constants of binary/v1/binary-tuple.go.
use ignite3_go_client.Base.Int.{ℤ}

-- `unknown` is any other number.
pub data Kind : Type 0 where
  bt_null bt_boolean bt_int8 bt_int16 bt_int32 bt_int64 bt_float bt_double : Kind
  bt_decimal bt_date bt_time bt_date_time bt_timestamp bt_uuid bt_string bt_bytes : Kind
  unknown : ℤ → Kind
