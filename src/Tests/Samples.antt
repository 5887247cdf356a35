-- ===== src/Tests/Samples.antt =====
-- Sample values that the tests share.
use ignite3_go_client.Base.{ℕ, [], ◌∷◌, List, none, ◌==◌}
use ignite3_go_client.Base.Int.{pos}
use ignite3_go_client.Integers.Kinds.{bt_int32, bt_string}
use ignite3_go_client.Values.{Value, Time, GoLib}
use ignite3_go_client.BinaryTuple.{BinaryTupleColumn}
use ignite3_go_client.Tuples.{ColumnInfo}
use ignite3_go_client.ColumnTypes.{type_int, type_varchar}

-- A library that serves values which need no conversion.
abbrev pub plain_lib : GoLib
plain_lib = record {
  narrow = λ b. b;
  widen = λ b. b;
  f64_eq = λ a b. a == b;
  f64_of_int = λ n. 0;
  int64_of_f64 = λ b. pos b;
  sprint = λ v. [];
  format_float = λ b. [];
  parse_time = λ l s. none;
  set_string = λ s. none;
}

abbrev pub id_and_name : List BinaryTupleColumn
id_and_name =
    record { kind = bt_int32; scale = pos 0 } ∷ record { kind = bt_string; scale = pos 0 } ∷ []

abbrev pub id_and_name_infos : List ColumnInfo
id_and_name_infos =
    record { type_id = type_int; scale = pos 0; precision = pos 0 }
    ∷ record { type_id = type_varchar; scale = pos 0; precision = pos 0 }
    ∷ []

-- The row 300, "ab".
abbrev pub one_row : List Value
one_row = Value.int64 (pos 300) ∷ Value.text (97 ∷ 98 ∷ []) ∷ []

-- 2024-02-29 13:14:15 and `ns` nanoseconds, in UTC.
abbrev pub leap_day : ℕ → Time
leap_day ns = record {
  civil = record {
    year = pos 2024;
    month = 2;
    day = 29;
    hour = 13;
    minute = 14;
    second = 15;
    nanosecond = ns;
  };
  unix = pos 1709212455;
}
