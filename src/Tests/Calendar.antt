-- ===== src/Tests/Calendar.antt =====
-- Dates and times of the day.
use ignite3_go_client.Base.{Bytes, length, ◌≡◌, arith}
use ignite3_go_client.Base.Int.{pos}
use ignite3_go_client.Base.Result.{ok}
use ignite3_go_client.Temporal.{encode_date, decode_date}
use ignite3_go_client.Temporal.Calendar.{midnight, days_in_month}
use ignite3_go_client.Temporal.Dates.{decode-encode_date}

decode-encode_date_example :
    (b : Bytes) × (encode_date (pos 2024) (pos 2) (pos 29) ≡ ok b)
    × (length b ≡ 3)
    × (decode_date b ≡ ok (midnight (pos 2024) 2 29))
unfolding days_in_month
decode-encode_date_example =
    decode-encode_date 2024 2 29 (omega arith) (omega arith) (omega arith) (omega arith)
      (omega arith)
