-- ===== src/Values/Timestamps.antt =====
-- Timestamp.Scan of binary/v1/types.go. An error of time.Parse is one format here.
use ignite3_go_client.Base.{String, Option, none, some}
use ignite3_go_client.Base.Int.{pos, negsuc}
use ignite3_go_client.Base.Result.{Result, ok, err, errorf}
use ignite3_go_client.Temporal.Calendar.{midnight}
use ignite3_go_client.Values.{Value, Time, GoLib, nil, text, bytes, time_time}

abbrev pub ts_layout : String
ts_layout = "2006-01-02 15:04:05.999999999 -0700 MST"

-- time.Time{}: the first of January of the year 1
abbrev pub zero_time : Time
zero_time = record { civil = midnight (pos 1) 1 1; unix = negsuc 62135596799 }

abbrev pub parsed : String → Option Time → Time → Result (Unit {0}) × Time
parsed failure none t = (err (errorf failure), t)
parsed failure (some tt') t = (ok tt, tt')

-- The outcome, and the timestamp after it.
unfoldable pub scan_timestamp : GoLib → Value → Time → Result (Unit {0}) × Time
scan_timestamp lib (time_time v) t = (ok tt, v)
scan_timestamp lib (bytes v) t =
    parsed "Timestamp.Scan: parse from []byte: %w" (lib.parse_time ts_layout v) t
scan_timestamp lib (text v) t =
    parsed "Timestamp.Scan: parse from string: %w" (lib.parse_time ts_layout v) t
scan_timestamp lib nil t = (ok tt, zero_time)
scan_timestamp lib _ t = (err (errorf "Timestamp.Scan: unsupported type %T"), t)
