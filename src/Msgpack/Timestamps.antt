-- ===== src/Msgpack/Timestamps.antt =====
-- Observable timestamps: what a client writes is read back without its milliseconds.
use ignite3_go_client.Base.{ℕ, ◌*◌, ◌/◌, ◌^◌, ◌<◌, ◌≡◌, arith}
use ignite3_go_client.Base.Int.{pos}
use ignite3_go_client.Msgpack.{
  shift_16, quot_1000, unix, timestamp_of, unix_milli, times_65536, raw_of_timestamp,
}

-- A time since 1970, as nanoseconds, that WritePackedTimestamp writes without an overflow of int64 is
-- read by ReadPackedTimestamp as the start of its second: the milliseconds are lost.
pub timestamp_of-raw_of_timestamp :
    (n : ℕ)
    → n / 1000000 * 65536 < 2 ^ 63
    → timestamp_of (raw_of_timestamp (pos n)) ≡ pos (n / 1000000000 * 1000000000)
unfolding timestamp_of raw_of_timestamp unix_milli times_65536 shift_16 quot_1000 unix
timestamp_of-raw_of_timestamp n h = ground arith
