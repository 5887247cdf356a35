-- ===== src/Temporal.antt =====
-- DATE, TIME and TIMESTAMP elements: encodeDate, encodeTime, decodeDate, decodeTime and
-- decodeTimestamp of binary/v1/tuple.go, with what they call of Go's package time.
pub mod Calendar
pub mod Dates
pub mod Times
use Calendar.{Civil, date_utc, zero_plus}
use ignite3_go_client.Base.{
  ℕ, suc, ◌+◌, ◌-◌, ◌*◌, ◌/◌, ◌%◌, ◌^◌, bit_and, bit_or, [], ◌∷◌, Bytes, Bool, false, ◌&&◌, ◌||◌,
  leb, ltb, ◌==◌, length, drop, take, if◌then◌else◌,
}
use ignite3_go_client.Base.Int.{ℤ, pos, negsuc, fits, wrap, signed}
use ignite3_go_client.Base.Result.{Result, ok, err, panic, errorf, ◌>>=◌}
use ignite3_go_client.Wire.{le_bytes, from_le}

-- `lo ≤ z && z ≤ hi`
abbrev pub between : ℕ → ℕ → ℤ → Bool
between lo hi (pos n) = leb lo n && leb n hi
between lo hi (negsuc n) = false

-- The year as 15 bits of two's complement.
abbrev pub year15 : ℤ → ℕ
year15 (pos n) = n
year15 (negsuc n) = 2 ^ 15 - suc n

unfoldable pub date_word : ℤ → ℤ → ℤ → ℕ
date_word year month day =
    bit_or (bit_or (bit_and (wrap (2 ^ 32) day) 0x1f) (bit_and (wrap (2 ^ 32) month) 0x0f * 2 ^ 5))
      (bit_and (year15 year) 0x7fff * 2 ^ 9)

unfoldable pub encode_date : ℤ → ℤ → ℤ → Result Bytes
encode_date year month day =
    if between 1 12 month
    then if between 1 31 day
      then if fits (2 ^ 14) year
        then ok (le_bytes 3 (date_word year month day))
        else err (errorf "Year out of 15-bit signed range")
      else err (errorf "Day out of range")
    else err (errorf "Month out of range")

unfoldable pub time_word : ℤ → ℤ → ℤ → ℤ → ℕ
time_word hour minute second nsec =
    bit_or
      (bit_or (bit_or (wrap (2 ^ 64) nsec) (bit_and (wrap (2 ^ 64) second) 0x3f * 2 ^ 30))
        (bit_and (wrap (2 ^ 64) minute) 0x3f * 2 ^ 36))
      (bit_and (wrap (2 ^ 64) hour) 0x1f * 2 ^ 42)

unfoldable pub encode_time : ℤ → ℤ → ℤ → ℤ → Result Bytes
encode_time hour minute second nsec =
    if between 0 23 hour
    then if between 0 59 minute
      then if between 0 59 second
        then if between 0 999_999_999 nsec
          then ok (le_bytes 6 (time_word hour minute second nsec))
          else err (errorf "Nanosec out of range")
        else err (errorf "Second out of range")
      else err (errorf "Minute out of range")
    else err (errorf "Hour out of range")

-- Reading past the third byte of a shorter slice panics.
unfoldable pub decode_date : Bytes → Result Civil
decode_date (a ∷ b ∷ c ∷ _) =
    let w = from_le (a ∷ b ∷ c ∷ 0 ∷ []) in
    ok (date_utc (bit_and (w / 2 ^ 9) 0x7fff) (bit_and (w / 2 ^ 5) 0x0f) (bit_and w 0x1f))
decode_date _ = panic

-- The last `k` bytes, copied by index from the end.
unfoldable pub last_bytes : ℕ → Bytes → Result Bytes
last_bytes k raw = if ltb (length raw) k then panic else ok (drop (length raw - k) raw)

abbrev pub ns_second : ℕ
ns_second = 1_000_000_000

-- Fraction (`bits` wide, counted in `unit` nanoseconds), seconds, minutes and hours of a word, added
-- to the zero time.
unfoldable pub time_fields : ℕ → ℕ → ℕ → Civil
time_fields bits unit w = zero_plus (
    bit_and w (2 ^ bits - 1) * unit
    + bit_and (w / 2 ^ bits) 0x3f * ns_second
    + bit_and (w / 2 ^ (bits + 6)) 0x3f * (60 * ns_second)
    + bit_and (w / 2 ^ (bits + 12)) 0x1f * (3600 * ns_second))

unfoldable pub decode_time : Bytes → ℤ → Result Civil
decode_time raw (negsuc p) = err (errorf "Precision not supported: %d")
decode_time raw (pos p) =
    if p == 6 || p == 0
    then (do b ← last_bytes 4 raw; ok (time_fields 10 1_000_000 (from_le b)))
    else if p == 9
    then (do b ← last_bytes 5 raw; ok (time_fields 20 1_000 (from_le b)))
    else if p == 12
    then (do b ← last_bytes 6 raw; ok (time_fields 30 1_000 (from_le b)))
    else err (errorf "Precision not supported: %d")

-- A point in time: seconds since the epoch and nanoseconds.
pub record Instant : Type 0 where
  pub unix : ℤ
  pub nanosecond : ℕ

-- time.Unix carries whole seconds over, in an int64.
abbrev pub unix_time : ℤ → ℕ → Instant
unix_time sec nsec =
    if ltb nsec ns_second then record { unix = sec; nanosecond = nsec } else record {
      unix = signed (2 ^ 63) ((wrap (2 ^ 64) sec + nsec / ns_second) % 2 ^ 64);
      nanosecond = nsec % ns_second;
    }

-- `raw[8:]` needs eight bytes, and Uint32 of it four more: a shorter payload panics.
unfoldable pub decode_timestamp : Bytes → Result Instant
decode_timestamp raw =
    if ltb (length raw) 12
    then panic
    else ok (unix_time (signed (2 ^ 63) (from_le (take 8 raw))) (from_le (take 4 (drop 8 raw))))
