-- ===== src/BinaryTuple/Convert.antt =====
-- toBool, toInt64, toFloat64, toDecimal and toTime of binary/v1/binary-tuple.go.
use ignite3_go_client.Base.{
  ℕ, zero, suc, ◌*◌, ◌/◌, ◌^◌, List, [], ◌∷◌, Bytes, Bool, true, false, not, ◌&&◌, ◌||◌, none, some,
  String, ◌==◌,
}
use ignite3_go_client.Base.Int.{ℤ, pos, negsuc, signed}
use ignite3_go_client.Base.Result.{Result, ok, err, errorf}
use ignite3_go_client.Values.{
  Value, Time, Decimal, GoLib, bool, int, int8, int16, int32, int64, uint8, uint16, uint32, uint64,
  float32, float64, text, decimal, decimal_ptr, date, time, date_time, timestamp, time_time, codes,
}

bytes_eq : Bytes → Bytes → Bool
bytes_eq [] [] = true
bytes_eq (a ∷ as') (b ∷ bs) = a == b && bytes_eq as' bs
bytes_eq _ _ = false

-- `v != 0`
nonzero : ℤ → Bool
nonzero (pos zero) = false
nonzero (pos (suc n)) = true
nonzero (negsuc n) = true

unfoldable pub to_bool : GoLib → Value → Result Bool
unfolding bytes_eq nonzero
to_bool lib (bool b) = ok b
to_bool lib (text s) =
    ok (bytes_eq s (codes "true") || (bytes_eq s (codes "TRUE") || bytes_eq s (codes "1")))
to_bool lib (int64 n) = ok (nonzero n)
to_bool lib (int32 n) = ok (nonzero n)
to_bool lib (int n) = ok (nonzero n)
to_bool lib (float64 f) = ok (not (lib.f64_eq f 0))
to_bool lib _ = err (errorf "cannot convert %T to BOOLEAN")

-- A uint64 wraps into an int64.
unfoldable pub to_int64 : GoLib → Value → Result ℤ
to_int64 lib (int n) = ok n
to_int64 lib (int8 n) = ok n
to_int64 lib (int16 n) = ok n
to_int64 lib (int32 n) = ok n
to_int64 lib (int64 n) = ok n
to_int64 lib (uint8 n) = ok (pos n)
to_int64 lib (uint16 n) = ok (pos n)
to_int64 lib (uint32 n) = ok (pos n)
to_int64 lib (uint64 n) = ok (signed (2 ^ 63) n)
to_int64 lib (float64 f) = ok (lib.int64_of_f64 f)
to_int64 lib (float32 f) = ok (lib.int64_of_f64 (lib.widen f))
to_int64 lib _ = err (errorf "cannot convert %T to integer")

unfoldable pub to_float64 : GoLib → Value → Result ℕ
to_float64 lib (float64 f) = ok f
to_float64 lib (float32 f) = ok (lib.widen f)
to_float64 lib (int n) = ok (lib.f64_of_int n)
to_float64 lib (int16 n) = ok (lib.f64_of_int n)
to_float64 lib (int32 n) = ok (lib.f64_of_int n)
to_float64 lib (int64 n) = ok (lib.f64_of_int n)
to_float64 lib _ = err (errorf "cannot convert %T to float")

-- big.Int.Exp(10, y, nil), which is 1 for a negative y.
pow10 : ℤ → ℕ
pow10 (pos n) = 10 ^ n
pow10 (negsuc n) = 1

neg_of : ℕ → ℤ
neg_of zero = pos 0
neg_of (suc n) = negsuc n

-- big.Int.Quo truncates towards zero.
scaled_quo : ℤ → ℕ → ℕ → ℤ
scaled_quo (pos n) mul den = pos (n * mul / den)
scaled_quo (negsuc n) mul den = neg_of (suc n * mul / den)

unfoldable pub decimal_from_string : GoLib → Bytes → ℤ → Decimal
unfolding pow10 neg_of scaled_quo
decimal_from_string lib s scale = elim (lib.set_string s) [
  | none ↦ record { unscaled = some (pos 0); scale = scale }
  | some (num, den) ↦ record { unscaled = some (scaled_quo num (pow10 scale) den); scale = scale }
]

abbrev scaled_int : ℤ → ℤ → Decimal
scaled_int n scale = record { unscaled = some n; scale = scale }

unfoldable pub to_decimal : GoLib → ℤ → Value → Result Decimal
to_decimal lib scale (decimal d) = ok d
to_decimal lib scale (decimal_ptr (some d)) = ok d
to_decimal lib scale (int n) = ok (scaled_int n scale)
to_decimal lib scale (int32 n) = ok (scaled_int n scale)
to_decimal lib scale (int64 n) = ok (scaled_int n scale)
to_decimal lib scale (float64 f) = ok (decimal_from_string lib (lib.format_float f) scale)
to_decimal lib scale (text s) = ok (decimal_from_string lib s scale)
to_decimal lib scale _ = err (errorf "cannot convert %T to DECIMAL")

abbrev layouts : List String
layouts =
    "2006-01-02T15:04:05.999999999Z07:00" ∷ "2006-01-02T15:04:05.999999999" ∷ "2006-01-02T15:04:05"
    ∷ "2006-01-02 15:04:05.999999999" ∷ "2006-01-02 15:04:05" ∷ "2006-01-02" ∷ "15:04:05.999999999"
    ∷ "15:04:05" ∷ []

first_layout : GoLib → List String → Bytes → Result Time
first_layout lib [] s = err (errorf "unsupported time format: %s")
first_layout lib (l ∷ ls) s = elim (lib.parse_time l s) [
  | some t ↦ ok t
  | none ↦ first_layout lib ls s
]

unfoldable pub to_time : GoLib → Value → Result Time
unfolding first_layout
to_time lib (time_time t) = ok t
to_time lib (timestamp t) = ok t
to_time lib (date_time t) = ok t
to_time lib (date t) = ok t
to_time lib (time t) = ok t
to_time lib (text s) = first_layout lib layouts s
to_time lib _ = err (errorf "cannot convert %T to time")
