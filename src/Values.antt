-- ===== src/Values.antt =====
-- Go values that cross the client's API (an `interface{}`), with the named types of
-- binary/v1/types.go, and what the model takes from Go's library without defining it.
pub mod Setters
pub mod Timestamps
pub mod Uuids
use ignite3_go_client.Base.{ℕ, Bytes, Bool, Option, String, ◌≡◌, List, [], ◌∷◌}
use ignite3_go_client.Base.Int.{ℤ}
use ignite3_go_client.Temporal.Calendar.{Civil}
use Prim.Native.Char.{code}
use Prim.Native.String

-- `unscaled` is a pointer to a big.Int.
pub record Decimal : Type 0 where
  pub unscaled : Option ℤ
  pub scale : ℤ

-- A time.Time by what its accessors return in its location, with Unix().
pub record Time : Type 0 where
  pub civil : Civil
  pub unix : ℤ

-- Floats are their IEEE 754 bit patterns. `other` is a value of any other type.
pub data Value : Type 0 where
  nil : Value
  bool : Bool → Value
  int int8 int16 int32 int64 : ℤ → Value
  uint8 uint16 uint32 uint64 : ℕ → Value
  float32 float64 : ℕ → Value
  text bytes : Bytes → Value
  decimal : Decimal → Value
  decimal_ptr : Option Decimal → Value
  date time date_time timestamp time_time : Time → Value
  uuid : Bytes → Value
  uuid_ptr : Option Bytes → Value
  other : ℕ → Value

-- Floating-point conversions and comparison, fmt.Sprintf("%v"), strconv.FormatFloat, time.Parse and
-- big.Rat.SetString (numerator and denominator).
pub record GoLib : Type 0 where
  pub narrow : ℕ → ℕ
  pub widen : ℕ → ℕ
  pub f64_eq : ℕ → ℕ → Bool
  pub f64_of_int : ℤ → ℕ
  pub int64_of_f64 : ℕ → ℤ
  pub sprint : Value → Bytes
  pub format_float : ℕ → Bytes
  pub parse_time : String → Bytes → Option Time
  pub set_string : Bytes → Option (ℤ × ℕ)

-- The bytes of an ASCII literal.
abbrev pub codes : String → Bytes
codes String.[] = []
codes (String.◌∷◌ c s) = code c ∷ codes s
