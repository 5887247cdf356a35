-- ===== src/Decimals/Text.antt =====
-- Decimal.String and Decimal.BigRat of binary/v1/types.go, with what they call of math/big. A text is its
-- ASCII bytes.
pub mod Digits
pub mod Values
use ignite3_go_client.Base.{
  ℕ, zero, suc, ◌+◌, ◌-◌, ◌*◌, ◌/◌, ◌%◌, ◌^◌, List, [], ◌∷◌, ◌++◌, Bytes, Bool, Option, none, some,
  leb, ◌==◌, length, if◌then◌else◌,
}
use ignite3_go_client.Base.Int.{ℤ, pos, negsuc}
use ignite3_go_client.Base.Result.{Result, ok, panic, ◌>>=◌}
use ignite3_go_client.Values.{Decimal, codes}

-- The digits of a number, the last ones in `acc`. `n` rounds are enough.
digits_loop : ℕ → ℕ → Bytes → Bytes
digits_loop zero n acc = acc
digits_loop (suc fuel) n acc =
    let more = digits_loop fuel (n / 10) ((b'0' + n % 10) ∷ acc) in if n == 0 then acc else more

unfoldable pub digits : ℕ → Bytes
unfolding digits_loop
digits zero = b'0' ∷ []
digits (suc n) = digits_loop (suc n) (suc n) []

abbrev pub zeros : ℕ → Bytes
zeros zero = []
zeros (suc n) = b'0' ∷ zeros n

abbrev pub sign_of : ℤ → Bytes
sign_of (pos n) = []
sign_of (negsuc n) = b'-' ∷ []

abbrev pub magnitude_of : ℤ → ℕ
magnitude_of (pos n) = n
magnitude_of (negsuc n) = suc n

-- (*big.Int).String, on a nil pointer too
unfoldable pub int_text : Option ℤ → Bytes
int_text none = codes "<nil>"
int_text (some v) = sign_of v ++ digits (magnitude_of v)

-- A big.Rat, as a fraction that need not be in lowest terms.
pub record Fraction : Type 0 where
  pub numerator : ℤ
  pub denominator : ℕ

abbrev pub times : ℤ → ℕ → ℤ
times (pos n) k = pos (n * k)
times (negsuc n) k = negsuc (suc n * k - 1)

-- BigRat: a nil number panics.
abbrev pub fraction_of : ℤ → ℤ → Fraction
fraction_of v (pos s) = record { numerator = v; denominator = 10 ^ s }
fraction_of v (negsuc s) = record { numerator = times v (10 ^ suc s); denominator = 1 }

unfoldable pub big_rat : Decimal → Result Fraction
big_rat d = elim d.unscaled [ none ↦ panic | some v ↦ ok (fraction_of v d.scale) ]

-- The part behind the point: at least one digit, filled with zeros in front.
abbrev pub fractional : ℕ → ℕ → Bytes
fractional zero r = []
fractional (suc k) r = let rs = digits r in b'.' ∷ (zeros (suc k - length rs) ++ rs)

-- The whole part and the places behind the point, after rounding half away from zero.
abbrev pub rounded : ℕ → ℕ → ℕ → ℕ → ℕ × ℕ
rounded q r p up = let r' = r + up in if leb p r' then (q + 1, r' - p) else (q, r')

-- (*big.Rat).FloatString: `prec` digits behind the point
unfoldable pub float_string : Fraction → ℕ → Bytes
float_string f prec =
    let m = magnitude_of f.numerator in
    let b = f.denominator in
    let r = m % b * 10 ^ prec in
    let up : ℕ = if leb b (r % b + r % b) then 1 else 0 in
    let (q, places) = rounded (m / b) (r / b) (10 ^ prec) up in
    sign_of f.numerator ++ (digits q ++ fractional prec places)

unfoldable pub decimal_string : Decimal → Result Bytes
decimal_string d = elim d.scale [
  | pos s ↦ (do f ← big_rat d; ok (float_string f s))
  | negsuc s ↦ ok (int_text d.unscaled ++ zeros (suc s))
]
