-- ===== src/Decimals/Text/Values.antt =====
-- What the text of a decimal says.
use ignite3_go_client.Base.{
  ℕ, zero, suc, ◌+◌, ◌-◌, ◌*◌, ◌/◌, ◌%◌, ◌^◌, ◌≤◌, ◌<◌, [], ◌∷◌, ◌++◌, Bytes, All, All-append, some,
  leb, length, length-append, if◌then◌else◌, ◌≡◌, refl, sym, ap, ◌∙◌, arith,
}
use mathlib.Core.List.{append_assoc, append-nil}
use native.Mathlib.Nat.{one-le-pow, mul-div_cancel, mul-mod_left, div-add-mod', mod-lt}
use ignite3_go_client.Base.Int.{ℤ, pos, negsuc}
use ignite3_go_client.Base.Result.{ok}
use ignite3_go_client.Decimals.Text.{
  digits, zeros, sign_of, magnitude_of, int_text, Fraction, times, fraction_of, big_rat, fractional,
  rounded, float_string, decimal_string,
}
use ignite3_go_client.Decimals.Text.Digits.{
  IsDigit, read_digits, digits_value, digits-IsDigit, length-digits-le, length-digits-pos,
  read_digits_head, read_digits-append, read_digits-zeros, length-zeros, zeros-IsDigit,
}

ten_pow_pos : (k : ℕ) → 0 < 10 ^ k
ten_pow_pos k = omega (arith, one-le-pow k 10)

-- The text of a number `m` in units of the last of `places` digits behind the point.
pub record IsDecimalText (m places : ℕ) (whole part : Bytes) : Type 0 where
  pub are_digits : All IsDigit (whole ++ part)
  pub some_digit : 1 ≤ length whole
  pub behind : length part ≡ places
  pub value : read_digits 0 (whole ++ part) ≡ m

abbrev pub point : Bytes → Bytes
point [] = []
point (c ∷ cs) = b'.' ∷ c ∷ cs

abbrev filled : ℕ → ℕ → Bytes
filled zero r = []
filled (suc k) r = zeros (suc k - length (digits r)) ++ digits r

point-pos : (cs : Bytes) → 1 ≤ length cs → b'.' ∷ cs ≡ point cs
point-pos [] h = absurd (omega arith)
point-pos (c ∷ cs) h = refl

length-filled : (k r : ℕ) → r < 10 ^ k → length (filled k r) ≡ k
length-filled zero r h = refl
length-filled (suc k) r h = omega (
  arith,
  length-append (zeros (suc k - length (digits r))) (digits r),
  length-zeros (suc k - length (digits r)),
  length-digits-le k r h,
)

filled_value : (k r : ℕ) → r < 10 ^ k → read_digits 0 (filled k r) ≡ r
filled_value zero r h = omega (arith, read_digits-zeros 0 0)
filled_value (suc k) r h =
    read_digits-append 0 (zeros (suc k - length (digits r))) (digits r)
    ∙ ap (λ n. read_digits n (digits r))
        (omega (arith, read_digits-zeros 0 (suc k - length (digits r))))
    ∙ digits_value r

filled-IsDigit : (k r : ℕ) → All IsDigit (filled k r)
filled-IsDigit zero r = tt
filled-IsDigit (suc k) r =
    All-append IsDigit (zeros (suc k - length (digits r))) (digits r) (zeros-IsDigit _)
      (digits-IsDigit r)

fractional-point : (k r : ℕ) → r < 10 ^ k → fractional k r ≡ point (filled k r)
fractional-point zero r h = refl
fractional-point (suc k) r h =
    point-pos (filled (suc k) r) (omega (arith, length-filled (suc k) r h))

filled-IsDecimalText : (m k : ℕ) → IsDecimalText m k (digits (m / 10 ^ k)) (filled k (m % 10 ^ k))
filled-IsDecimalText m k =
    let small : m % 10 ^ k < 10 ^ k = mod-lt m (ten_pow_pos k) in
    let part = filled k (m % 10 ^ k) in
    record {
      are_digits =
          All-append IsDigit (digits (m / 10 ^ k)) part (digits-IsDigit _) (filled-IsDigit k _);
      some_digit = length-digits-pos (m / 10 ^ k);
      behind = length-filled k (m % 10 ^ k) small;
      value =
          read_digits-append 0 (digits (m / 10 ^ k)) part
          ∙ ap (λ n. read_digits n part) (digits_value (m / 10 ^ k))
          ∙ read_digits_head (m / 10 ^ k) part
          ∙ ap (λ l. m / 10 ^ k * 10 ^ l + read_digits 0 part) (length-filled k (m % 10 ^ k) small)
          ∙ ap (λ n. m / 10 ^ k * 10 ^ k + n) (filled_value k (m % 10 ^ k) small)
          ∙ div-add-mod' m (10 ^ k);
    }

-- Nothing is left to round at as many digits as the scale.
unrounded :
    (q r b : ℕ)
    → r < b
    → rounded q (r * b / b) b (if leb b (r * b % b + r * b % b) then 1 else 0) ≡ (q, r)
unrounded q r b h = rw (mul-div_cancel r {n = b} (omega arith), mul-mod_left r b) (ground arith)

float_string-exact :
    (v : ℤ) (s : ℕ)
    → float_string (record { numerator = v; denominator = 10 ^ s }) s
      ≡ sign_of v ++ (digits (magnitude_of v / 10 ^ s) ++ fractional s (magnitude_of v % 10 ^ s))
unfolding float_string
float_string-exact v s =
    ap (λ (x : ℕ × ℕ). sign_of v ++ (digits x.0 ++ fractional s x.1))
      (unrounded (magnitude_of v / 10 ^ s) (magnitude_of v % 10 ^ s) (10 ^ s)
        (mod-lt (magnitude_of v) (ten_pow_pos s)))

-- The digits behind the point, and the number in units of the last of them.
abbrev pub places_of : ℤ → ℕ
places_of (pos s) = s
places_of (negsuc s) = 0

abbrev pub units_of : ℤ → ℤ → ℕ
units_of v (pos s) = magnitude_of v
units_of v (negsuc s) = magnitude_of v * 10 ^ suc s

magnitude-times : (v : ℤ) (k : ℕ) → 0 < k → magnitude_of (times v k) ≡ magnitude_of v * k
magnitude-times (pos n) k h = refl
magnitude-times (negsuc n) k h = grind arith

sign-times : (v : ℤ) (k : ℕ) → sign_of (times v k) ≡ sign_of v
sign-times (pos n) k = refl
sign-times (negsuc n) k = refl

zeros-IsDecimalText : (m k : ℕ) → IsDecimalText (m * 10 ^ k) 0 (digits m ++ zeros k) []
zeros-IsDecimalText m k =
    let whole = digits m ++ zeros k in
    record {
      are_digits =
          rw (append-nil whole)
            (All-append IsDigit (digits m) (zeros k) (digits-IsDigit m) (zeros-IsDigit k));
      some_digit = omega (arith, length-append (digits m) (zeros k), length-digits-pos m);
      behind = refl;
      value =
          ap (read_digits 0) (append-nil whole)
          ∙ read_digits-append 0 (digits m) (zeros k)
          ∙ ap (λ n. read_digits n (zeros k)) (digits_value m)
          ∙ read_digits-zeros m k;
    }

-- String of a decimal that is not nil is the sign, digits before the point, and as many behind it as the
-- scale says, none for a negative scale: the digits are exactly those of the number, with nothing lost
-- in rounding. BigRat is that number too.
pub decimal_string-IsDecimalText :
    (v scale : ℤ)
    → (whole part : Bytes) × (decimal_string (record { unscaled = some v; scale = scale })
        ≡ ok (sign_of v ++ (whole ++ point part)))
      × IsDecimalText (units_of v scale) (places_of scale) whole part
      × (f : Fraction) × (big_rat (record { unscaled = some v; scale = scale }) ≡ ok f)
      × (sign_of f.numerator ≡ sign_of v)
      × (magnitude_of f.numerator * 10 ^ places_of scale ≡ units_of v scale * f.denominator)
unfolding decimal_string big_rat int_text
decimal_string-IsDecimalText v (pos s) =
    let m = magnitude_of v in
    let small : m % 10 ^ s < 10 ^ s = mod-lt m (ten_pow_pos s) in
    (
      digits (m / 10 ^ s),
      filled s (m % 10 ^ s),
      ap ok (
          float_string-exact v s
          ∙ ap (λ f. sign_of v ++ (digits (m / 10 ^ s) ++ f))
              (fractional-point s (m % 10 ^ s) small)),
      filled-IsDecimalText m s,
      fraction_of v (pos s),
      refl,
      refl,
      refl,
    )
decimal_string-IsDecimalText v (negsuc s) = (
  digits (magnitude_of v) ++ zeros (suc s),
  [],
  ap ok (
      append_assoc (sign_of v) (digits (magnitude_of v)) (zeros (suc s))
      ∙ ap (λ t. sign_of v ++ t) (sym (append-nil (digits (magnitude_of v) ++ zeros (suc s))))),
  zeros-IsDecimalText (magnitude_of v) (suc s),
  fraction_of v (negsuc s),
  refl,
  sign-times v (10 ^ suc s),
  omega (arith, magnitude-times v (10 ^ suc s) (ten_pow_pos (suc s))),
)
