-- ===== src/Decimals/Arguments.antt =====
-- encodeDecimalUnscaled, the DECIMAL encoder of SQL arguments: where it is right, and where the
-- leading zero bytes that big.Int.Bytes drops make it wrong.
use ignite3_go_client.Base.{
  ℕ, suc, ◌+◌, ◌-◌, ◌*◌, ◌/◌, ◌^◌, ◌≤◌, ◌<◌, Bytes, length, ◌≡◌, ◌≢◌, refl, ap, sym, ◌∙◌, arith,
  some, ◌==◌, false,
}
use native.Mathlib.Decide.{dec_le}
use native.Mathlib.Nat.{pow-suc, one-le-pow, pow-le-pow_right}
use native.Mathlib.Numerals.{towards_suc}
use ignite3_go_client.Base.Int.{pos, negsuc}
use ignite3_go_client.Base.Result.{ok}
use ignite3_go_client.Wire.{from_be}
use ignite3_go_client.Decimals.{
  magnitude, bit_len, keep_negative, keep_positive, encode_decimal_unscaled, decode_unscaled,
}
use ignite3_go_client.Decimals.Magnitude.{
  from_be-magnitude, magnitude-IsByte, from_be-lt, length-magnitude-le, bit_len_bounds,
  two_pow_eight,
}
use ignite3_go_client.Decimals.RoundTrip.{
  complement-Negates, decode-keep_negative, decode-keep_positive,
}

one_more : (k : ℕ) → 2 ^ (8 * k + 1) ≡ 2 * 256 ^ k
one_more k = simp towards_suc (omega (arith, two_pow_eight k))

-- The number of bytes that the code computes for the magnitude `a`.
byte_count : (k a : ℕ) → 256 ^ k ≤ a → a < 256 ^ suc k → (bit_len a + 7) / 8 ≡ suc k
byte_count k a lo hi = omega (arith, above, below)
  where
    above : 8 * k < bit_len a
    above = elim (dec_le (bit_len a) (8 * k)) [
      | yes h ↦
          let p : 2 ^ bit_len a ≤ 2 ^ (8 * k) = pow-le-pow_right (omega arith) h in
          absurd (omega (arith, p, two_pow_eight k, bit_len_bounds a))
      | no h ↦ omega arith
    ]

    below : bit_len a ≤ 8 * suc k
    below = elim (dec_le (8 * suc k + 1) (bit_len a)) [
      | yes h ↦
          let p : 2 ^ (8 * suc k + 1) ≤ 2 ^ bit_len a = pow-le-pow_right (omega arith) h in
          absurd (omega (arith, p, one_more (suc k), bit_len_bounds a, one-le-pow k 256))
      | no h ↦ omega arith
    ]

suc-ne-zero : (k : ℕ) → (suc k == 0) ≡ false
suc-ne-zero k = ground arith

encode_negative :
    (k a : ℕ)
    → 256 ^ k ≤ suc a
    → suc a < 256 ^ suc k
    → encode_decimal_unscaled (some (negsuc a))
      ≡ ok (keep_negative (magnitude (2 ^ (8 * suc k) - suc a)))
unfolding encode_decimal_unscaled
encode_negative k a lo hi = rw (byte_count k (suc a) lo hi, suc-ne-zero k) refl

-- A number that is not negative is read back.
pub encode_decimal_unscaled-pos :
    (n : ℕ)
    → (b : Bytes) × (encode_decimal_unscaled (some (pos n)) ≡ ok b) × (decode_unscaled b ≡ pos n)
unfolding encode_decimal_unscaled
encode_decimal_unscaled-pos n = (
  keep_positive (magnitude n),
  refl,
  decode-keep_positive (magnitude n) ∙ ap pos (from_be-magnitude n),
)

-- As an SQL argument the negative number -(a + 1) is read back if a + 1 is from 256 ^ k to 256 ^
-- (k + 1) - 256 ^ k for some k.
pub encode_decimal_unscaled-negsuc :
    (k a : ℕ)
    → 256 ^ k ≤ suc a
    → suc a + 256 ^ k ≤ 256 ^ suc k
    → (b : Bytes) × (encode_decimal_unscaled (some (negsuc a)) ≡ ok b)
      × (decode_unscaled b ≡ negsuc a)
encode_decimal_unscaled-negsuc k a lo hi = (
  keep_negative (magnitude (2 ^ (8 * suc k) - suc a)),
  encode_negative k a lo (omega (arith, one-le-pow k 256)),
  decode-keep_negative a _ (complement-Negates k a (omega arith)),
)

-- What is left of the complement when its leading bytes are zero negates a smaller number.
short_complement :
    (k n : ℕ)
    → 0 < n
    → n < 256 ^ k
    → (c : ℕ) × (decode_unscaled (keep_negative (magnitude n)) ≡ negsuc c) × (c + n < 256 ^ k)
short_complement k n p h =
    let l : ℕ = length (magnitude n) in
    let fits : from_be 0 (magnitude n) < 256 ^ l = from_be-lt (magnitude n) (magnitude-IsByte n) in
    let short : 256 ^ l ≤ 256 ^ k = pow-le-pow_right (omega arith) (length-magnitude-le k n h) in
    (
      256 ^ l - suc n,
      decode-keep_negative (256 ^ l - suc n) (magnitude n)
          (record { sum = omega (arith, fits, from_be-magnitude n) }),
      omega (arith, fits, short, from_be-magnitude n),
    )

-- As an SQL argument the negative number -(a + 1) is encoded but read back as another number if a
-- + 1 is above 256 ^ (k + 1) - 256 ^ k and below 256 ^ (k + 1) for some k from 1 on.
pub encode_decimal_unscaled_defect :
    (k a : ℕ)
    → 1 ≤ k
    → suc a < 256 ^ suc k
    → 256 ^ suc k < suc a + 256 ^ k
    → (b : Bytes) × (encode_decimal_unscaled (some (negsuc a)) ≡ ok b)
      × (decode_unscaled b ≢ negsuc a)
encode_decimal_unscaled_defect k a k1 hi lo =
    let n : ℕ = 2 ^ (8 * suc k) - suc a in
    let small : (0 < n) × (n < 256 ^ k) =
      (omega (arith, two_pow_eight (suc k)), omega (arith, two_pow_eight (suc k))) in
    let (c, e, l) = short_complement k n small.0 small.1 in
    (
      keep_negative (magnitude n),
      encode_negative k a (omega (arith, pow-suc 256 k)) hi,
      λ x. other c (omega (arith, l, two_pow_eight (suc k), pow-suc 256 k)) (sym e ∙ x),
    )
  where
    other : (c : ℕ) → c < a → negsuc c ≡ negsuc a → ⊥
    other c h x = ground arith
