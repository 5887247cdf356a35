-- ===== src/Decimals/RoundTrip.antt =====
-- The DECIMAL case of GetValue inverts twosComplementBytes on every integer.
use ignite3_go_client.Base.{
  ℕ, suc, ◌+◌, ◌-◌, ◌*◌, ◌/◌, ◌^◌, ◌≤◌, [], ◌∷◌, Bytes, length, ◌≡◌, refl, ap, subst, ◌∙◌, arith,
  if_elim, ◌==◌, ◌&&◌, true, some,
}
use native.Mathlib.Nat.{pow-suc, one-le-pow, pow-le-pow_right}
use native.Mathlib.Numerals.{towards_suc}
use ignite3_go_client.Base.Int.{ℤ, pos, negsuc, sub_ℕ}
use ignite3_go_client.Wire.{from_be}
use ignite3_go_client.Decimals.{
  magnitude, bit_len, top_set, trim, keep_negative, keep_positive, twos_complement_bytes,
  decode_unscaled,
}
use ignite3_go_client.Decimals.Magnitude.{
  from_be-magnitude, length-magnitude, from_be-cons, from_be-step, bit_len_bounds, two_pow_eight,
}

pub decode-keep_positive : (b : Bytes) → decode_unscaled (keep_positive b) ≡ pos (from_be 0 b)
decode-keep_positive [] = unfold decode_unscaled keep_positive from_be in refl
decode-keep_positive (b ∷ r) =
    unfold keep_positive in
    if_elim (λ bs. decode_unscaled bs ≡ pos (from_be 0 (b ∷ r))) (top_set b) _ _
      (λ _. unfold decode_unscaled in ap pos (from_be-step 0 0 (b ∷ r)))
      (λ x. unfold decode_unscaled in rw x)

-- The bytes are those of -(a + 1) in two's complement at their own length.
pub record Negates (a : ℕ) (raw : Bytes) : Type 0 where
  pub sum : from_be 0 raw + suc a ≡ 256 ^ length raw

Negates-extended : (a : ℕ) (raw : Bytes) → Negates a raw → Negates a (0xff ∷ raw)
Negates-extended a raw h = record {
  sum = omega (arith, h.sum, from_be-cons 0xff raw, pow-suc 256 (length raw));
}

Negates-trimmed : (a : ℕ) (raw : Bytes) → Negates a (0xff ∷ raw) → Negates a raw
Negates-trimmed a raw h = record {
  sum = omega (arith, h.sum, from_be-cons 0xff raw, pow-suc 256 (length raw));
}

Negates-trim : (a : ℕ) (raw : Bytes) → Negates a raw → Negates a (trim raw)
unfolding trim
Negates-trim a [] h = h
Negates-trim a (b ∷ []) h = h
Negates-trim a (b ∷ c ∷ r) h =
    if_elim (Negates a) (b == 0xff && top_set c) _ _
      (λ x.
        Negates-trim a (c ∷ r)
          (Negates-trimmed a (c ∷ r) (subst (λ d. Negates a (d ∷ c ∷ r)) (ground arith) h)))
      (λ _. h)

below : (a n m k : ℕ) → n + suc a ≡ m → k ≡ m → sub_ℕ n k ≡ negsuc a
below a n m k e f = ground arith

decode_top :
    (a b : ℕ) (r : Bytes)
    → top_set b ≡ true
    → Negates a (b ∷ r)
    → decode_unscaled (b ∷ r) ≡ negsuc a
unfolding decode_unscaled
decode_top a b r x h = rw x (below a _ _ _ h.sum (two_pow_eight (length (b ∷ r))))

pub decode-keep_negative :
    (a : ℕ) (raw : Bytes) → Negates a raw → decode_unscaled (keep_negative raw) ≡ negsuc a
decode-keep_negative a [] h =
    unfold keep_negative in decode_top a 0xff [] refl (Negates-extended a [] h)
decode-keep_negative a (b ∷ r) h =
    unfold keep_negative in
    if_elim (λ bs. decode_unscaled bs ≡ negsuc a) (top_set b) _ _ (λ x. decode_top a b r x h)
      (λ _. decode_top a 0xff (b ∷ r) refl (Negates-extended a (b ∷ r) h))

-- The complement of a + 1 at L bytes negates it if it takes all L bytes.
pub complement-Negates :
    (k a : ℕ) → 256 ^ k + suc a ≤ 256 ^ suc k → Negates a (magnitude (2 ^ (8 * suc k) - suc a))
complement-Negates k a h = record {
  sum = omega (
    arith,
    two_pow_eight (suc k),
    one-le-pow k 256,
    from_be-magnitude (2 ^ (8 * suc k) - suc a),
    ap (λ (l : ℕ). 256 ^ l)
        (length-magnitude k (2 ^ (8 * suc k) - suc a) (omega (arith, two_pow_eight (suc k)))
          (omega (arith, two_pow_eight (suc k)))),
  );
}

seven_more : (k : ℕ) → 2 ^ (8 * k + 7) ≡ 128 * 256 ^ k
seven_more k = simp towards_suc (omega (arith, two_pow_eight k))

-- One sign bit is left over at the length that the code computes.
sign_room : (a : ℕ) → 256 ^ (bit_len (suc a) / 8) + suc a ≤ 256 ^ suc (bit_len (suc a) / 8)
sign_room a =
    let l = bit_len (suc a) in
    let wide : 2 ^ l ≤ 2 ^ (8 * (l / 8) + 7) = pow-le-pow_right (omega arith) (omega arith) in
    omega (
      arith,
      wide,
      seven_more (l / 8),
      bit_len_bounds (suc a),
      pow-suc 256 (l / 8),
      one-le-pow (l / 8) 256,
    )

-- What is left of the complement that the code computes negates a + 1.
pub trimmed-Negates :
    (a : ℕ) → Negates a (trim (magnitude (2 ^ ((bit_len (suc a) + 8) / 8 * 8) - suc a)))
trimmed-Negates a =
    let l = bit_len (suc a) in
    let e : 8 * suc (l / 8) ≡ (l + 8) / 8 * 8 = omega arith in
    subst (λ m. Negates a (trim (magnitude (2 ^ m - suc a)))) e
      (Negates-trim a _ (complement-Negates (l / 8) a (sign_room a)))

-- Every unscaled integer is read back by the DECIMAL case of GetValue from the bytes that
-- twosComplementBytes makes of it.
pub decode-twos_complement_bytes : (v : ℤ) → decode_unscaled (twos_complement_bytes (some v)) ≡ v
decode-twos_complement_bytes (pos n) =
    unfold twos_complement_bytes in
    decode-keep_positive (magnitude n) ∙ ap pos (from_be-magnitude n)
decode-twos_complement_bytes (negsuc a) =
    unfold twos_complement_bytes in decode-keep_negative a _ (trimmed-Negates a)
