-- ===== src/Decimals/Shortest.antt =====
-- No payload that is read back as the same number is shorter than that of twosComplementBytes.
use ignite3_go_client.Base.{
  ℕ, suc, ◌+◌, ◌-◌, ◌*◌, ◌/◌, ◌^◌, ◌≤◌, ◌<◌, [], ◌∷◌, Bytes, true, false, length, ltb, ltb→lt,
  ltb_false→le, ◌==◌, ◌&&◌, ◌||◌, not, All, IsByte, ◌≡◌, refl, ap, subst, arith, if_elim, some,
  each_below, each_below_sound, Bool-cases, inl, inr, ==_iff,
}
use native.Mathlib.Nat.{pow-suc, one-le-pow, pow-le-pow_right}
use ignite3_go_client.Base.Int.{ℤ, pos, negsuc, sub_ℕ, Fits, Fits-mono}
use ignite3_go_client.Wire.{from_be}
use ignite3_go_client.Decimals.{
  magnitude, bit_len, top_set, trim, keep_negative, keep_positive, twos_complement_bytes,
  decode_unscaled,
}
use ignite3_go_client.Decimals.Magnitude.{
  from_be-magnitude, length-magnitude-le, magnitude-IsByte, from_be-cons, from_be-lt, two_pow_eight,
}
use ignite3_go_client.Decimals.RoundTrip.{Negates, trimmed-Negates}

-- The top bit of a byte tells its size.
large_table : each_below (λ b. not (top_set b) || not (ltb b 128)) 256 ≡ true
unfolding each_below
large_table = refl

small_table : each_below (λ b. top_set b || ltb b 128) 256 ≡ true
unfolding each_below
small_table = refl

large : (b : ℕ) → IsByte b → top_set b ≡ true → 128 ≤ b
large b h t =
    let e : (not true || not (ltb b 128)) ≡ true =
      subst (λ x. (not x || not (ltb b 128)) ≡ true) t
        (each_below_sound (λ x. not (top_set x) || not (ltb x 128)) 256 b large_table h) in
    ground arith

small : (b : ℕ) → IsByte b → top_set b ≡ false → b < 128
small b h t =
    let e : (false || ltb b 128) ≡ true =
      subst (λ x. (x || ltb b 128) ≡ true) t
        (each_below_sound (λ x. top_set x || ltb x 128) 256 b small_table h) in
    ground arith

-- Half the number of values of two's complement in `suc k` bytes.
abbrev half_values : ℕ → ℕ
half_values k = 128 * 256 ^ k

-- A leading byte `b` before `n < x`.
lead_ge : (b n x c : ℕ) → c ≤ b → c * x ≤ b * x + n
lead_ge b n x c h = grind arith

lead_lt : (b n x c : ℕ) → b < c → n < x → b * x + n < c * x
lead_lt b n x c h k = grind arith

module _ (b : ℕ) (r : Bytes) (hb : IsByte b) (hr : All IsByte r) where
  from_be_large : top_set b ≡ true → half_values (length r) ≤ from_be 0 (b ∷ r)
  from_be_large t =
      omega (arith, from_be-cons b r, lead_ge b (from_be 0 r) (256 ^ length r) 128 (large b hb t))

  from_be_small : (c : ℕ) → b < c → from_be 0 (b ∷ r) < c * 256 ^ length r
  from_be_small c l =
      omega
        (arith, from_be-cons b r, lead_lt b (from_be 0 r) (256 ^ length r) c l (from_be-lt r hr))

  decode_below :
      (n m : ℕ)
      → n < m
      → m ≡ 256 ^ suc (length r)
      → half_values (length r) ≤ n
      → Fits (half_values (length r)) (sub_ℕ n m)
  decode_below n m l e h = ground (arith, pow-suc 256 (length r))

  decode-Fits : Fits (half_values (length r)) (decode_unscaled (b ∷ r))
  unfolding decode_unscaled
  decode-Fits =
      if_elim (Fits (half_values (length r))) (top_set b) _ _
        (λ t.
          decode_below (from_be 0 (b ∷ r)) (2 ^ (8 * length (b ∷ r)))
            (omega (arith, two_pow_eight (suc (length r)), from_be-lt (b ∷ r) (hb, hr)))
            (two_pow_eight (suc (length r))) (from_be_large t))
        (λ f. from_be_small 128 (small b hb f))

-- The number needs all the bytes.
abbrev Needs : ℤ → Bytes → Type 0
Needs v [] = Unit
Needs v (b ∷ []) = Unit
Needs v (b ∷ c ∷ r) = ¬ Fits (half_values (length r)) v

Needs-lead :
    (b : ℕ) (r : Bytes) (v : ℤ)
    → ((k : ℕ) → suc k ≡ length r → ¬ Fits (half_values k) v)
    → Needs v (b ∷ r)
Needs-lead b [] v h = tt
Needs-lead b (c ∷ r) v h = h (length r) refl

-- A magnitude starts with a byte that is not 0.
magnitude_lead : (n m : ℕ) → length (magnitude n) ≡ suc m → 256 ^ m ≤ n
magnitude_lead n m e = elim (Bool-cases (ltb n (256 ^ m))) [
  | inl l ↦ absurd (omega (arith, length-magnitude-le m n (ltb→lt _ _ l)))
  | inr g ↦ ltb_false→le _ _ g
]

half_below : (k m n : ℕ) → suc k ≡ m → 256 ^ m ≤ n → half_values k ≤ n
half_below k m n e h = omega (arith, ap (λ (t : ℕ). 256 ^ t) e, pow-suc 256 k)

positive_lead :
    (n : ℕ) (raw : Bytes)
    → from_be 0 raw ≡ n
    → All IsByte raw
    → ((m : ℕ) → length raw ≡ suc m → 256 ^ m ≤ n)
    → Needs (pos n) (keep_positive raw)
unfolding keep_positive
positive_lead n [] e h l = tt
positive_lead n (b ∷ r) e h l =
    if_elim (Needs (pos n)) (top_set b) _ _
      (λ t f. absurd (omega (arith, from_be_large b r h.0 h.1 t)))
      (λ _.
        Needs-lead b r (pos n)
          (λ k q f. absurd (omega (arith, half_below k (length r) n q (l (length r) refl)))))

trim-IsByte : (raw : Bytes) → All IsByte raw → All IsByte (trim raw)
unfolding trim
trim-IsByte [] h = h
trim-IsByte (b ∷ []) h = h
trim-IsByte (b ∷ c ∷ r) h =
    if_elim (All IsByte) (b == 0xff && top_set c) _ _ (λ _. trim-IsByte (c ∷ r) h.1) (λ _. h)

-- A leading 0xff is not left where the next byte tells the sign.
abbrev IsTrimmed : Bytes → Type 0
IsTrimmed [] = Unit
IsTrimmed (b ∷ []) = Unit
IsTrimmed (b ∷ c ∷ r) = (b == 0xff && top_set c) ≡ false

trim-IsTrimmed : (raw : Bytes) → IsTrimmed (trim raw)
unfolding trim
trim-IsTrimmed [] = tt
trim-IsTrimmed (b ∷ []) = tt
trim-IsTrimmed (b ∷ c ∷ r) =
    if_elim IsTrimmed (b == 0xff && top_set c) _ _ (λ _. trim-IsTrimmed (c ∷ r)) (λ n. n)

module _ (a b : ℕ) (r : Bytes) (hb : IsByte b) (hr : All IsByte r) where
  -- A number that takes the place of the sign.
  extended-le : top_set b ≡ false → Negates a (b ∷ r) → half_values (length r) ≤ a
  extended-le f h =
      omega (arith, h.sum, pow-suc 256 (length r), from_be_small b r hb hr 128 (small b hb f))

  trimmed-le :
      (c : ℕ)
      → IsByte c
      → (c == 0xff && top_set b) ≡ false
      → Negates a (c ∷ b ∷ r)
      → half_values (length r) ≤ a
  trimmed-le c hc t h = elim (Bool-cases (c == 0xff)) [
    | inl y ↦
        let f : top_set b ≡ false = subst (λ x. (x && top_set b) ≡ false) y t in
        let e : c ≡ 0xff = (==_iff c 0xff).0 y in
        omega (
          arith,
          h.sum,
          ap (λ (x : ℕ). x * 256 ^ suc (length r)) e,
          from_be-cons c (b ∷ r),
          pow-suc 256 (length r),
          pow-suc 256 (suc (length r)),
          from_be_small b r hb hr 128 (small b hb f),
        )
    | inr n ↦ omega (
      arith,
      h.sum,
      one-le-pow (length r) 256,
      pow-suc 256 (length r),
      pow-suc 256 (suc (length r)),
      from_be_small c (b ∷ r) hc (hb, hr) 255 (ground arith),
    )
  ]

negative_lead :
    (a : ℕ) (raw : Bytes)
    → Negates a raw
    → All IsByte raw
    → IsTrimmed raw
    → Needs (negsuc a) (keep_negative raw)
unfolding keep_negative
negative_lead a [] h x t = tt
negative_lead a (b ∷ []) h x t =
    if_elim (Needs (negsuc a)) (top_set b) _ _ (λ _. tt)
      (λ s f. absurd (omega (arith, extended-le a b [] x.0 tt s h)))
negative_lead a (b ∷ c ∷ r) h x t =
    if_elim (Needs (negsuc a)) (top_set b) _ _
      (λ _ f. absurd (omega (arith, trimmed-le a c r x.1.0 x.1.1 b x.0 t h)))
      (λ s f. absurd (omega (arith, extended-le a b (c ∷ r) x.0 x.1 s h)))

twos_complement_bytes-Needs : (v : ℤ) → Needs v (twos_complement_bytes (some v))
unfolding twos_complement_bytes
twos_complement_bytes-Needs (pos n) =
    positive_lead n (magnitude n) (from_be-magnitude n) (magnitude-IsByte n) (magnitude_lead n)
twos_complement_bytes-Needs (negsuc a) =
    let m = magnitude (2 ^ ((bit_len (suc a) + 8) / 8 * 8) - suc a) in
    negative_lead a (trim m) (trimmed-Negates a) (trim-IsByte m (magnitude-IsByte _))
      (trim-IsTrimmed m)

Needs-length :
    (v : ℤ) (k : ℕ) (out : Bytes) → Fits (half_values k) v → Needs v out → length out ≤ suc k
Needs-length v k [] f n = omega arith
Needs-length v k (b ∷ []) f n = omega arith
Needs-length v k (b ∷ c ∷ r) f n = elim (Bool-cases (ltb (length r) k)) [
  | inl l ↦ omega (arith, ltb→lt (length r) k l)
  | inr g ↦
      let wider : 256 ^ k ≤ 256 ^ length r =
        pow-le-pow_right (omega arith) (ltb_false→le (length r) k g) in
      absurd (n (Fits-mono (half_values k) (half_values (length r)) v (omega arith) f))
]

-- twosComplementBytes writes no byte too many: any bytes that the reader decodes to the same unscaled
-- number, one at least, are at least as many.
pub length-twos_complement_bytes-le :
    (b : ℕ) (raw : Bytes)
    → All IsByte (b ∷ raw)
    → length (twos_complement_bytes (some (decode_unscaled (b ∷ raw)))) ≤ length (b ∷ raw)
length-twos_complement_bytes-le b raw h =
    let v = decode_unscaled (b ∷ raw) in
    Needs-length v (length raw) (twos_complement_bytes (some v)) (decode-Fits b raw h.0 h.1)
      (twos_complement_bytes-Needs v)
