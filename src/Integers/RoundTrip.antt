-- ===== src/Integers/RoundTrip.antt =====
-- The reader's integer decoder inverts both integer encoders.
use ignite3_go_client.Base.{
  ℕ, ◌+◌, ◌*◌, ◌/◌, ◌%◌, ◌^◌, ◌<◌, ◌≤◌, [], ◌∷◌, ◌++◌, Bytes, IsByte, All, length, ◌≡◌, refl, ap,
  ◌∙◌, arith, bit_and, bit_or, true, ltb, ◌==◌, ==_iff, if◌then◌else◌, each_below, each_below_sound,
}
use mathlib.Core.List.{reverse, reverse-append}
use ignite3_go_client.Base.Int.{ℤ, pos, negsuc, Fits, wrap, signed}
use ignite3_go_client.Base.Result.{ok}
use ignite3_go_client.Base.Bits.{bit_or-shifted}
use ignite3_go_client.Wire.{le_bytes, from_le}
use ignite3_go_client.Wire.Laws.{le_bytes-IsByte, length-le_bytes, from_le-le_bytes, from_le-lt}
use ignite3_go_client.Integers.{shift_in, sign_extend, decode_big_endian}

shift_in-append : (v : ℕ) (xs ys : Bytes) → shift_in v (xs ++ ys) ≡ shift_in (shift_in v xs) ys
unfolding shift_in
shift_in-append v [] ys = refl
shift_in-append v (x ∷ xs) ys = shift_in-append (bit_or x (v * 256 % 2 ^ 64)) xs ys

shift_one : (v b : ℕ) → v < 2 ^ 56 → b < 256 → bit_or b (v * 256 % 2 ^ 64) ≡ b + 256 * v
shift_one v b hv hb =
    let e : v * 256 % 2 ^ 64 ≡ v * 2 ^ 8 = omega arith in
    rw e (bit_or-shifted 8 b v hb ∙ omega arith)

reverse_cons : (b : ℕ) (bs : Bytes) → reverse (b ∷ bs) ≡ reverse bs ++ b ∷ []
reverse_cons b bs = reverse-append (b ∷ []) bs

-- The loop over the reversed bytes computes the little-endian number.
shift_in-reverse :
    (bs : Bytes) → All IsByte bs → length bs ≤ 8 → shift_in 0 (reverse bs) ≡ from_le bs
unfolding from_le
shift_in-reverse [] h l = unfold shift_in in refl
shift_in-reverse (b ∷ bs) h l =
    ap (shift_in 0) (reverse_cons b bs)
    ∙ shift_in-append 0 (reverse bs) (b ∷ [])
    ∙ ap (λ v. shift_in v (b ∷ [])) (shift_in-reverse bs h.1 (omega arith))
    ∙ unfold shift_in in shift_one (from_le bs) b (from_le-lt 7 bs h.1 (omega arith)) h.0

sign_table : each_below (λ t. bit_and t 0x80 == (if ltb t 128 then 0 else 128)) 256 ≡ true
unfolding each_below
sign_table = refl

pub sign_bit : (t : ℕ) → t < 256 → bit_and t 0x80 ≡ (if ltb t 128 then 0 else 128)
sign_bit t h =
    (==_iff _ _).0
      (each_below_sound (λ t. bit_and t 0x80 == (if ltb t 128 then 0 else 128)) 256 t sign_table h)

-- Each width: the sign of the first byte is extended to 64 bits.
shifted_in : (k x : ℕ) → k ≤ 8 → x < 256 ^ k → shift_in 0 (reverse (le_bytes k x)) ≡ x
shifted_in k x l h =
    shift_in-reverse (le_bytes k x) (le_bytes-IsByte k x) (omega (arith, length-le_bytes k x))
    ∙ from_le-le_bytes k x h

decode_width1 :
    (x : ℕ) → x < 2 ^ 8 → decode_big_endian (reverse (le_bytes 1 x)) ≡ ok (signed (2 ^ 7) x)
unfolding le_bytes decode_big_endian sign_extend
decode_width1 x h = ground (arith, shifted_in 1 x (omega arith) h, sign_bit (x % 256))

decode_width2 :
    (x : ℕ) → x < 2 ^ 16 → decode_big_endian (reverse (le_bytes 2 x)) ≡ ok (signed (2 ^ 15) x)
unfolding le_bytes decode_big_endian sign_extend
decode_width2 x h = ground (arith, shifted_in 2 x (omega arith) h, sign_bit (x / 256 % 256))

decode_width4 :
    (x : ℕ) → x < 2 ^ 32 → decode_big_endian (reverse (le_bytes 4 x)) ≡ ok (signed (2 ^ 31) x)
unfolding le_bytes decode_big_endian sign_extend
decode_width4 x h =
    ground (arith, shifted_in 4 x (omega arith) h, sign_bit (x / 256 / 256 / 256 % 256))

decode_width8 :
    (x : ℕ) → x < 2 ^ 64 → decode_big_endian (reverse (le_bytes 8 x)) ≡ ok (signed (2 ^ 63) x)
unfolding le_bytes decode_big_endian sign_extend
decode_width8 x h = ground (
  arith,
  shifted_in 8 x (omega arith) h,
  sign_bit (x / 256 / 256 / 256 / 256 / 256 / 256 / 256 % 256),
)

pub signed-wrap8 : (z : ℤ) → Fits (2 ^ 7) z → signed (2 ^ 7) (wrap (2 ^ 8) z) ≡ z
signed-wrap8 (pos n) h = ground arith
signed-wrap8 (negsuc n) h = ground arith

pub signed-wrap16 : (z : ℤ) → Fits (2 ^ 15) z → signed (2 ^ 15) (wrap (2 ^ 16) z) ≡ z
signed-wrap16 (pos n) h = ground arith
signed-wrap16 (negsuc n) h = ground arith

pub signed-wrap32 : (z : ℤ) → Fits (2 ^ 31) z → signed (2 ^ 31) (wrap (2 ^ 32) z) ≡ z
signed-wrap32 (pos n) h = ground arith
signed-wrap32 (negsuc n) h = ground arith

pub signed-wrap64 : (z : ℤ) → Fits (2 ^ 63) z → signed (2 ^ 63) (wrap (2 ^ 64) z) ≡ z
signed-wrap64 (pos n) h = ground arith
signed-wrap64 (negsuc n) h = ground arith

pub wrap-lt : (m : ℕ) (z : ℤ) → 0 < m → wrap m z < m
wrap-lt m (pos n) h = omega arith
wrap-lt m (negsuc n) h = omega arith

le_bytes_one : (x : ℕ) → x < 256 → le_bytes 1 x ≡ x ∷ []
unfolding le_bytes
le_bytes_one x h = ground arith

pub decoded8 : (z : ℤ) → Fits (2 ^ 7) z → decode_big_endian (wrap (2 ^ 8) z ∷ []) ≡ ok z
decoded8 z h =
    rw (le_bytes_one _ (wrap-lt (2 ^ 8) z (omega arith))) at
      (decode_width1 (wrap (2 ^ 8) z) (wrap-lt _ z (omega arith)) ∙ ap ok (signed-wrap8 z h))

pub decoded16 :
    (z : ℤ) → Fits (2 ^ 15) z → decode_big_endian (reverse (le_bytes 2 (wrap (2 ^ 16) z))) ≡ ok z
decoded16 z h =
    decode_width2 (wrap (2 ^ 16) z) (wrap-lt _ z (omega arith)) ∙ ap ok (signed-wrap16 z h)

pub decoded32 :
    (z : ℤ) → Fits (2 ^ 31) z → decode_big_endian (reverse (le_bytes 4 (wrap (2 ^ 32) z))) ≡ ok z
decoded32 z h =
    decode_width4 (wrap (2 ^ 32) z) (wrap-lt _ z (omega arith)) ∙ ap ok (signed-wrap32 z h)

pub decoded64 :
    (z : ℤ) → Fits (2 ^ 63) z → decode_big_endian (reverse (le_bytes 8 (wrap (2 ^ 64) z))) ≡ ok z
decoded64 z h =
    decode_width8 (wrap (2 ^ 64) z) (wrap-lt _ z (omega arith)) ∙ ap ok (signed-wrap64 z h)
