-- ===== src/Decimals/Magnitude.antt =====
-- big-endian magnitudes: value, length and leading byte; the bit length of a number.
use ignite3_go_client.Base.{
  ℕ, zero, suc, ◌+◌, ◌*◌, ◌/◌, ◌%◌, ◌^◌, ◌≤◌, ◌<◌, [], ◌∷◌, Bytes, All, IsByte, length, ◌≡◌, refl,
  ap, ◌∙◌, arith, if_elim, ◌==◌,
}
use Prim.Native.Nat.{max}
use native.Mathlib.Numerals.{towards_suc}
use native.Mathlib.Nat.{pow-suc, one-le-pow}
use ignite3_go_client.Wire.{from_be}
use ignite3_go_client.Decimals.{magnitude_loop, magnitude, bit_len_loop, bit_len}

from_be-magnitude_loop :
    (f n : ℕ) (acc : Bytes) → n ≤ f → from_be 0 (magnitude_loop f n acc) ≡ from_be n acc
unfolding magnitude_loop
from_be-magnitude_loop zero zero acc h = refl
from_be-magnitude_loop zero (suc n) acc h = absurd (omega arith)
from_be-magnitude_loop (suc f) n acc h =
    if_elim (λ bs. from_be 0 bs ≡ from_be n acc) (n == 0) _ _
      (λ z. ap (λ m. from_be m acc) (ground arith))
      λ p.
        from_be-magnitude_loop f (n / 256) ((n % 256) ∷ acc) (ground arith)
        ∙ unfold from_be in ap (λ m. from_be m acc) (omega arith)

pub from_be-magnitude : (n : ℕ) → from_be 0 (magnitude n) ≡ n
unfolding magnitude
from_be-magnitude n = from_be-magnitude_loop n n [] (omega arith) ∙ unfold from_be in refl

magnitude_loop-IsByte :
    (f n : ℕ) (acc : Bytes) → All IsByte acc → All IsByte (magnitude_loop f n acc)
unfolding magnitude_loop
magnitude_loop-IsByte zero n acc h = h
magnitude_loop-IsByte (suc f) n acc h =
    if_elim (All IsByte) (n == 0) _ _ (λ _. h)
      (λ _. magnitude_loop-IsByte f (n / 256) ((n % 256) ∷ acc) (omega arith, h))

pub magnitude-IsByte : (n : ℕ) → All IsByte (magnitude n)
unfolding magnitude
magnitude-IsByte n = magnitude_loop-IsByte n n [] tt

magnitude_loop-zero : (f : ℕ) (acc : Bytes) → magnitude_loop f 0 acc ≡ acc
unfolding magnitude_loop
magnitude_loop-zero zero acc = refl
magnitude_loop-zero (suc f) acc = refl

small_rest : (f n : ℕ) (acc : Bytes) → n < 256 → magnitude_loop f (n / 256) acc ≡ acc
small_rest f n acc h = let e : n / 256 ≡ 0 = omega arith in rw e (magnitude_loop-zero f acc)

length-magnitude_loop :
    (k f n : ℕ) (acc : Bytes)
    → n ≤ f
    → 256 ^ k ≤ n
    → n < 256 ^ suc k
    → length (magnitude_loop f n acc) ≡ suc k + length acc
unfolding magnitude_loop
length-magnitude_loop k zero n acc h lo hi = absurd (omega (arith, one-le-pow k 256))
length-magnitude_loop zero (suc f) n acc h lo hi =
    ground (arith, ap length (small_rest f n ((n % 256) ∷ acc) hi))
length-magnitude_loop (suc k) (suc f) n acc h lo hi = ground (
  arith,
  pow-suc 256 k,
  pow-suc 256 (suc k),
  one-le-pow k 256,
  length-magnitude_loop k f (n / 256) ((n % 256) ∷ acc),
)

-- The number of bytes of a magnitude.
pub length-magnitude : (k n : ℕ) → 256 ^ k ≤ n → n < 256 ^ suc k → length (magnitude n) ≡ suc k
unfolding magnitude
length-magnitude k n lo hi = length-magnitude_loop k n n [] (omega arith) lo hi ∙ omega arith

length-magnitude_loop-le :
    (k f n : ℕ) (acc : Bytes) → n < 256 ^ k → length (magnitude_loop f n acc) ≤ k + length acc
unfolding magnitude_loop
length-magnitude_loop-le k zero n acc h = omega arith
length-magnitude_loop-le zero (suc f) n acc h = ground arith
length-magnitude_loop-le (suc k) (suc f) n acc h =
    ground (arith, pow-suc 256 k, length-magnitude_loop-le k f (n / 256) ((n % 256) ∷ acc))

pub length-magnitude-le : (k n : ℕ) → n < 256 ^ k → length (magnitude n) ≤ k
unfolding magnitude
length-magnitude-le k n h = omega (arith, length-magnitude_loop-le k n n [] h)

pub from_be-step : (acc b : ℕ) (r : Bytes) → from_be acc (b ∷ r) ≡ from_be (acc * 256 + b) r
unfolding from_be
from_be-step acc b r = refl

from_be-zero : (b : ℕ) (r : Bytes) → from_be 0 (b ∷ r) ≡ from_be b r
from_be-zero b r = from_be-step 0 b r ∙ ap (λ a. from_be a r) (omega arith)

from_be_head : (acc : ℕ) (r : Bytes) → from_be acc r ≡ acc * 256 ^ length r + from_be 0 r
from_be_head acc [] = unfold from_be in omega arith
from_be_head acc (b ∷ r) = omega (
  arith,
  from_be-step acc b r,
  from_be-zero b r,
  from_be_head (acc * 256 + b) r,
  from_be_head b r,
  ap (λ (t : ℕ). acc * t) (pow-suc 256 (length r)),
)

pub from_be-cons : (b : ℕ) (r : Bytes) → from_be 0 (b ∷ r) ≡ b * 256 ^ length r + from_be 0 r
from_be-cons b r = from_be-zero b r ∙ from_be_head b r

scaled : (b x y : ℕ) → b < 256 → y < x → b * x + y < x * 256
scaled b x y h k = grind arith

from_be-lt_cons :
    (b : ℕ) (r : Bytes)
    → b < 256
    → from_be 0 r < 256 ^ length r
    → from_be 0 (b ∷ r) < 256 ^ suc (length r)
from_be-lt_cons b r h k =
    omega
      (arith, from_be-cons b r, pow-suc 256 (length r), scaled b (256 ^ length r) (from_be 0 r) h k)

pub from_be-lt : (r : Bytes) → All IsByte r → from_be 0 r < 256 ^ length r
from_be-lt [] h = unfold from_be in omega arith
from_be-lt (b ∷ r) h = from_be-lt_cons b r h.0 (from_be-lt r h.1)

bit_len_loop_bounds :
    (f n : ℕ) → n ≤ f → (n < 2 ^ bit_len_loop f n) × (2 ^ bit_len_loop f n ≤ max 1 (2 * n))
unfolding bit_len_loop
bit_len_loop_bounds zero n h = omega arith
bit_len_loop_bounds (suc f) n h =
    ground (arith, bit_len_loop_bounds f (n / 2), pow-suc 2 (bit_len_loop f (n / 2)))

pub bit_len_bounds : (n : ℕ) → (n < 2 ^ bit_len n) × (2 ^ bit_len n ≤ max 1 (2 * n))
unfolding bit_len
bit_len_bounds n = bit_len_loop_bounds n n (omega arith)

pub two_pow_eight : (k : ℕ) → 2 ^ (8 * k) ≡ 256 ^ k
two_pow_eight zero = refl
two_pow_eight (suc k) =
    let e : 8 * suc k ≡ 8 * k + 8 = omega arith in
    rw e (simp towards_suc (omega (arith, two_pow_eight k, pow-suc 256 k)))
