-- ===== src/Base/Bits.antt =====
-- `&` with a low mask and `|` of disjoint fields, as arithmetic.
use Prim.Native.Nat.{
  ℕ, zero, suc, ◌+◌, ◌-◌, ◌*◌, ◌/◌, ◌%◌, ◌^◌, ◌≤◌, ◌<◌, min, max, bit_and, bit_or, digits,
}
use Prim.Native.Nat.{bit_and-bitwise, bit_or-bitwise}
use mathlib.Core.Path.{◌≡◌, refl, ap}
use native.Mathlib.Nat.{pow-suc, one-le-pow, le_refl}
use native.Mathlib.Omega.{arith}

-- The digit recursion behind the native operations does not depend on its fuel.
module _ (base : ℕ → ℕ) (op : ℕ → ℕ → ℕ) where
  refuel : (f g x y : ℕ) → x ≤ f → x ≤ g → digits base op f x y ≡ digits base op g x y
  refuel zero zero x y p q = refl
  refuel zero (suc g) zero y p q = refl
  refuel zero (suc g) (suc x) y p q = absurd (omega arith)
  refuel (suc f) zero zero y p q = refl
  refuel (suc f) zero (suc x) y p q = absurd (omega arith)
  refuel (suc f) (suc g) zero y p q = refl
  refuel (suc f) (suc g) (suc x) y p q =
      omega (arith, refuel f g (suc x / 2) (y / 2) (omega arith) (omega arith))

  halve :
      (x y : ℕ)
      → digits base op (suc x) (suc x) y
        ≡ digits base op (suc x / 2) (suc x / 2) (y / 2) * 2 + op (suc x % 2) (y % 2)
  halve x y = omega (arith, refuel x (suc x / 2) (suc x / 2) (y / 2) (omega arith) (le_refl _))

or_halve : (x y : ℕ) → bit_or x y ≡ bit_or (x / 2) (y / 2) * 2 + max (x % 2) (y % 2)
or_halve zero y = simp bit_or-bitwise (omega arith)
or_halve (suc x) y = simp bit_or-bitwise (halve (λ t. t) max x y)

and_halve : (x y : ℕ) → bit_and x y ≡ bit_and (x / 2) (y / 2) * 2 + min (x % 2) (y % 2)
and_halve zero y = simp bit_and-bitwise (omega arith)
and_halve (suc x) y = simp bit_and-bitwise (halve (λ _. 0) min x y)

or_zero : (y : ℕ) → bit_or 0 y ≡ y
or_zero y = bit_or-bitwise 0 y

and_zero_below : (n x : ℕ) → x ≤ n → bit_and x 0 ≡ 0
and_zero_below n zero h = refl
and_zero_below zero (suc x) h = absurd (omega arith)
and_zero_below (suc n) (suc x) h =
    omega (arith, and_halve (suc x) 0, and_zero_below n (suc x / 2) (omega arith))

double_pow : (q k : ℕ) → q * 2 ^ suc k ≡ 2 * (q * 2 ^ k)
double_pow q k = omega (arith, ap (λ (t : ℕ). q * t) (pow-suc 2 k))

-- `r | q << k` is a sum when `r` has at most `k` bits.
pub bit_or-shifted : (k r q : ℕ) → r < 2 ^ k → bit_or r (q * 2 ^ k) ≡ r + q * 2 ^ k
bit_or-shifted zero zero q h = omega (arith, or_zero (q * 1))
bit_or-shifted zero (suc r) q h = absurd (omega arith)
bit_or-shifted (suc k) r q h = ground (
  arith,
  or_halve r (q * 2 ^ suc k),
  double_pow q k,
  pow-suc 2 k,
  bit_or-shifted k (r / 2) q (omega (arith, pow-suc 2 k)),
)

mask_fields : (k q r : ℕ) → r < 2 ^ k → bit_and (q * 2 ^ k + r) (2 ^ k - 1) ≡ r
mask_fields zero q r h = rw (and_zero_below (q * 1 + r) (q * 1 + r) (le_refl _)) (omega arith)
mask_fields (suc k) q r h = ground (
  arith,
  and_halve (q * 2 ^ suc k + r) (2 ^ suc k - 1),
  double_pow q k,
  pow-suc 2 k,
  one-le-pow k 2,
  mask_fields k q (r / 2) (omega (arith, pow-suc 2 k)),
)

-- `x & (1 << k - 1)` is the remainder by `2 ^ k`.
pub bit_and_mask : (k x : ℕ) → bit_and x (2 ^ k - 1) ≡ x % 2 ^ k
bit_and_mask k x = ground (arith, one-le-pow k 2, mask_fields k (x / 2 ^ k) (x % 2 ^ k))
