-- ===== src/Base/Int.antt =====
-- Go's signed integers over the native numbers, and two's complement at a modulus `m`.
use Prim.Native.Nat.{ℕ, ◌+◌, ◌-◌, ◌%◌, ◌≤◌, ◌<◌}
use mathlib.Core.Path.{◌≡◌}
use mathlib.Core.Bool.{Bool, true}
use native.Mathlib.Omega.{arith}
use ignite3_go_client.Base.Tests.{ltb, leb, if◌then◌else◌}

-- `negsuc n` is -(n + 1).
pub data ℤ : Type 0 where
  pos : ℕ → ℤ
  negsuc : ℕ → ℤ

-- `lo ≤ z ≤ hi` for the bounds -(h) and h - 1 of a signed type with `h` values on each side.
abbrev pub fits : ℕ → ℤ → Bool
fits h (pos n) = ltb n h
fits h (negsuc n) = ltb n h

abbrev pub Fits : ℕ → ℤ → Type 0
Fits h (pos n) = n < h
Fits h (negsuc n) = n < h

-- The bit pattern of the low bits: z mod m.
abbrev pub wrap : ℕ → ℤ → ℕ
wrap m (pos n) = n % m
wrap m (negsuc n) = m - 1 - n % m

-- The signed integer that a pattern below 2 h stands for.
abbrev pub signed : ℕ → ℕ → ℤ
signed h x = if ltb x h then pos x else negsuc (h + h - 1 - x)

pub Fits-fits : (h : ℕ) (z : ℤ) → fits h z ≡ true → Fits h z
Fits-fits h (pos n) e = ground arith
Fits-fits h (negsuc n) e = ground arith

pub fits-Fits : (h : ℕ) (z : ℤ) → Fits h z → fits h z ≡ true
fits-Fits h (pos n) e = ground arith
fits-Fits h (negsuc n) e = ground arith

pub Fits-mono : (h k : ℕ) (z : ℤ) → h ≤ k → Fits h z → Fits k z
Fits-mono h k (pos n) le e = omega arith
Fits-mono h k (negsuc n) le e = omega arith

-- a - b, as an integer.
abbrev pub sub_ℕ : ℕ → ℕ → ℤ
sub_ℕ a b = if leb b a then pos (a - b) else negsuc (b - a - 1)
