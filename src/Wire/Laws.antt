-- ===== src/Wire/Laws.antt =====
-- Round trips of the byte orders.
use ignite3_go_client.Base.{
  ℕ, zero, suc, ◌+◌, ◌*◌, ◌/◌, ◌%◌, ◌^◌, ◌<◌, ◌≤◌, [], ◌∷◌, ◌++◌, Bytes, IsByte, All, All-append,
  length, length-append, take, drop, take-length-append, drop-length-append, ◌≡◌, refl, ap, sym,
  ◌∙◌, arith,
}
use ignite3_go_client.Wire.{le_bytes, from_le, be_bytes, from_be}
use native.Mathlib.Nat.{pow-suc}

pub le_bytes-IsByte : (k v : ℕ) → All IsByte (le_bytes k v)
unfolding le_bytes
le_bytes-IsByte zero v = tt
le_bytes-IsByte (suc k) v = (omega arith, le_bytes-IsByte k (v / 256))

pub length-le_bytes : (k v : ℕ) → length (le_bytes k v) ≡ k
unfolding le_bytes
length-le_bytes zero v = refl
length-le_bytes (suc k) v = ap suc (length-le_bytes k (v / 256))

pub from_le-le_bytes : (k v : ℕ) → v < 256 ^ k → from_le (le_bytes k v) ≡ v
unfolding le_bytes from_le
from_le-le_bytes zero v h = omega arith
from_le-le_bytes (suc k) v h =
    omega (arith, from_le-le_bytes k (v / 256) (omega (arith, pow-suc 256 k)))

-- Over `k` bytes at most, the number that they stand for is below 256 ^ k.
pub from_le-lt : (k : ℕ) (bs : Bytes) → All IsByte bs → length bs ≤ k → from_le bs < 256 ^ k
unfolding from_le
from_le-lt zero [] h l = omega arith
from_le-lt zero (b ∷ bs) h l = absurd (omega arith)
from_le-lt (suc k) [] h l = omega (arith, from_le-lt k [] h, pow-suc 256 k)
from_le-lt (suc k) (b ∷ bs) h l = omega (arith, from_le-lt k bs h.1 (omega arith), pow-suc 256 k)

pub from_be-append :
    (acc : ℕ) (xs ys : Bytes) → from_be acc (xs ++ ys) ≡ from_be (from_be acc xs) ys
unfolding from_be
from_be-append acc [] ys = refl
from_be-append acc (x ∷ xs) ys = from_be-append (acc * 256 + x) xs ys

pub length-be_bytes : (k v : ℕ) → length (be_bytes k v) ≡ k
unfolding be_bytes
length-be_bytes zero v = refl
length-be_bytes (suc k) v =
    length-append (be_bytes k (v / 256)) _ ∙ omega (arith, length-be_bytes k (v / 256))

pub be_bytes-IsByte : (k v : ℕ) → All IsByte (be_bytes k v)
unfolding be_bytes
be_bytes-IsByte zero v = tt
be_bytes-IsByte (suc k) v =
    All-append IsByte (be_bytes k (v / 256)) _ (be_bytes-IsByte k (v / 256)) (omega arith, tt)

pub from_be-be_bytes : (k v : ℕ) → v < 256 ^ k → from_be 0 (be_bytes k v) ≡ v
unfolding be_bytes
from_be-be_bytes zero v h = unfold from_be in omega arith
from_be-be_bytes (suc k) v h =
    from_be-append 0 (be_bytes k (v / 256)) _
    ∙ rw (from_be-be_bytes k (v / 256) (omega (arith, pow-suc 256 k)))
        (unfold from_be in omega arith)

pub take_prefix : (n : ℕ) (xs ys : Bytes) → length xs ≡ n → take n (xs ++ ys) ≡ xs
take_prefix n xs ys h = ap (λ k. take k (xs ++ ys)) (sym h) ∙ take-length-append xs ys

pub drop_prefix : (n : ℕ) (xs ys : Bytes) → length xs ≡ n → drop n (xs ++ ys) ≡ ys
drop_prefix n xs ys h = ap (λ k. drop k (xs ++ ys)) (sym h) ∙ drop-length-append xs ys

pub le_bytes-from_le : (bs : Bytes) → All IsByte bs → le_bytes (length bs) (from_le bs) ≡ bs
unfolding le_bytes from_le
le_bytes-from_le [] h = refl
le_bytes-from_le (b ∷ bs) (h, hs) =
    let low : (b + 256 * from_le bs) % 256 ≡ b = omega arith in
    let high : (b + 256 * from_le bs) / 256 ≡ from_le bs = omega arith in
    rw (low, high, le_bytes-from_le bs hs) refl
