-- ===== src/Decimals/Text/Digits.antt =====
-- Decimal digits: what they are read as, and how many there are.
use ignite3_go_client.Base.{
  ℕ, zero, suc, ◌+◌, ◌-◌, ◌*◌, ◌/◌, ◌%◌, ◌^◌, ◌≤◌, ◌<◌, [], ◌∷◌, ◌++◌, Bytes, All, ◌==◌, length,
  if_elim, ◌≡◌, refl, ap, ◌∙◌, arith,
}
use native.Mathlib.Nat.{pow-suc}
use ignite3_go_client.Decimals.Text.{digits_loop, digits, zeros}

abbrev pub IsDigit : ℕ → Type 0
IsDigit c = (b'0' ≤ c) × (c ≤ b'9')

-- The number that digits are read as.
pub read_digits : ℕ → Bytes → ℕ
read_digits acc [] = acc
read_digits acc (c ∷ cs) = read_digits (acc * 10 + (c - b'0')) cs

digits_loop_value :
    (f n : ℕ) (acc : Bytes) → n ≤ f → read_digits 0 (digits_loop f n acc) ≡ read_digits n acc
unfolding digits_loop
digits_loop_value zero zero acc h = refl
digits_loop_value zero (suc n) acc h = absurd (omega arith)
digits_loop_value (suc f) n acc h =
    if_elim (λ cs. read_digits 0 cs ≡ read_digits n acc) (n == 0) _ _
      (λ z. ap (λ m. read_digits m acc) (ground arith))
      λ p.
        digits_loop_value f (n / 10) ((b'0' + n % 10) ∷ acc) (ground arith)
        ∙ unfold read_digits in ap (λ m. read_digits m acc) (omega arith)

digits_loop-IsDigit : (f n : ℕ) (acc : Bytes) → All IsDigit acc → All IsDigit (digits_loop f n acc)
unfolding digits_loop
digits_loop-IsDigit zero n acc h = h
digits_loop-IsDigit (suc f) n acc h =
    if_elim (All IsDigit) (n == 0) _ _ (λ _. h)
      (λ _. digits_loop-IsDigit f (n / 10) ((b'0' + n % 10) ∷ acc) (omega arith, h))

length-digits_loop-le :
    (k f n : ℕ) (acc : Bytes) → n < 10 ^ k → length (digits_loop f n acc) ≤ k + length acc
unfolding digits_loop
length-digits_loop-le k zero n acc h = omega arith
length-digits_loop-le zero (suc f) n acc h = ground arith
length-digits_loop-le (suc k) (suc f) n acc h =
    ground (arith, pow-suc 10 k, length-digits_loop-le k f (n / 10) ((b'0' + n % 10) ∷ acc))

length-digits_loop-ge : (f n : ℕ) (acc : Bytes) → length acc ≤ length (digits_loop f n acc)
unfolding digits_loop
length-digits_loop-ge zero n acc = omega arith
length-digits_loop-ge (suc f) n acc =
    ground (arith, length-digits_loop-ge f (n / 10) ((b'0' + n % 10) ∷ acc))

pub digits_value : (n : ℕ) → read_digits 0 (digits n) ≡ n
unfolding digits
digits_value zero = unfold read_digits in refl
digits_value (suc n) =
    digits_loop_value (suc n) (suc n) [] (omega arith) ∙ unfold read_digits in refl

pub digits-IsDigit : (n : ℕ) → All IsDigit (digits n)
unfolding digits
digits-IsDigit zero = omega arith
digits-IsDigit (suc n) = digits_loop-IsDigit (suc n) (suc n) [] tt

pub length-digits-le : (k n : ℕ) → n < 10 ^ suc k → length (digits n) ≤ suc k
unfolding digits
length-digits-le k zero h = omega arith
length-digits-le k (suc n) h = omega (arith, length-digits_loop-le (suc k) (suc n) (suc n) [] h)

digits_loop_pos : (f n : ℕ) → 1 ≤ length (digits_loop (suc f) (suc n) [])
unfolding digits_loop
digits_loop_pos f n =
    if_elim (λ (cs : Bytes). 1 ≤ length cs) (suc n == 0) _ _ (λ z. absurd (ground arith))
      (λ _. length-digits_loop-ge f (suc n / 10) ((b'0' + suc n % 10) ∷ []))

pub length-digits-pos : (n : ℕ) → 1 ≤ length (digits n)
unfolding digits
length-digits-pos zero = omega arith
length-digits-pos (suc n) = digits_loop_pos n n

pub read_digits_head :
    (acc : ℕ) (cs : Bytes) → read_digits acc cs ≡ acc * 10 ^ length cs + read_digits 0 cs
unfolding read_digits
read_digits_head acc [] = omega arith
read_digits_head acc (c ∷ cs) = omega (
  arith,
  read_digits_head (acc * 10 + (c - b'0')) cs,
  read_digits_head (0 * 10 + (c - b'0')) cs,
  ap (λ (t : ℕ). acc * t) (pow-suc 10 (length cs)),
)

pub read_digits-append :
    (acc : ℕ) (xs ys : Bytes) → read_digits acc (xs ++ ys) ≡ read_digits (read_digits acc xs) ys
unfolding read_digits
read_digits-append acc [] ys = refl
read_digits-append acc (x ∷ xs) ys = read_digits-append (acc * 10 + (x - b'0')) xs ys

-- `k` zeros behind `acc`.
pub read_digits-zeros : (acc k : ℕ) → read_digits acc (zeros k) ≡ acc * 10 ^ k
unfolding read_digits
read_digits-zeros acc zero = omega arith
read_digits-zeros acc (suc k) =
    omega (arith, read_digits-zeros (acc * 10 + 0) k, ap (λ (t : ℕ). acc * t) (pow-suc 10 k))

pub length-zeros : (k : ℕ) → length (zeros k) ≡ k
length-zeros zero = refl
length-zeros (suc k) = ap suc (length-zeros k)

pub zeros-IsDigit : (k : ℕ) → All IsDigit (zeros k)
zeros-IsDigit zero = tt
zeros-IsDigit (suc k) = (omega arith, zeros-IsDigit k)
