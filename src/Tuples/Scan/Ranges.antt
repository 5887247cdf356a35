-- ===== src/Tuples/Scan/Ranges.antt =====
-- A BIGINT of GetValue is an int64, which decodeBigEndianTwosComplement gives of 8 bytes at most.
use ignite3_go_client.Base.{
  ℕ, zero, suc, ◌+◌, ◌*◌, ◌-◌, ◌%◌, ◌<◌, ◌^◌, List, [], ◌∷◌, Bytes, bit_and, bit_or, IsByte, All,
  ltb, ◌==◌, length, get_elem?, ◌≡◌, subst, arith, if_elim,
}
use ignite3_go_client.Base.Bits.{bit_or-shifted}
use ignite3_go_client.Base.Int.{ℤ, pos, negsuc, Fits, signed}
use ignite3_go_client.Base.Result.{Result, ok, err, panic, ◌>>=◌}
use ignite3_go_client.Integers.{shift_in, sign_extend, decode_big_endian}
use ignite3_go_client.Tuples.{TypeScaleValue}
use ignite3_go_client.Tuples.Scan.{
  Scanned, int64, scan, scan_payload, scan_elem, get_value, tuple_length,
}
use ignite3_go_client.Tuples.Scan.Types.{Gives, HasType, get_value-HasType}
use ignite3_go_client.ColumnTypes.{TypeId, type_bigint}

shifted-lt : (v b : ℕ) → b < 256 → bit_or b (v * 256 % 2 ^ 64) < 2 ^ 64
shifted-lt v b h =
    let split : v * 256 % 2 ^ 64 ≡ v % 2 ^ 56 * 2 ^ 8 = omega arith in
    rw split (rw (bit_or-shifted 8 b (v % 2 ^ 56) h) (omega arith))

shift_in-lt : (v : ℕ) (bs : Bytes) → v < 2 ^ 64 → All IsByte bs → shift_in v bs < 2 ^ 64
unfolding shift_in
shift_in-lt v [] small h = small
shift_in-lt v (b ∷ bs) small (h, hs) =
    shift_in-lt (bit_or b (v * 256 % 2 ^ 64)) bs (shifted-lt v b h) hs

sign_extend-lt : (first len v : ℕ) → v < 2 ^ 64 → sign_extend first len v < 2 ^ 64
unfolding sign_extend
sign_extend-lt first len v h =
    if_elim (λ x. x < 2 ^ 64) (bit_and first 0x80 == 0) v
      ((v + 2 ^ 64 - 2 ^ (8 * len) % 2 ^ 64) % 2 ^ 64) (λ _. h) (λ _. omega arith)

signed-Fits : (x : ℕ) → x < 2 ^ 64 → Fits (2 ^ 63) (signed (2 ^ 63) x)
signed-Fits x h =
    if_elim (Fits (2 ^ 63)) (ltb x (2 ^ 63)) (pos x) (negsuc (2 ^ 63 + 2 ^ 63 - 1 - x))
      (λ e. ground arith) (λ e. ground arith)

decode_big_endian-Fits : (bs : Bytes) → All IsByte bs → Gives (Fits (2 ^ 63)) (decode_big_endian bs)
unfolding decode_big_endian
decode_big_endian-Fits [] h = omega arith
decode_big_endian-Fits (b ∷ bs) h =
    if_elim (Gives (Fits (2 ^ 63))) (ltb 8 (length (b ∷ bs))) _ _ (λ _. tt)
      (λ _. signed-Fits (sign_extend b (length (b ∷ bs)) (shift_in 0 (b ∷ bs))) (
        sign_extend-lt b (length (b ∷ bs)) (shift_in 0 (b ∷ bs))
          (shift_in-lt 0 (b ∷ bs) (omega arith) h)))

-- The payload of a column
abbrev pub HasBytes : TypeScaleValue → Type 0
HasBytes e = All IsByte e.value

abbrev InRange : Scanned → Type 0
InRange (int64 z) = Fits (2 ^ 63) z
InRange s = Unit

decoded-InRange : (r : Result ℤ) → Gives (Fits (2 ^ 63)) r → Gives InRange (do z ← r; ok (int64 z))
decoded-InRange (ok z) h = h
decoded-InRange (err e) h = tt
decoded-InRange panic h = tt

elem-InRange :
    (values : List TypeScaleValue) (i : ℕ)
    → All HasBytes values
    → Gives InRange (scan_elem type_bigint (get_elem? values i))
unfolding scan_elem scan scan_payload
elem-InRange [] i h = tt
elem-InRange (e ∷ values) zero (h, hs) = payload e.precision e.value h
  where
    payload :
        (precision : ℤ) (raw : Bytes)
        → All IsByte raw
        → Gives InRange (scan type_bigint precision raw)
    payload precision [] b = tt
    payload precision (c ∷ raw) b =
        decoded-InRange (decode_big_endian (c ∷ raw)) (decode_big_endian-Fits (c ∷ raw) b)
elem-InRange (e ∷ values) (suc i) (h, hs) = elem-InRange values i hs

bigint-InRange :
    (values : List TypeScaleValue) (i : ℤ)
    → All HasBytes values
    → Gives InRange (get_value values i type_bigint)
unfolding get_value
bigint-InRange values (pos i) h =
    if_elim (Gives InRange) (ltb (tuple_length values) i) _ _ (λ _. tt)
      (λ _. elem-InRange values i h)
bigint-InRange values (negsuc i) h = tt

-- The Go types of HasType, with the range of an int64, too.
abbrev pub HasGoType : Scanned → TypeId → Type 0
HasGoType (int64 z) type_bigint = Fits (2 ^ 63) z
HasGoType s t = HasType s t

-- Whatever index and type GetValue is called with on payloads of bytes, a value that it returns is nil or of
-- a Go type of that SQL type: an int8, int16, int32 or int64 is in its range, and a DOUBLE is a float32 or a
-- float64.
pub get_value-HasGoType :
    (values : List TypeScaleValue) (i : ℤ) (t : TypeId) (v : Scanned)
    → All HasBytes values
    → get_value values i t ≡ ok v
    → HasGoType v t
get_value-HasGoType values i t v h e = typed v t e (get_value-HasType values i t v e)
  where
    typed : (v : Scanned) (t : TypeId) → get_value values i t ≡ ok v → HasType v t → HasGoType v t
    typed (int64 z) type_bigint e typ = subst (Gives InRange) e (bigint-InRange values i h)
    typed v t e typ = typ
