-- ===== src/Decimals.antt =====
-- DECIMAL elements: twosComplementBytes of binary/v1/binary-tuple.go, encodeDecimalUnscaled and the
-- DECIMAL case of GetValue of binary/v1/tuple.go, with the operations of math/big that they call.
pub mod Magnitude
pub mod RoundTrip
pub mod Shortest
pub mod Text
pub mod Arguments
use ignite3_go_client.Base.{
  ℕ, zero, suc, ◌+◌, ◌-◌, ◌*◌, ◌/◌, ◌%◌, ◌^◌, bit_and, [], ◌∷◌, ◌++◌, Bytes, Bool, ◌&&◌, not, leb,
  ltb, ◌==◌, length, Option, none, some, if◌then◌else◌,
}
use ignite3_go_client.Base.Int.{ℤ, pos, negsuc, sub_ℕ}
use ignite3_go_client.Base.Result.{Result, ok, panic}
use ignite3_go_client.Wire.{from_be}

-- (*big.Int).Bytes of a magnitude: big-endian, with no leading zero. `n` rounds are enough.
magnitude_loop : ℕ → ℕ → Bytes → Bytes
magnitude_loop zero n acc = acc
magnitude_loop (suc fuel) n acc =
    let more = magnitude_loop fuel (n / 256) ((n % 256) ∷ acc) in if n == 0 then acc else more

unfoldable pub magnitude : ℕ → Bytes
unfolding magnitude_loop
magnitude n = magnitude_loop n n []

-- (*big.Int).BitLen
bit_len_loop : ℕ → ℕ → ℕ
bit_len_loop zero n = 0
bit_len_loop (suc fuel) n = let more = suc (bit_len_loop fuel (n / 2)) in if n == 0 then 0 else more

unfoldable pub bit_len : ℕ → ℕ
unfolding bit_len_loop
bit_len n = bit_len_loop n n

-- `b[0]&0x80 != 0`
abbrev pub top_set : ℕ → Bool
top_set b = not (bit_and b 0x80 == 0)

-- `for len(b) > 1 && b[0] == 0xff && b[1]&0x80 != 0 { b = b[1:] }`
pub trim : Bytes → Bytes
trim [] = []
trim (b ∷ []) = b ∷ []
trim (b ∷ c ∷ r) = let rest = trim (c ∷ r) in if b == 0xff && top_set c then rest else b ∷ c ∷ r

-- `if len(b) == 0 || b[0]&0x80 == 0 { b = append([]byte{0xff}, b...) }`
pub keep_negative : Bytes → Bytes
keep_negative [] = 0xff ∷ []
keep_negative (b ∷ r) = if top_set b then b ∷ r else 0xff ∷ b ∷ r

pub keep_positive : Bytes → Bytes
keep_positive [] = 0 ∷ []
keep_positive (b ∷ r) = if top_set b then 0 ∷ b ∷ r else b ∷ r

unfoldable pub twos_complement_bytes : Option ℤ → Bytes
unfolding trim keep_negative keep_positive
twos_complement_bytes none = 0 ∷ []
twos_complement_bytes (some (pos n)) = keep_positive (magnitude n)
twos_complement_bytes (some (negsuc n)) =
    let len = (bit_len (suc n) + 8) / 8 in keep_negative (trim (magnitude (2 ^ (len * 8) - suc n)))

-- The same task in the path of SQL arguments. A nil pointer panics in `n.Sign()`.
unfoldable pub encode_decimal_unscaled : Option ℤ → Result Bytes
unfolding keep_negative keep_positive
encode_decimal_unscaled none = panic
encode_decimal_unscaled (some (pos n)) = ok (keep_positive (magnitude n))
encode_decimal_unscaled (some (negsuc n)) =
    let bits = (bit_len (suc n) + 7) / 8 in
    let bits' = if bits == 0 then 1 else bits in
    ok (keep_negative (magnitude (2 ^ (8 * bits') - suc n)))

-- The unscaled number of a DECIMAL payload, after the two bytes of the scale.
unfoldable pub decode_unscaled : Bytes → ℤ
decode_unscaled [] = pos 0
decode_unscaled (b ∷ r) =
    let n = from_be 0 (b ∷ r) in if top_set b then sub_ℕ n (2 ^ (8 * length (b ∷ r))) else pos n
