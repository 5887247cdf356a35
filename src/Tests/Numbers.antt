-- ===== src/Tests/Numbers.antt =====
-- Integers, decimals and UUIDs.
use ignite3_go_client.Base.{[], ◌∷◌, Bytes, some, ◌≡◌, ◌++◌, ◌*◌, ◌^◌, ◌≤◌, length, refl, arith}
use ignite3_go_client.Base.Int.{pos, negsuc}
use ignite3_go_client.Base.Result.{ok, err, Error}
use ignite3_go_client.Integers.Kinds.{bt_int8, bt_int16, bt_int64}
use ignite3_go_client.Integers.{put_int}
use ignite3_go_client.Integers.Elements.{Appends, put_int-Appends, put_int_refuses}
use ignite3_go_client.Decimals.{
  magnitude, bit_len, twos_complement_bytes, encode_decimal_unscaled, decode_unscaled,
}
use ignite3_go_client.Decimals.RoundTrip.{decode-twos_complement_bytes}
use ignite3_go_client.Decimals.Shortest.{length-twos_complement_bytes-le}
use ignite3_go_client.Decimals.Text.{
  digits, int_text, float_string, big_rat, decimal_string, sign_of, magnitude_of, Fraction,
}
use ignite3_go_client.Decimals.Text.Values.{IsDecimalText, point, decimal_string-IsDecimalText}
use ignite3_go_client.Values.{codes}

-- BIGINT is never shorter than two bytes.
put_int_one : put_int [] bt_int64 (pos 1) ≡ ok (1 ∷ 0 ∷ [])
unfolding put_int
put_int_one = refl

complement_of_minus_129 : twos_complement_bytes (some (negsuc 128)) ≡ 0xff ∷ 0x7f ∷ []
unfolding twos_complement_bytes magnitude bit_len
complement_of_minus_129 = refl

-- -65535 as an SQL argument: the bytes of -255.
argument_minus_65535 : encode_decimal_unscaled (some (negsuc 65534)) ≡ ok (0xff ∷ 1 ∷ [])
unfolding encode_decimal_unscaled magnitude bit_len
argument_minus_65535 = refl

put_int-Appends_example : Appends (7 ∷ []) (negsuc 299) (put_int (7 ∷ []) bt_int16 (negsuc 299))
put_int-Appends_example = put_int-Appends (7 ∷ []) bt_int16 (negsuc 299) refl (omega arith)

put_int_refuses_example : (x : Error) × (put_int [] bt_int8 (pos 128) ≡ err x)
put_int_refuses_example = put_int_refuses [] bt_int8 (pos 128) refl (omega arith) (λ h. omega arith)

decode-twos_complement_bytes_example :
    decode_unscaled (twos_complement_bytes (some (negsuc 65534))) ≡ negsuc 65534
decode-twos_complement_bytes_example = decode-twos_complement_bytes (negsuc 65534)

-- -129 with a byte too many.
length-twos_complement_bytes-le_example :
    length (twos_complement_bytes (some (decode_unscaled (0xff ∷ 0xff ∷ 0x7f ∷ [])))) ≤ 3
length-twos_complement_bytes-le_example =
    length-twos_complement_bytes-le 0xff (0xff ∷ 0x7f ∷ []) (omega arith)

-- -0.05
minus_five_hundredths :
    decimal_string (record { unscaled = some (negsuc 4); scale = pos 2 }) ≡ ok (codes "-0.05")
unfolding decimal_string float_string big_rat digits
minus_five_hundredths = refl

twelve_thousand :
    decimal_string (record { unscaled = some (pos 12); scale = negsuc 2 }) ≡ ok (codes "12000")
unfolding decimal_string int_text digits
twelve_thousand = refl

decimal_string-IsDecimalText_example :
    (whole part : Bytes) × (decimal_string (record { unscaled = some (negsuc 4); scale = pos 2 })
      ≡ ok (sign_of (negsuc 4) ++ (whole ++ point part)))
    × IsDecimalText 5 2 whole part
    × (f : Fraction) × (big_rat (record { unscaled = some (negsuc 4); scale = pos 2 }) ≡ ok f)
    × (sign_of f.numerator ≡ sign_of (negsuc 4))
    × (magnitude_of f.numerator * 10 ^ 2 ≡ 5 * f.denominator)
decimal_string-IsDecimalText_example = decimal_string-IsDecimalText (negsuc 4) (pos 2)
