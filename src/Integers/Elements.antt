-- ===== src/Integers/Elements.antt =====
-- The reader's integer decoder inverts both integer encoders, at every width that they choose.
use ignite3_go_client.Base.{
  ℕ, ◌^◌, ◌<◌, ◌≤◌, [], ◌∷◌, ◌++◌, Bytes, Option, some, none, length, ◌≡◌, refl, ap, ◌∙◌, arith,
  true, false, if_elim,
}
use mathlib.Core.List.{reverse}
use ignite3_go_client.Base.Int.{ℤ, pos, negsuc, Fits, fits, wrap, Fits-fits, fits-Fits}
use ignite3_go_client.Base.Result.{Result, Error, ok, err}
use ignite3_go_client.Wire.{le_bytes, put_uint16, put_uint32, put_uint64}
use ignite3_go_client.Integers.Kinds.{Kind, bt_null, bt_int8, bt_int16, bt_int32, bt_int64}
use ignite3_go_client.Integers.{put_int, encode_int_le, decode_big_endian}
use ignite3_go_client.Integers.RoundTrip.{decoded8, decoded16, decoded32, decoded64}

-- Half the number of values of the SQL type, where the kind is an integer kind.
abbrev pub half_range : Kind → Option ℕ
half_range bt_int8 = some (2 ^ 7)
half_range bt_int16 = some (2 ^ 15)
half_range bt_int32 = some (2 ^ 31)
half_range bt_int64 = some (2 ^ 63)
half_range _ = none

-- `r` has appended to `buf` a payload that the reader decodes to `n`.
abbrev pub Appends : Bytes → ℤ → Result Bytes → Type 0
Appends buf n r =
    (p : Bytes) × (r ≡ ok (buf ++ p))
    × (decode_big_endian (reverse p) ≡ ok n)
    × (1 ≤ length p)
    × (length p ≤ 8)

module _ (buf : Bytes) (n : ℤ) where
  appends8 : fits (2 ^ 7) n ≡ true → Appends buf n (ok (buf ++ wrap (2 ^ 8) n ∷ []))
  appends8 h = (wrap (2 ^ 8) n ∷ [], refl, decoded8 n (Fits-fits _ n h), omega arith, omega arith)

  appends16 : fits (2 ^ 15) n ≡ true → Appends buf n (ok (put_uint16 buf (wrap (2 ^ 16) n)))
  unfolding put_uint16
  appends16 h =
      (le_bytes 2 (wrap (2 ^ 16) n), refl, decoded16 n (Fits-fits _ n h), omega arith, omega arith)

  appends32 : fits (2 ^ 31) n ≡ true → Appends buf n (ok (put_uint32 buf (wrap (2 ^ 32) n)))
  unfolding put_uint32
  appends32 h =
      (le_bytes 4 (wrap (2 ^ 32) n), refl, decoded32 n (Fits-fits _ n h), omega arith, omega arith)

  appends64 : Fits (2 ^ 63) n → Appends buf n (ok (put_uint64 buf (wrap (2 ^ 64) n)))
  unfolding put_uint64
  appends64 h = (le_bytes 8 (wrap (2 ^ 64) n), refl, decoded64 n h, omega arith, omega arith)

pub in_range : (n : ℤ) {k h : ℕ} → Fits k n → some h ≡ some k → Fits h n
in_range (pos n) f e = ground arith
in_range (negsuc n) f e = ground arith

clash : (n : ℤ) {k h : ℕ} → Fits k n → some h ≡ some k → fits h n ≡ false → ⊥
clash n {k} {h} f e x = cc (fits-Fits h n (in_range n f e))

-- The tests up to half-range `h` fail on a number that does not fit `h`.
too_big : (n : ℤ) {k : ℕ} (g h : ℕ) → ¬ Fits k n → some h ≡ some k → g ≤ h → fits g n ≡ false
too_big (pos n) g h f e l = ground arith
too_big (negsuc n) g h f e l = ground arith

low_bytes1 : (v : ℤ) → le_bytes 1 (wrap (2 ^ 64) v) ≡ wrap (2 ^ 8) v ∷ []
unfolding le_bytes
low_bytes1 (pos n) = ground arith
low_bytes1 (negsuc n) = ground arith

low_bytes2 : (v : ℤ) → le_bytes 2 (wrap (2 ^ 64) v) ≡ le_bytes 2 (wrap (2 ^ 16) v)
unfolding le_bytes
low_bytes2 (pos n) = ground arith
low_bytes2 (negsuc n) = ground arith

low_bytes4 : (v : ℤ) → le_bytes 4 (wrap (2 ^ 64) v) ≡ le_bytes 4 (wrap (2 ^ 32) v)
unfolding le_bytes
low_bytes4 (pos n) = ground arith
low_bytes4 (negsuc n) = ground arith

-- On a number in the range of its SQL type the encoder appends 1 to 8 bytes, and the reader, which
-- decodes the reversed payload, gets the number back.
pub put_int-Appends :
    (buf : Bytes) (kind : Kind) (n : ℤ) {h : ℕ}
    → half_range kind ≡ some h
    → Fits h n
    → Appends buf n (put_int buf kind n)
unfolding put_int
put_int-Appends buf bt_int8 n e f =
    if_elim (Appends buf n) (fits (2 ^ 7) n) _ _ (appends8 buf n) (λ x. absurd (clash n f e x))
put_int-Appends buf bt_int16 n e f =
    if_elim (Appends buf n) (fits (2 ^ 7) n) _ _ (appends8 buf n) λ _.
      if_elim (Appends buf n) (fits (2 ^ 15) n) _ _ (appends16 buf n) (λ x. absurd (clash n f e x))
put_int-Appends buf bt_int32 n e f =
    if_elim (Appends buf n) (fits (2 ^ 7) n) _ _ (appends8 buf n) λ _.
      if_elim (Appends buf n) (fits (2 ^ 15) n) _ _ (appends16 buf n) λ _.
        if_elim (Appends buf n) (fits (2 ^ 31) n) _ _ (appends32 buf n)
          (λ x. absurd (clash n f e x))
put_int-Appends buf bt_int64 n e f =
    if_elim (Appends buf n) (fits (2 ^ 15) n) _ _ (appends16 buf n) λ _.
      if_elim (Appends buf n) (fits (2 ^ 31) n) _ _ (appends32 buf n)
        (λ _. appends64 buf n (in_range n f e))
put_int-Appends buf bt_null n e f = cc
put_int-Appends buf _ n e f = cc

-- A number out of the range of a TINYINT, SMALLINT or INT column is refused with an error.
pub put_int_refuses :
    (buf : Bytes) (kind : Kind) (n : ℤ) {h : ℕ}
    → half_range kind ≡ some h
    → h < 2 ^ 63
    → ¬ Fits h n
    → (x : Error) × (put_int buf kind n ≡ err x)
unfolding put_int
put_int_refuses buf bt_int8 n e l f = rw (too_big n (2 ^ 7) (2 ^ 7) f e (omega arith)) (_, refl)
put_int_refuses buf bt_int16 n e l f =
    rw (too_big n (2 ^ 7) (2 ^ 15) f e (omega arith), too_big n (2 ^ 15) (2 ^ 15) f e (omega arith))
      (_, refl)
put_int_refuses buf bt_int32 n e l f =
    rw
      (
        too_big n (2 ^ 7) (2 ^ 31) f e (omega arith),
        too_big n (2 ^ 15) (2 ^ 31) f e (omega arith),
        too_big n (2 ^ 31) (2 ^ 31) f e (omega arith),
      )
      (_, refl)
put_int_refuses buf bt_int64 n e l f = absurd (ground arith)
put_int_refuses buf bt_null n e l f = cc
put_int_refuses buf _ n e l f = cc

abbrev read : Bytes → Result ℤ
read p = decode_big_endian (reverse p)

abbrev Decodes : ℤ → Bytes → Type 0
Decodes v p = read p ≡ ok v

-- Every int64 is read back from what encodeIntLe, the encoder of SQL arguments, makes of it.
pub decode-encode_int_le :
    (v : ℤ) → Fits (2 ^ 63) v → decode_big_endian (reverse (encode_int_le v)) ≡ ok v
unfolding encode_int_le
decode-encode_int_le v h =
    if_elim (Decodes v) (fits (2 ^ 7) v) _ _
      (λ x. ap read (low_bytes1 v) ∙ decoded8 v (Fits-fits _ v x))
      λ _.
        if_elim (Decodes v) (fits (2 ^ 15) v) _ _
          (λ x. ap read (low_bytes2 v) ∙ decoded16 v (Fits-fits _ v x))
          λ _.
            if_elim (Decodes v) (fits (2 ^ 31) v) _ _
              (λ x. ap read (low_bytes4 v) ∙ decoded32 v (Fits-fits _ v x)) (λ _. decoded64 v h)
