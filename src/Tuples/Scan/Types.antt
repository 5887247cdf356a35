-- ===== src/Tuples/Scan/Types.antt =====
-- Every value of GetValue has the Go type of the SQL type that was asked for.
use ignite3_go_client.Base.{
  ℕ, ◌<◌, ◌^◌, List, [], ◌∷◌, Bytes, ltb, ◌==◌, length, get_elem?, ◌≡◌, subst, arith, Option, none,
  some, if_elim,
}
use ignite3_go_client.Base.Int.{ℤ, pos, negsuc, Fits}
use ignite3_go_client.Base.Result.{Result, ok, err, panic, ◌>>=◌}
use ignite3_go_client.Integers.{decode_big_endian}
use ignite3_go_client.Temporal.{decode_date, decode_time, decode_timestamp}
use ignite3_go_client.Tuples.{TypeScaleValue, index}
use ignite3_go_client.Tuples.Scan.{
  Scanned, nil, bool, int8, int16, int32, int64, float32, float64, decimal, civil, instant, uuid,
  text, bytes, narrow, prefix_le, expand_double, scan_decimal, scan_date, scan_datetime, scan_uuid,
  scan_payload, scan, scan_elem, get_value, tuple_length,
}
use ignite3_go_client.ColumnTypes.{
  TypeId, type_null, type_boolean, type_tinyint, type_smallint, type_int, type_bigint, type_real,
  type_double, type_decimal, type_date, type_time, type_datetime, type_timestamp, type_uuid,
  type_varchar, type_varbinary, type_unknown,
}

-- The value is NULL or of the type's Go type, and in the range of a type of fewer than 64 bits.
abbrev pub HasType : Scanned → TypeId → Type 0
HasType nil t = Unit
HasType (bool b) type_boolean = Unit
HasType (int8 v) type_tinyint = Fits (2 ^ 7) v
HasType (int16 v) type_smallint = Fits (2 ^ 15) v
HasType (int32 v) type_int = Fits (2 ^ 31) v
HasType (int64 v) type_bigint = Unit
HasType (float32 f) type_real = Unit
HasType (float32 f) type_double = Unit
HasType (float64 f) type_double = Unit
HasType (decimal d) type_decimal = Unit
HasType (civil c) type_date = Unit
HasType (civil c) type_time = Unit
HasType (civil c) type_datetime = Unit
HasType (instant i) type_timestamp = Unit
HasType (uuid u) type_uuid = Unit
HasType (text s) type_varchar = Unit
HasType (bytes b) type_varbinary = Unit
HasType _ _ = ⊥

-- A result that satisfies `P` where it is a value.
abbrev pub Gives {κ ℓ} : {V : Type κ} → (V → Type ℓ) → Result V → Type ℓ
Gives P panic = Unit
Gives P (ok v) = P v
Gives P (err e) = Unit

Gives-bind {κ} :
    {V : Type κ} (t : TypeId) (r : Result V) (f : V → Result Scanned)
    → ((v : V) → Gives (λ s. HasType s t) (f v))
    → Gives (λ s. HasType s t) (r >>= f)
Gives-bind t panic f h = tt
Gives-bind t (ok v) f h = h v
Gives-bind t (err e) f h = tt

abbrev OfType : TypeId → Result Scanned → Type 0
OfType t = Gives (λ s. HasType s t)

narrow-Fits : (h : ℕ) (v : ℤ) → 0 < h → Fits h (narrow h v)
narrow-Fits h (pos n) p = ground arith
narrow-Fits h (negsuc n) p = ground arith

scan_payload-HasType :
    (t : TypeId) (precision : ℤ) (raw : Bytes) → OfType t (scan_payload t precision raw)
unfolding scan_payload
scan_payload-HasType type_null precision raw = tt
scan_payload-HasType type_boolean precision raw = Gives-bind type_boolean (index raw 0) _ (λ b. tt)
scan_payload-HasType type_tinyint precision raw =
    Gives-bind type_tinyint (decode_big_endian raw) _ (λ v. narrow-Fits (2 ^ 7) v (omega arith))
scan_payload-HasType type_smallint precision raw =
    Gives-bind type_smallint (decode_big_endian raw) _ (λ v. narrow-Fits (2 ^ 15) v (omega arith))
scan_payload-HasType type_int precision raw =
    Gives-bind type_int (decode_big_endian raw) _ (λ v. narrow-Fits (2 ^ 31) v (omega arith))
scan_payload-HasType type_bigint precision raw =
    Gives-bind type_bigint (decode_big_endian raw) _ (λ v. tt)
scan_payload-HasType type_real precision raw = Gives-bind type_real (prefix_le 4 raw) _ (λ b. tt)
scan_payload-HasType type_double precision raw =
    unfold expand_double in
    if_elim (OfType type_double) (length raw == 4) _ _ (λ _. tt)
      (λ _. if_elim (OfType type_double) (length raw == 8) _ _ (λ _. tt) (λ _. tt))
scan_payload-HasType type_decimal precision [] = unfold scan_decimal in tt
scan_payload-HasType type_decimal precision (a ∷ []) = unfold scan_decimal in tt
scan_payload-HasType type_decimal precision (a ∷ b ∷ raw) = unfold scan_decimal in tt
scan_payload-HasType type_date precision raw =
    unfold scan_date in Gives-bind type_date (decode_date raw) _ (λ d. tt)
scan_payload-HasType type_time precision raw =
    Gives-bind type_time (decode_time raw precision) _ (λ t. tt)
scan_payload-HasType type_datetime precision raw =
    unfold scan_datetime in
    if_elim (OfType type_datetime) (ltb 6 (length raw)) _ _
      (λ _.
        Gives-bind type_datetime (decode_date raw) _
          (λ d. Gives-bind type_datetime (decode_time raw precision) _ (λ t. tt)))
      (λ _. tt)
scan_payload-HasType type_timestamp precision raw =
    Gives-bind type_timestamp (decode_timestamp raw) _ (λ t. tt)
scan_payload-HasType type_uuid precision raw =
    unfold scan_uuid in if_elim (OfType type_uuid) (ltb (length raw) 16) _ _ (λ _. tt) (λ _. tt)
scan_payload-HasType type_varchar precision raw = tt
scan_payload-HasType type_varbinary precision raw = tt
scan_payload-HasType (type_unknown k) precision raw = tt

scan-HasType : (t : TypeId) (precision : ℤ) (raw : Bytes) → OfType t (scan t precision raw)
unfolding scan
scan-HasType t precision [] = tt
scan-HasType t precision (b ∷ raw) = scan_payload-HasType t precision (b ∷ raw)

scan_elem-HasType : (t : TypeId) (e : Option TypeScaleValue) → OfType t (scan_elem t e)
unfolding scan_elem
scan_elem-HasType type_null e = tt
scan_elem-HasType t none = tt
scan_elem-HasType t (some v) = scan-HasType t v.precision v.value

-- Whatever tuple, index and type GetValue is called with, a value that it returns is nil or has the Go
-- type of that SQL type; an int8, int16 or int32 is in its range.
pub get_value-HasType :
    (values : List TypeScaleValue) (i : ℤ) (t : TypeId) (v : Scanned)
    → get_value values i t ≡ ok v
    → HasType v t
get_value-HasType values (pos i) t v e = subst (OfType t) e (
    unfold get_value in
    if_elim (OfType t) (ltb (tuple_length values) i) _ _ (λ _. tt)
      (λ _. scan_elem-HasType t (get_elem? values i)))
get_value-HasType values (negsuc i) t v e = subst (OfType t) e (unfold get_value in tt)
