-- ===== src/BinaryTuple/Nulls.antt =====
-- Which values are written as no byte at all: nil, and every value in a column of the kind NULL.
use ignite3_go_client.Base.{
  ℕ, suc, ◌^◌, ◌≤◌, [], ◌∷◌, ◌++◌, Bytes, ◌==◌, length, length-append, if_elim, ◌≡◌, ◌≢◌, ◌⊎◌, inl,
  inr, ◌↔◌, refl, sym, ap, ◌∙◌, subst, arith,
}
use ignite3_go_client.Base.Int.{ℤ, pos, fits, wrap}
use ignite3_go_client.Base.Result.{Result, ok, err, panic, ok_inj, ◌>>=◌}
use ignite3_go_client.Wire.{le_bytes}
use ignite3_go_client.Wire.Laws.{length-le_bytes}
use ignite3_go_client.Integers.Kinds.{
  Kind, bt_null, bt_boolean, bt_int8, bt_int16, bt_int32, bt_int64, bt_float, bt_double, bt_decimal,
  bt_date, bt_time, bt_date_time, bt_timestamp, bt_uuid, bt_string, bt_bytes, unknown,
}
use ignite3_go_client.Integers.{put_int}
use ignite3_go_client.Temporal.{between, encode_date, encode_time}
use ignite3_go_client.Values.{Value, GoLib, Time}
use ignite3_go_client.BinaryTuple.{
  BinaryTupleColumn, element, kind_bytes, date_bytes, time_bytes, varlen_string, varlen_bytes,
  float_bytes, double_bytes, timestamp_bytes, decimal_bytes, string_of, uuid_of, bytes_of,
}
use ignite3_go_client.BinaryTuple.Convert.{to_bool, to_int64, to_float64, to_decimal, to_time}

-- A result with at least one byte, or none at all.
abbrev pub WritesSome : Result Bytes → Type 0
WritesSome (ok p) = 1 ≤ length p
WritesSome (err e) = Unit
WritesSome panic = Unit

bind_WritesSome :
    {A : Type 0} (m : Result A) (f : A → Result Bytes)
    → ((a : A) → WritesSome (f a))
    → WritesSome (m >>= f)
bind_WritesSome (ok a) f h = h a
bind_WritesSome (err e) f h = tt
bind_WritesSome panic f h = tt

le_some : (k v : ℕ) (rest : Bytes) → 1 ≤ length (le_bytes (suc k) v ++ rest)
le_some k v rest = omega (arith, length-append (le_bytes (suc k) v) rest, length-le_bytes (suc k) v)

le_only : (k v : ℕ) → 1 ≤ length (le_bytes (suc k) v)
le_only k v = omega (arith, length-le_bytes (suc k) v)

put_int-WritesSome : (kind : Kind) (n : ℤ) → WritesSome (put_int [] kind n)
unfolding put_int
put_int-WritesSome bt_int8 n = if_elim WritesSome (fits (2 ^ 7) n) _ _ (λ _. omega arith) (λ _. tt)
put_int-WritesSome bt_int16 n =
    if_elim WritesSome (fits (2 ^ 7) n) _ _ (λ _. omega arith)
      λ _. if_elim WritesSome (fits (2 ^ 15) n) _ _ (λ _. unfold le_bytes in omega arith) (λ _. tt)
put_int-WritesSome bt_int32 n =
    if_elim WritesSome (fits (2 ^ 7) n) _ _ (λ _. omega arith)
      λ _.
        if_elim WritesSome (fits (2 ^ 15) n) _ _ (λ _. le_only 1 (wrap (2 ^ 16) n))
          λ _. if_elim WritesSome (fits (2 ^ 31) n) _ _ (λ _. le_only 3 (wrap (2 ^ 32) n)) (λ _. tt)
put_int-WritesSome bt_int64 n =
    if_elim WritesSome (fits (2 ^ 15) n) _ _ (λ _. le_only 1 (wrap (2 ^ 16) n))
      λ _.
        if_elim WritesSome (fits (2 ^ 31) n) _ _ (λ _. le_only 3 (wrap (2 ^ 32) n))
          (λ _. le_only 7 (wrap (2 ^ 64) n))
put_int-WritesSome _ n = tt

date-WritesSome : (t : Time) → WritesSome (date_bytes t)
unfolding date_bytes encode_date
date-WritesSome t =
    if_elim WritesSome (between 1 12 (pos t.civil.month)) _ _
      (λ _.
        if_elim WritesSome (between 1 31 (pos t.civil.day)) _ _
          (λ _. if_elim WritesSome (fits (2 ^ 14) t.civil.year) _ _ (λ _. le_only 2 _) (λ _. tt))
          (λ _. tt))
      (λ _. tt)

time-WritesSome : (t : Time) → WritesSome (time_bytes t)
unfolding time_bytes encode_time
time-WritesSome t =
    if_elim WritesSome (between 0 23 (pos t.civil.hour)) _ _
      (λ _.
        if_elim WritesSome (between 0 59 (pos t.civil.minute)) _ _
          (λ _.
            if_elim WritesSome (between 0 59 (pos t.civil.second)) _ _
              (λ _.
                if_elim WritesSome (between 0 999_999_999 (pos t.civil.nanosecond)) _ _
                  (λ _. le_only 5 _) (λ _. tt))
              (λ _. tt))
          (λ _. tt))
      (λ _. tt)

append_some : (a b : Bytes) → 1 ≤ length b → 1 ≤ length (a ++ b)
append_some a b h = omega (arith, length-append a b)

abbrev HasSome : Bytes → Type 0
HasSome p = 1 ≤ length p

varlen_string-some : (b : Bytes) → 1 ≤ length (varlen_string b)
unfolding varlen_string
varlen_string-some [] = omega arith
varlen_string-some (b ∷ bs) = omega arith

varlen_bytes-some : (b : Bytes) → 1 ≤ length (varlen_bytes b)
unfolding varlen_bytes
varlen_bytes-some [] = omega arith
varlen_bytes-some (b ∷ bs) =
    if_elim HasSome (b == 0x80) (0x80 ∷ b ∷ bs) (b ∷ bs) (λ _. omega arith) (λ _. omega arith)

double_bytes-some : (lib : GoLib) (f : ℕ) → 1 ≤ length (double_bytes lib f)
unfolding double_bytes
double_bytes-some lib f =
    if_elim HasSome (lib.f64_eq (lib.widen (lib.narrow f)) f) (le_bytes 4 (lib.narrow f))
      (le_bytes 8 f) (λ _. le_only 3 (lib.narrow f)) (λ _. le_only 7 f)

kind_bytes-WritesSome :
    (lib : GoLib) (kind : Kind) (scale : ℤ) (v : Value)
    → kind ≢ bt_null
    → WritesSome (kind_bytes lib kind scale v)
unfolding kind_bytes
kind_bytes-WritesSome lib bt_null scale v h = absurd (h refl)
kind_bytes-WritesSome lib bt_boolean scale v h =
    bind_WritesSome (to_bool lib v) _ (λ b. omega arith)
kind_bytes-WritesSome lib bt_int8 scale v h =
    bind_WritesSome (to_int64 lib v) _ (put_int-WritesSome bt_int8)
kind_bytes-WritesSome lib bt_int16 scale v h =
    bind_WritesSome (to_int64 lib v) _ (put_int-WritesSome bt_int16)
kind_bytes-WritesSome lib bt_int32 scale v h =
    bind_WritesSome (to_int64 lib v) _ (put_int-WritesSome bt_int32)
kind_bytes-WritesSome lib bt_int64 scale v h =
    bind_WritesSome (to_int64 lib v) _ (put_int-WritesSome bt_int64)
kind_bytes-WritesSome lib bt_float scale v h =
    bind_WritesSome (to_float64 lib v) _ (λ f. unfold float_bytes in le_only 3 (lib.narrow f))
kind_bytes-WritesSome lib bt_double scale v h =
    bind_WritesSome (to_float64 lib v) _ (double_bytes-some lib)
kind_bytes-WritesSome lib bt_decimal scale v h =
    bind_WritesSome (to_decimal lib scale v) _
      (λ d. unfold decimal_bytes in le_some 1 (wrap (2 ^ 16) d.scale) _)
kind_bytes-WritesSome lib bt_date scale v h = bind_WritesSome (to_time lib v) _ date-WritesSome
kind_bytes-WritesSome lib bt_time scale v h = bind_WritesSome (to_time lib v) _ time-WritesSome
kind_bytes-WritesSome lib bt_date_time scale v h =
    bind_WritesSome (to_time lib v) _
      λ t. bind_WritesSome (date_bytes t) _ (λ d. joined d (time_bytes t) (time-WritesSome t))
  where
    joined : (d : Bytes) (r : Result Bytes) → WritesSome r → WritesSome (do b ← r; ok (d ++ b))
    joined d (ok b) w = append_some d b w
    joined d (err e) w = tt
    joined d panic w = tt
kind_bytes-WritesSome lib bt_timestamp scale v h =
    bind_WritesSome (to_time lib v) _
      (λ t. unfold timestamp_bytes in le_some 7 (wrap (2 ^ 64) t.unix) _)
kind_bytes-WritesSome lib bt_uuid scale v h = bind_WritesSome (uuid_of v) _ (λ u. le_some 7 _ _)
kind_bytes-WritesSome lib bt_string scale v h = varlen_string-some (string_of lib v)
kind_bytes-WritesSome lib bt_bytes scale v h = bind_WritesSome (bytes_of v) _ varlen_bytes-some
kind_bytes-WritesSome lib (unknown k) scale v h = tt

-- A value other than nil that is written into a column whose kind is not NULL, whatever it is
-- converted from, takes at least one byte, so that an empty payload means NULL.
pub element-nonempty :
    (lib : GoLib) (col : BinaryTupleColumn) (v : Value) (p : Bytes)
    → v ≢ Value.nil
    → col.kind ≢ bt_null
    → element lib col v ≡ ok p
    → 1 ≤ length p
unfolding element
element-nonempty lib col v p hv hk e = subst WritesSome e (some v hv)
  where
    some : (v : Value) → v ≢ Value.nil → WritesSome (element lib col v)
    some Value.nil n = absurd (n refl)
    some v n = kind_bytes-WritesSome lib col.kind col.scale v hk

is_null : (k : Kind) → (k ≡ bt_null) ⊎ (k ≢ bt_null)
is_null bt_null = inl refl
is_null k = inr (λ e. cc)

is_nil : (v : Value) → (v ≡ Value.nil) ⊎ (v ≢ Value.nil)
is_nil Value.nil = inl refl
is_nil v = inr (λ e. cc)

zero_not_some : 1 ≤ length {A = ℕ} [] → ⊥
zero_not_some h = omega (arith, h)

element-nil : (lib : GoLib) (col : BinaryTupleColumn) → element lib col Value.nil ≡ ok []
unfolding element
element-nil lib col = refl

kind_bytes-null : (lib : GoLib) (scale : ℤ) (v : Value) → kind_bytes lib bt_null scale v ≡ ok []
unfolding kind_bytes
kind_bytes-null lib scale v = refl

element-null :
    (lib : GoLib) (col : BinaryTupleColumn) (v : Value)
    → col.kind ≡ bt_null
    → element lib col v ≡ ok []
unfolding element
element-null lib col Value.nil k = refl
element-null lib col v k =
    ap (λ c. kind_bytes lib c col.scale v) k ∙ kind_bytes-null lib col.scale v

-- What is written into a column is empty for nil, and for any value at all where the kind of the column is
-- NULL, and in no other case: elsewhere a value other than nil, whatever it is converted from, takes at
-- least one byte.
pub element-empty_iff :
    (lib : GoLib) (col : BinaryTupleColumn) (v : Value) (p : Bytes)
    → element lib col v ≡ ok p
    → (p ≡ []) ↔ ((v ≡ Value.nil) ⊎ (col.kind ≡ bt_null))
element-empty_iff lib col v p e = (
  (λ empty. elim (is_nil v) [
    | inl n ↦ inl n
    | inr n ↦ elim (is_null col.kind) [
      | inl k ↦ inr k
      | inr k ↦ absurd (
          zero_not_some
            (subst (λ (b : Bytes). 1 ≤ length b) empty (element-nonempty lib col v p n k e)))
    ]
  ]),
  (λ either. elim either [
    | inl n ↦ ok_inj (sym e ∙ ap (element lib col) n ∙ element-nil lib col)
    | inr k ↦ ok_inj (sym e ∙ element-null lib col v k)
  ]),
)
