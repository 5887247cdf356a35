-- ===== src/Tables/Received.antt =====
-- The payload of UpsertAll and DeleteAll as its receiver reads it: the table, nil, the schema version, the
-- number of tuples, and each tuple behind an empty bit set.
use ignite3_go_client.Base.{
  ℕ, zero, suc, ◌<◌, ◌^◌, List, [], ◌∷◌, ◌++◌, Bytes, Option, none, some, ◌==◌, length,
  if◌then◌else◌, ◌≡◌, refl, subst,
}
use mathlib.Core.Option.{some-injective}
use ignite3_go_client.Base.Int.{ℤ, pos, negsuc, Fits}
use ignite3_go_client.Tables.{Packer, OpCode, Operation, packed_tuples, tuple_write_all}

-- Readers of msgpack values in front of other bytes.
pub record Reader : Type 0 where
  pub take_int64 : Bytes → Option (ℤ × Bytes)
  pub take_null : Bytes → Option Bytes
  pub take_bytes : Bytes → Option (Bytes × Bytes)

-- The reader takes back what the packer writes.
pub record ReadsBack (k : Packer) (r : Reader) : Type 0 where
  pub int64_back :
      (z : ℤ) (rest : Bytes)
      → Fits (2 ^ 63) z
      → r.take_int64 (k.pack_int64 z ++ rest) ≡ some (z, rest)
  pub null_back : (rest : Bytes) → r.take_null (k.pack_null ++ rest) ≡ some rest
  pub bytes_back : (b rest : Bytes) → r.take_bytes (k.pack_bytes b ++ rest) ≡ some (b, rest)

abbrev and_take : {A B : Type 0} → Option A → (A → Option B) → Option B
and_take none f = none
and_take (some a) f = f a

-- An extension of no bytes and of the type 8
abbrev take_bit_set : Bytes → Option Bytes
take_bit_set (a ∷ b ∷ c ∷ rest) =
    if a == 0xc7 then if b == 0 then if c == 8 then some rest else none else none else none
take_bit_set _ = none

module _ (r : Reader) where
  abbrev read_tuples : ℕ → Bytes → Option (List Bytes)
  read_tuples zero [] = some []
  read_tuples zero (b ∷ bs) = none
  read_tuples (suc n) bs = and_take (take_bit_set bs) (λ b1.
      and_take (r.take_bytes b1) (λ b2. and_take (read_tuples n b2.1) (λ more. some (b2.0 ∷ more))))

  abbrev read_counted : ℤ → Bytes → Option (List Bytes)
  read_counted (pos n) bs = read_tuples n bs
  read_counted (negsuc n) bs = none

  -- The id of the table, the schema version and the tuples
  abbrev pub read_write : Bytes → Option (ℤ × ℤ × List Bytes)
  read_write bs = and_take (r.take_int64 bs) (λ b1. and_take (r.take_null b1.1) (λ b2.
      and_take (r.take_int64 b2) (λ b3.
        and_take (r.take_int64 b3.1)
          (λ b4. and_take (read_counted b4.0 b4.1) (λ ts. some (b1.0, b3.0, ts))))))

module _ (k : Packer) (r : Reader) (laws : ReadsBack k r) where
  read_tuples-packed_tuples :
      (ts : List Bytes) → read_tuples r (length ts) (packed_tuples k ts) ≡ some ts
  unfolding packed_tuples
  read_tuples-packed_tuples [] = refl
  read_tuples-packed_tuples (t ∷ ts) =
      rw (laws.bytes_back t (packed_tuples k ts)) (rw (read_tuples-packed_tuples ts) refl)

  pub read_write-tuple_write_all :
      (code : OpCode) (id version : ℤ) (t : Bytes) (ts : List Bytes) (op : Operation)
      → Fits (2 ^ 63) id
      → Fits (2 ^ 63) version
      → length (t ∷ ts) < 2 ^ 63
      → tuple_write_all k code id version (t ∷ ts) ≡ some op
      → (op.code ≡ code) × (read_write r op.data_bytes ≡ some (id, version, t ∷ ts))
  unfolding tuple_write_all
  read_write-tuple_write_all code id version t ts op fi fv few e =
      subst
        (λ (o : Operation).
          (o.code ≡ code) × (read_write r o.data_bytes ≡ some (id, version, t ∷ ts)))
        (some-injective _ _ e)
        (
          refl,
          rw
              (
                laws.int64_back id _ fi,
                laws.null_back _,
                laws.int64_back version _ fv,
                laws.int64_back (pos (length (t ∷ ts))) _ few,
                read_tuples-packed_tuples (t ∷ ts),
              )
              refl,
        )
