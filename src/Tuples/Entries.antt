-- ===== src/Tuples/Entries.antt =====
-- The entries of the offset table: how wide they are, and what they read back to.
use ignite3_go_client.Base.{
  ℕ, ◌%◌, ◌^◌, ◌≤◌, ◌<◌, List, [], ◌∷◌, ◌++◌, Bytes, length, take, drop, take-length-append,
  drop-length-append, ◌≡◌, refl, ap, sym, ◌∙◌, arith,
}
use ignite3_go_client.Wire.{le_bytes, from_le}
use ignite3_go_client.Tuples.{ColumnInfo, TypeScaleValue}
use ignite3_go_client.Tuples.Elements.{arrange}

-- The elements of a tuple, from the payloads of its columns.
abbrev pub read_back : List ColumnInfo → List Bytes → List TypeScaleValue
read_back [] ps = []
read_back (c ∷ cs) [] = []
read_back (c ∷ cs) (p ∷ ps) =
    record {
      type_id = c.type_id;
      scale = c.scale;
      precision = c.precision;
      value = arrange c.type_id p;
    }
    ∷ read_back cs ps

abbrev pub entry : ℕ → ℕ → Bytes
entry size o = take size (le_bytes 4 o)

-- `size` bytes are enough for every offset up to `max`.
pub record IsEntrySize (size max : ℕ) : Type 0 where
  pub holds : (o : ℕ) → o ≤ max → from_le (entry size (o % 2 ^ 32)) ≡ o
  pub width : (o : ℕ) → length (entry size o) ≡ size

pub slice_at :
    (bin pre c rest : Bytes) (p size : ℕ)
    → bin ≡ pre ++ (c ++ rest)
    → length pre ≡ p
    → length c ≡ size
    → take size (drop p bin) ≡ c
slice_at bin pre c rest p size e lp lc =
    ap (λ b. take size (drop p b)) e
    ∙ ap (λ n. take size (drop n (pre ++ (c ++ rest)))) (sym lp)
    ∙ ap (take size) (drop-length-append pre (c ++ rest))
    ∙ ap (λ n. take n (c ++ rest)) (sym lc)
    ∙ take-length-append c rest

pub size1 : (max : ℕ) → max < 2 ^ 8 → IsEntrySize 1 max
size1 max h = record {
  holds = λ o l. unfold le_bytes from_le in omega arith;
  width = λ o. unfold le_bytes in refl;
}

pub size2 : (max : ℕ) → max < 2 ^ 16 → IsEntrySize 2 max
size2 max h = record {
  holds = λ o l. unfold le_bytes from_le in omega arith;
  width = λ o. unfold le_bytes in refl;
}

pub size4 : (max : ℕ) → max < 2 ^ 32 → IsEntrySize 4 max
size4 max h = record {
  holds = λ o l. unfold le_bytes from_le in omega arith;
  width = λ o. unfold le_bytes in refl;
}
