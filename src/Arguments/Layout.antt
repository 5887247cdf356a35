-- ===== src/Arguments/Layout.antt =====
-- The reader takes the tuple of Bytes apart into the type, the scale and the payload of each value.
use ignite3_go_client.Base.{
  ℕ, suc, ◌+◌, ◌-◌, ◌*◌, ◌/◌, ◌%◌, ◌^◌, ◌≤◌, ◌<◌, List, [], ◌∷◌, ◌++◌, Bytes, false, length,
  length-append, take, if_elim, ltb, ◌≡◌, refl, ap, sym, arith,
}
use ignite3_go_client.Base.Int.{ℤ, wrap}
use ignite3_go_client.Base.Result.{ok}
use ignite3_go_client.Wire.{le_bytes}
use ignite3_go_client.ColumnTypes.{id_of}
use ignite3_go_client.BinaryTuple.{offset_table}
use ignite3_go_client.BinaryTuple.Layout.{area, ends, int32s}
use ignite3_go_client.Tuples.{ColumnInfo, TypeScaleValue, from_header, start_offset, new_tuple}
use ignite3_go_client.Tuples.Entries.{read_back, IsEntrySize, size1, size2, size4}
use ignite3_go_client.Tuples.Loop.{IsAt, elements_loop-reads, length-table}
use ignite3_go_client.Arguments.{
  get_length, scale_length, scale_bytes, is_null, total_length, entry_size, to_header, offsets,
  payloads, bytes,
}

-- The three elements of each value.
abbrev pub pieces : List TypeScaleValue → List Bytes
pieces [] = []
pieces (v ∷ vs) = (wrap (2 ^ 8) (id_of v.type_id) ∷ []) ∷ scale_bytes v.scale ∷ v.value ∷ pieces vs

-- No value is NULL, and each scale takes one byte.
abbrev pub Plain : List TypeScaleValue → Type 0
Plain [] = Unit
Plain (v ∷ vs) = (is_null v.type_id ≡ false) × (scale_length v.scale ≡ 1) × Plain vs

payloads-area : (vs : List TypeScaleValue) → payloads vs ≡ area (pieces vs)
unfolding payloads
payloads-area [] = refl
payloads-area (v ∷ vs) = rw (payloads-area vs) refl

length-scale : (s : ℤ) → scale_length s ≡ 1 → length (scale_bytes s) ≡ 1
unfolding scale_bytes le_bytes
length-scale s h = rw h refl

length-pieces : (vs : List TypeScaleValue) → length (pieces vs) ≡ 3 * length vs
length-pieces [] = refl
length-pieces (v ∷ vs) = omega (arith, length-pieces vs)

total-area : (vs : List TypeScaleValue) → Plain vs → total_length vs ≡ length (area (pieces vs))
unfolding total_length get_length
total-area [] h = refl
total-area (v ∷ vs) (n, s, h) =
    rw (n, s)
      (omega (
        arith,
        total-area vs h,
        length-append (scale_bytes v.scale) (v.value ++ area (pieces vs)),
        length-append v.value (area (pieces vs)),
        length-scale v.scale s,
      ))

-- The low bytes of an entry are those of the int32 that it is cut from.
abbrev Cuts : ℕ → ℕ → Type 0
Cuts size max = (o : ℕ) → o ≤ max → le_bytes size o ≡ take size (le_bytes 4 (o % 2 ^ 32))

offsets-table :
    (size max prev : ℕ) (vs : List TypeScaleValue)
    → Cuts size max
    → Plain vs
    → prev + total_length vs ≤ max
    → offsets size prev vs ≡ offset_table size (int32s (ends prev (pieces vs)))
unfolding offsets offset_table
offsets-table size max prev [] c h l = refl
offsets-table size max prev (v ∷ vs) c (n, s, h) l =
    let g : get_length v ≡ 2 + length v.value = unfold get_length in rw (n, s) refl in
    let t : total_length (v ∷ vs) ≡ get_length v + total_length vs = unfold total_length in refl in
    let e1 : prev + 1 + length (scale_bytes v.scale) ≡ prev + 2 =
      omega (arith, length-scale v.scale s) in
    let e2 : prev + get_length v ≡ prev + 2 + length v.value = omega (arith, g) in
    rw
      (
        e1,
        e2,
        c (prev + 1) (omega arith),
        c (prev + 2) (omega arith),
        c (prev + 2 + length v.value) (omega arith),
        offsets-table size max (prev + 2 + length v.value) vs c h (omega arith),
      )
      refl

cuts1 : (max : ℕ) → Cuts 1 max
unfolding le_bytes
cuts1 max o h = ap (λ n. n ∷ []) (omega arith)

cuts2 : (max : ℕ) → Cuts 2 max
unfolding le_bytes
cuts2 max o h =
    let a : o % 2 ^ 32 % 256 ≡ o % 256 = omega arith in
    let b : o % 2 ^ 32 / 256 % 256 ≡ o / 256 % 256 = omega arith in rw (a, b) refl

cuts4 : (max : ℕ) → max < 2 ^ 32 → Cuts 4 max
unfolding le_bytes
cuts4 max l o h = rw (mod_lt) refl
  where
    mod_lt : o % 2 ^ 32 ≡ o
    mod_lt = omega arith

-- What the entry size for `total` bytes must do.
record IsChoice (total size : ℕ) : Type 0 where
  entries : IsEntrySize size total
  cuts : Cuts size total
  back : from_header (to_header size) ≡ ok size
  small : size ≤ 4

choice : (total : ℕ) → total < 2 ^ 32 - 1 → IsChoice total (entry_size total)
unfolding entry_size
choice total h =
    if_elim (IsChoice total) (ltb total (2 ^ 8 - 1)) _ _
      (λ a. record {
        entries = size1 total (ground arith);
        cuts = cuts1 total;
        back = unfold from_header to_header in refl;
        small = omega arith;
      })
      λ _.
        if_elim (IsChoice total) (ltb total (2 ^ 16 - 1)) _ _
          (λ a. record {
            entries = size2 total (ground arith);
            cuts = cuts2 total;
            back = unfold from_header to_header in refl;
            small = omega arith;
          })
          λ _.
            if_elim (IsChoice total) (ltb total (2 ^ 32 - 1)) _ _
              (λ a. record {
                entries = size4 total (omega arith);
                cuts = cuts4 total (omega arith);
                back = unfold from_header to_header in refl;
                small = omega arith;
              })
              (λ x. absurd (ground arith))

entries_bound : (n size : ℕ) → size ≤ 4 → n * size ≤ n * 4
entries_bound n size h = grind arith

-- Fewer than 2 ^ 31 arguments of which none is NULL and whose scales are below 255, in less than 2
-- ^ 32 - 1 bytes together, make a tuple that the reader, with three columns for each argument,
-- takes apart into the type byte, the scale byte and the payload of each argument, in order.
pub new_tuple-bytes :
    (values : List TypeScaleValue) (infos : List ColumnInfo)
    → Plain values
    → length infos ≡ 3 * length values
    → length values < 2 ^ 31
    → total_length values < 2 ^ 32 - 1
    → new_tuple infos (bytes values) ≡ ok (read_back infos (pieces values))
unfolding new_tuple bytes
new_tuple-bytes values infos plain li lc lt =
    rw (g.back, payloads-area values, offsets-table size total 0 values g.cuts plain (omega arith))
      (elements_loop-reads size total g.entries infos (pieces values) 0 (1 + length infos * size) 0
        (to_header size ∷ []) [] (to_header size ∷ (table ++ area (pieces values))) counts at
        (unfold start_offset in refl))
  where
    total : ℕ
    total = total_length values

    size : ℕ
    size = entry_size total

    table : Bytes
    table = offset_table size (int32s (ends 0 (pieces values)))

    g : IsChoice total size
    g = choice total lt

    counts : length (pieces values) ≡ length infos
    counts = omega (arith, length-pieces values, li)

    at :
        IsAt size total g.entries
          (to_header size ∷ (table ++ area (pieces values)))
          (to_header size ∷ [])
          []
          (pieces values)
          0
          (1 + length infos * size)
          0
    at = record {
      layout = refl;
      header = omega arith;
      before = refl;
      base_at = ap (λ n. 1 + n * size) (sym counts);
      bounded = omega (arith, total-area values plain);
      small = omega (
        arith,
        ap suc (length-append table (area (pieces values))),
        length-table size total g.entries 0 (pieces values),
        entries_bound (length (pieces values)) size g.small,
        total-area values plain,
        length-pieces values,
      );
    }
