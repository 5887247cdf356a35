-- ===== src/Tuples/RoundTrip.antt =====
-- The reader takes a tuple of BuildBinaryTuple apart into the payloads that were put together.
use ignite3_go_client.Base.{
  ℕ, suc, ◌+◌, ◌*◌, ◌^◌, ◌≤◌, ◌<◌, List, [], ◌∷◌, ◌++◌, Bytes, length, length-append, if_elim, leb,
  ◌≡◌, refl, ap, sym, arith,
}
use ignite3_go_client.Base.Result.{ok}
use ignite3_go_client.Values.{Value, GoLib}
use ignite3_go_client.BinaryTuple.{BinaryTupleColumn, offset_table, build_binary_tuple}
use ignite3_go_client.BinaryTuple.Layout.{
  Encodes, area, ends, int32s, chosen_log, build-Encodes, Encodes-length,
}
use ignite3_go_client.Tuples.{ColumnInfo, from_header, start_offset, new_tuple}
use ignite3_go_client.Tuples.Entries.{read_back, IsEntrySize, size1, size2, size4}
use ignite3_go_client.Tuples.Loop.{length-table, IsAt, elements_loop-reads}

-- The chosen entries hold every offset of the area, and the header gives their size back.
pub chosen_good :
    (len : ℕ)
    → len < 2 ^ 31
    → IsEntrySize (2 ^ chosen_log len) len
      × (from_header (chosen_log len) ≡ ok (2 ^ chosen_log len))
      × (2 ^ chosen_log len ≤ 4)
chosen_good len h =
    if_elim Good (leb len 0xff) _ _ (λ a. (size1 len (ground arith), back, omega arith))
      λ _.
        if_elim Good (leb len 0xffff) _ _ (λ b. (size2 len (ground arith), back2, omega arith))
          (λ _. (size4 len (omega arith), back4, omega arith))
  where
    Good : ℕ → Type 0
    Good k = IsEntrySize (2 ^ k) len × (from_header k ≡ ok (2 ^ k)) × (2 ^ k ≤ 4)

    back : from_header 0 ≡ ok 1
    back = unfold from_header in refl

    back2 : from_header 1 ≡ ok 2
    back2 = unfold from_header in refl

    back4 : from_header 2 ≡ ok 4
    back4 = unfold from_header in refl

table_bound : (n size : ℕ) → size ≤ 4 → n * size ≤ n * 4
table_bound n size h = grind arith

-- A row of fewer than 2 ^ 31 columns whose values are all encoded, in less than 2 ^ 31 bytes
-- together, is built, and the reader, with metadata for as many columns, takes the tuple apart
-- into exactly those payloads, arranged by the types of its columns.
pub new_tuple-build :
    (lib : GoLib) (cols : List BinaryTupleColumn) (vals : List Value) (chunks : List Bytes)
    (infos : List ColumnInfo)
    → Encodes lib cols vals chunks
    → length infos ≡ length cols
    → length cols < 2 ^ 31
    → length (area chunks) < 2 ^ 31
    → (out : Bytes) × (build_binary_tuple lib cols vals ≡ ok out)
      × (new_tuple infos out ≡ ok (read_back infos chunks))
unfolding new_tuple
new_tuple-build lib cols vals chunks infos enc li lc la = (
  log ∷ table ++ area chunks,
  build-Encodes lib cols vals chunks enc la,
  rw (g.1) (
      elements_loop-reads size len g.0 infos chunks 0 (1 + length infos * size) 0 (log ∷ []) []
        (log ∷ table ++ area chunks) counts at (unfold start_offset in refl)),
)
  where
    len : ℕ
    len = length (area chunks)

    log : ℕ
    log = chosen_log len

    size : ℕ
    size = 2 ^ log

    table : Bytes
    table = offset_table size (int32s (ends 0 chunks))

    g : IsEntrySize size len × (from_header log ≡ ok size) × (size ≤ 4)
    g = chosen_good len la

    counts : length chunks ≡ length infos
    counts = omega (arith, Encodes-length lib cols vals chunks enc, li)

    at :
        IsAt size len g.0
          (log ∷ table ++ area chunks)
          (log ∷ [])
          []
          chunks
          0
          (1 + length infos * size)
          0
    at = record {
      layout = refl;
      header = omega arith;
      before = refl;
      base_at = ap (λ n. 1 + n * size) (sym counts);
      bounded = omega arith;
      small = omega (
        arith,
        ap suc (length-append table (area chunks)),
        length-table size len g.0 0 chunks,
        table_bound (length chunks) size g.2,
        Encodes-length lib cols vals chunks enc,
      );
    }
