-- ===== src/Tuples/Loop.antt =====
-- The loop of the reader over a table of offsets and the payloads behind it.
use ignite3_go_client.Base.{
  ℕ, suc, ◌+◌, ◌*◌, ◌%◌, ◌^◌, ◌≤◌, ◌<◌, List, [], ◌∷◌, ◌++◌, Bytes, length, length-append,
  le→ltb_false, ◌≡◌, refl, ap, ◌∙◌, arith,
}
use mathlib.Core.List.{append_assoc}
use ignite3_go_client.Base.Result.{ok}
use ignite3_go_client.BinaryTuple.{offset_table}
use ignite3_go_client.BinaryTuple.Layout.{area, ends, int32s}
use ignite3_go_client.Tuples.{
  ColumnInfo, entry_offset, start_offset, end_offset, make_checked, elements_loop,
}
use ignite3_go_client.Tuples.Elements.{Segment, read_value-Segment}
use ignite3_go_client.Tuples.Entries.{read_back, entry, IsEntrySize, slice_at}

module _ (size max : ℕ) (good : IsEntrySize size max) where
  pub length-table :
      (acc : ℕ) (ps : List Bytes)
      → length (offset_table size (int32s (ends acc ps))) ≡ length ps * size
  unfolding offset_table
  length-table acc [] = omega arith
  length-table acc (p ∷ ps) =
      length-append (entry size ((acc + length p) % 2 ^ 32)) _
      ∙ omega (arith, good.width ((acc + length p) % 2 ^ 32), length-table (acc + length p) ps)

  entry_offset-at :
      (bin pre rest : Bytes) (i o : ℕ)
      → bin ≡ pre ++ (entry size (o % 2 ^ 32) ++ rest)
      → length pre ≡ 1 + i * size
      → o ≤ max
      → entry_offset bin size i ≡ ok o
  unfolding entry_offset
  entry_offset-at bin pre rest i o e l h =
      let c : Bytes = entry size (o % 2 ^ 32) in
      let long : 1 + i * size + size ≤ length bin = omega (
        arith,
        ap length e,
        length-append pre (c ++ rest),
        length-append c rest,
        l,
        good.width (o % 2 ^ 32),
      ) in
      rw
        (
          le→ltb_false (length bin) (1 + i * size + size) long,
          slice_at bin pre c rest (1 + i * size) size e l (good.width (o % 2 ^ 32)),
          good.holds o h,
        )
        refl

  end_offset-at :
      (bin pre done p : Bytes) (ps : List Bytes) (cs : List ColumnInfo) (i base acc : ℕ)
      → length ps ≡ length cs
      → entry_offset bin size i ≡ ok (acc + length p)
      → length bin ≡ base + acc + length (area (p ∷ ps))
      → length bin < 2 ^ 63
      → end_offset bin size base i cs ≡ ok (acc + length p)
  unfolding end_offset
  end_offset-at bin pre done p [] [] i base acc l e b f =
      ap ok (omega (arith, b, f, length-append p []))
  end_offset-at bin pre done p (q ∷ ps) [] i base acc l e b f = absurd (omega arith)
  end_offset-at bin pre done p ps (c ∷ cs) i base acc l e b f = e

  make_checked-at : (acc n : ℕ) → acc + n < 2 ^ 63 → make_checked acc (acc + n) ≡ ok tt
  unfolding make_checked
  make_checked-at acc n h = ground arith

  regroup :
      (pre e t done p rest : Bytes)
      → pre ++ ((e ++ t) ++ (done ++ (p ++ rest))) ≡ (pre ++ e) ++ (t ++ ((done ++ p) ++ rest))
  regroup pre e t done p rest = simp append_assoc

  segment_of :
      (pre t done p rest : Bytes)
      → pre ++ (t ++ (done ++ (p ++ rest))) ≡ (pre ++ (t ++ done)) ++ (p ++ rest)
  segment_of pre t done p rest = simp append_assoc

  table_cons :
      (acc : ℕ) (p : Bytes) (ps : List Bytes)
      → offset_table size (int32s (ends acc (p ∷ ps)))
        ≡ entry size ((acc + length p) % 2 ^ 32)
          ++ offset_table size (int32s (ends (acc + length p) ps))
  unfolding offset_table
  table_cons acc p ps = refl

  -- The loop at element `i`: behind `pre` lie the entries from `i` on, then the payloads `done` of
  -- the elements before, then the rest.
  pub record IsAt (bin pre done : Bytes) (chunks : List Bytes) (i base acc : ℕ) : Type 0 where
    pub layout :
        bin ≡ pre ++ (offset_table size (int32s (ends acc chunks)) ++ (done ++ area chunks))
    pub header : length pre ≡ 1 + i * size
    pub before : length done ≡ acc
    pub base_at : base ≡ length pre + length chunks * size
    pub bounded : acc + length (area chunks) ≤ max
    pub small : length bin < 2 ^ 63

  module _ (bin pre done p : Bytes) (ps : List Bytes) (i base acc : ℕ)
      (at : IsAt bin pre done (p ∷ ps) i base acc) where
    abbrev this : Bytes
    this = entry size ((acc + length p) % 2 ^ 32)

    abbrev later : Bytes
    later = offset_table size (int32s (ends (acc + length p) ps))

    unrolled : bin ≡ pre ++ ((this ++ later) ++ (done ++ (p ++ area ps)))
    unrolled = at.layout ∙ ap (λ t. pre ++ (t ++ (done ++ (p ++ area ps)))) (table_cons acc p ps)

    lengths : length (area (p ∷ ps)) ≡ length p + length (area ps)
    lengths = length-append p (area ps)

    this_entry : entry_offset bin size i ≡ ok (acc + length p)
    this_entry =
        entry_offset-at bin pre (later ++ (done ++ (p ++ area ps))) i (acc + length p)
          (unrolled ∙ ap (λ t. pre ++ t) (append_assoc this later (done ++ (p ++ area ps))))
          at.header (omega (arith, at.bounded, lengths))

    total : length bin ≡ base + acc + length (area (p ∷ ps))
    total =
        ap length at.layout
        ∙ length-append pre _
        ∙ omega (
          arith,
          length-append (offset_table size (int32s (ends acc (p ∷ ps)))) (done ++ area (p ∷ ps)),
          length-append done (area (p ∷ ps)),
          length-table acc (p ∷ ps),
          at.base_at,
          at.before,
        )

    payload : Segment bin (base + acc) p
    payload = record {
      front = pre ++ ((this ++ later) ++ done);
      back = area ps;
      parts = unrolled ∙ segment_of pre (this ++ later) done p (area ps);
      starts =
          length-append pre ((this ++ later) ++ done)
          ∙ omega (
            arith,
            length-append (this ++ later) done,
            ap length (table_cons acc p ps),
            length-table acc (p ∷ ps),
            at.base_at,
            at.before,
          );
      fits = at.small;
    }

    after : IsAt bin (pre ++ this) (done ++ p) ps (suc i) base (acc + length p)
    after = record {
      layout = unrolled ∙ regroup pre this later done p (area ps);
      header =
          length-append pre this ∙ omega (arith, at.header, good.width ((acc + length p) % 2 ^ 32));
      before = length-append done p ∙ omega (arith, at.before);
      base_at =
          at.base_at
          ∙ omega (arith, length-append pre this, good.width ((acc + length p) % 2 ^ 32));
      bounded = omega (arith, at.bounded, lengths);
      small = at.small;
    }

    checked : make_checked acc (acc + length p) ≡ ok tt
    checked = make_checked-at acc (length p) (omega (arith, total, lengths, at.small))

  pub elements_loop-reads :
      (cols : List ColumnInfo) (chunks : List Bytes) (i base acc : ℕ) (pre done bin : Bytes)
      → length chunks ≡ length cols
      → IsAt bin pre done chunks i base acc
      → start_offset bin size i ≡ ok acc
      → elements_loop bin size base i cols ≡ ok (read_back cols chunks)
  unfolding elements_loop
  elements_loop-reads [] chunks i base acc pre done bin l at st = refl
  elements_loop-reads (c ∷ cs) [] i base acc pre done bin l at st = absurd (omega arith)
  elements_loop-reads (c ∷ cs) (p ∷ ps) i base acc pre done bin l at st =
      let here = this_entry bin pre done p ps i base acc at in
      rw
        (
          st,
          end_offset-at bin pre done p ps cs i base acc (omega arith) here
              (total bin pre done p ps i base acc at) at.small,
          checked bin pre done p ps i base acc at,
          read_value-Segment bin base c.type_id acc p (payload bin pre done p ps i base acc at),
          elements_loop-reads cs ps (suc i) base (acc + length p)
              (pre ++ this bin pre done p ps i base acc at) (done ++ p) bin (omega arith)
              (after bin pre done p ps i base acc at) (unfold start_offset in here),
        )
        refl
