-- ===== src/Tuples/Elements.antt =====
-- Copying a segment of the value area, and what the reader makes of a payload.
use ignite3_go_client.Base.{
  ℕ, suc, ◌+◌, ◌-◌, ◌%◌, ◌^◌, ◌≤◌, ◌<◌, [], ◌∷◌, ◌++◌, Bytes, length, length-append, get_elem?,
  get_elem?-append_right, some, ◌≡◌, refl, ap, sym, subst, ◌∙◌, arith,
}
use mathlib.Core.List.{reverse, reverse-append, reverse-reverse, append_assoc}
use ignite3_go_client.Base.Result.{ok}
use ignite3_go_client.Tuples.{int_mod, index, copy_up, copy_down, strip_marker, read_value}
use ignite3_go_client.ColumnTypes.{
  TypeId, type_smallint, type_int, type_bigint, type_varchar, type_varbinary,
}

-- What the reader keeps of the payload that lies in the tuple.
unfoldable pub arrange : TypeId → Bytes → Bytes
arrange type_smallint c = reverse c
arrange type_int c = reverse c
arrange type_bigint c = reverse c
arrange type_varchar c = strip_marker c
arrange type_varbinary c = strip_marker c
arrange _ c = c

-- `c` lies in `bin` from `start` on.
pub record Segment (bin : Bytes) (start : ℕ) (c : Bytes) : Type 0 where
  pub front : Bytes
  pub back : Bytes
  pub parts : bin ≡ front ++ (c ++ back)
  pub starts : length front ≡ start
  pub fits : length bin < 2 ^ 63

Segment-end :
    {bin : Bytes} {start : ℕ} {c : Bytes} → Segment bin start c → start + length c ≤ length bin
Segment-end {c = c} s = omega (
  arith,
  ap length s.parts,
  length-append s.front (c ++ s.back),
  length-append c s.back,
  s.starts,
)

index_some : (bin : Bytes) (i b : ℕ) → get_elem? bin i ≡ some b → index bin i ≡ ok b
unfolding index
index_some bin i b h = rw (h, index)

index-Segment :
    {bin : Bytes} {start : ℕ} {b : ℕ} {c : Bytes}
    → Segment bin start (b ∷ c)
    → index bin start ≡ ok b
index-Segment {bin} {start} {b} {c} s =
    let e : start ≡ length s.front + 0 = omega (arith, s.starts) in
    index_some bin start b (
      ap (λ t. get_elem? t start) s.parts
      ∙ ap (get_elem? (s.front ++ (b ∷ (c ++ s.back)))) e
      ∙ get_elem?-append_right s.front (b ∷ (c ++ s.back)) 0)

Segment-tail :
    {bin : Bytes} {start : ℕ} {b : ℕ} {c : Bytes}
    → Segment bin start (b ∷ c)
    → Segment bin (start + 1) c
Segment-tail {bin} {start} {b} {c} s = record {
  front = s.front ++ b ∷ [];
  back = s.back;
  parts = s.parts ∙ sym (append_assoc s.front (b ∷ []) (c ++ s.back));
  starts = length-append s.front (b ∷ []) ∙ omega (arith, s.starts);
  fits = s.fits;
}

pub copy_up-Segment :
    (bin : Bytes) (start : ℕ) (c : Bytes)
    → Segment bin start c
    → copy_up bin start (length c) ≡ ok c
unfolding copy_up
copy_up-Segment bin start [] s = refl
copy_up-Segment bin start (b ∷ c) s =
    let e : (start + 1) % int_mod ≡ start + 1 = omega (arith, Segment-end s, s.fits) in
    rw (index-Segment s, e, copy_up-Segment bin (start + 1) c (Segment-tail s)) refl

-- The last byte of a segment, and the segment before it.
Segment-last :
    {bin : Bytes} {start : ℕ} (c : Bytes) (b : ℕ)
    → Segment bin start (c ++ b ∷ [])
    → Segment bin (start + length c) (b ∷ [])
Segment-last {bin} {start} c b s = record {
  front = s.front ++ c;
  back = s.back;
  parts =
      s.parts
      ∙ ap (λ t. s.front ++ t) (append_assoc c (b ∷ []) s.back)
      ∙ sym (append_assoc s.front c (b ∷ s.back));
  starts = length-append s.front c ∙ omega (arith, s.starts);
  fits = s.fits;
}

Segment-init :
    {bin : Bytes} {start : ℕ} (c : Bytes) (b : ℕ)
    → Segment bin start (c ++ b ∷ [])
    → Segment bin start c
Segment-init {bin} {start} c b s = record {
  front = s.front;
  back = b ∷ s.back;
  parts = s.parts ∙ ap (λ t. s.front ++ t) (append_assoc c (b ∷ []) s.back);
  starts = s.starts;
  fits = s.fits;
}

pub length-reverse : (c : Bytes) → length (reverse c) ≡ length c
length-reverse [] = refl
length-reverse (b ∷ c) =
    ap length (reverse-append (b ∷ []) c)
    ∙ length-append (reverse c) (b ∷ [])
    ∙ omega (arith, length-reverse c)

-- The reversed segment comes out: `d` is what is still to be read, last byte first.
copy_down-reverse :
    (bin : Bytes) (start : ℕ) (d : Bytes)
    → Segment bin start (reverse d)
    → copy_down bin (start + length d) (length d) ≡ ok d
unfolding copy_down
copy_down-reverse bin start [] s = refl
copy_down-reverse bin start (b ∷ d) s =
    let t : Segment bin start (reverse d ++ b ∷ []) =
      subst (Segment bin start) (reverse-append (b ∷ []) d) s in
    let l = Segment-last (reverse d) b t in
    let e : (start + suc (length d) + int_mod - 1) % int_mod ≡ start + length d =
      omega (arith, Segment-end l, l.fits, length-reverse d) in
    let k : start + length (reverse d) ≡ start + length d = omega (arith, length-reverse d) in
    rw (e, ← k, index-Segment l, k, copy_down-reverse bin start d (Segment-init (reverse d) b t))
      refl

module _ (bin : Bytes) (base acc : ℕ) (c : Bytes) (s : Segment bin (base + acc) c) where
  len_eq : (acc + length c + int_mod - acc) % int_mod ≡ length c
  len_eq = omega (arith, Segment-end s, s.fits)

  start_eq : (base + acc) % int_mod ≡ base + acc
  start_eq = omega (arith, Segment-end s, s.fits)

  end_eq : (base + (acc + length c)) % int_mod ≡ base + acc + length (reverse c)
  end_eq = omega (arith, Segment-end s, s.fits, length-reverse c)

  read_up : copy_up bin ((base + acc) % int_mod) ((acc + length c + int_mod - acc) % int_mod) ≡ ok c
  read_up = rw (len_eq, start_eq) (copy_up-Segment bin (base + acc) c s)

  read_down :
      copy_down bin
        ((base + (acc + length c)) % int_mod)
        ((acc + length c + int_mod - acc) % int_mod)
      ≡ ok (reverse c)
  read_down =
      rw (len_eq, end_eq, ← length-reverse c)
        (copy_down-reverse bin (base + acc) (reverse c)
          (subst (Segment bin (base + acc)) (sym (reverse-reverse c)) s))

-- A segment read as the payload of an element.
pub read_value-Segment :
    (bin : Bytes) (base : ℕ) (t : TypeId) (acc : ℕ) (c : Bytes)
    → Segment bin (base + acc) c
    → read_value bin base t acc (acc + length c) ≡ ok (arrange t c)
unfolding read_value arrange
read_value-Segment bin base type_smallint acc c s = read_down bin base acc c s
read_value-Segment bin base type_int acc c s = read_down bin base acc c s
read_value-Segment bin base type_bigint acc c s = read_down bin base acc c s
read_value-Segment bin base type_varchar acc c s = rw (read_up bin base acc c s) refl
read_value-Segment bin base type_varbinary acc c s = rw (read_up bin base acc c s) refl
read_value-Segment bin base _ acc c s = read_up bin base acc c s
