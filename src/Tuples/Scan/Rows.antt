-- ===== src/Tuples/Scan/Rows.antt =====
-- Whole rows: what BuildBinaryTuple writes, taken apart again and read column by column.
use ignite3_go_client.Base.{
  ℕ, suc, ◌+◌, ◌^◌, ◌<◌, List, [], ◌∷◌, ◌++◌, Bytes, some, length, length-append, get_elem?,
  get_elem?-append_right, le→ltb_false, ◌≡◌, refl, ap, sym, ◌∙◌, arith,
}
use mathlib.Core.List.{append_assoc}
use ignite3_go_client.Base.Int.{ℤ, pos}
use ignite3_go_client.Base.Result.{Result, ok}
use ignite3_go_client.Values.{Value, GoLib}
use ignite3_go_client.BinaryTuple.{BinaryTupleColumn, build_binary_tuple}
use ignite3_go_client.BinaryTuple.Layout.{Encodes, area}
use ignite3_go_client.ColumnTypes.{TypeId, type_null}
use ignite3_go_client.Tuples.{ColumnInfo, TypeScaleValue, new_tuple}
use ignite3_go_client.Tuples.Elements.{arrange}
use ignite3_go_client.Tuples.Entries.{read_back}
use ignite3_go_client.Tuples.RoundTrip.{new_tuple-build}
use ignite3_go_client.Tuples.Scan.{Scanned, scan, scan_payload, scan_elem, get_value}
use ignite3_go_client.Tuples.Scan.Written.{WritesAs}

-- GetValue for each column, the way QuerySQL and rows.Next call it.
unfoldable pub read_all : List TypeScaleValue → ℕ → List ColumnInfo → List (Result Scanned)
read_all values i [] = []
read_all values i (c ∷ cs) = get_value values (pos i) c.type_id ∷ read_all values (suc i) cs

-- Each value is written for its column, and reads as the value beside it.
abbrev pub RowWritesAs :
    GoLib → List BinaryTupleColumn → List ColumnInfo → List Value → List Scanned → Type 0
RowWritesAs lib [] [] [] [] = Unit
RowWritesAs lib (c ∷ cs) (i ∷ is) (v ∷ vs) (s ∷ ss) =
    WritesAs lib c v i.type_id i.precision s × RowWritesAs lib cs is vs ss
RowWritesAs lib _ _ _ _ = ⊥

-- The payloads that the row is written as.
abbrev pub chunks :
    (lib : GoLib) (cols : List BinaryTupleColumn) (infos : List ColumnInfo) (vals : List Value)
    (outs : List Scanned)
    → RowWritesAs lib cols infos vals outs
    → List Bytes
chunks lib [] [] [] [] w = []
chunks lib (c ∷ cs) (i ∷ is) (v ∷ vs) (s ∷ ss) (w, ws) = w.0 ∷ chunks lib cs is vs ss ws
chunks lib _ _ _ _ w = []

abbrev pub oks : List Scanned → List (Result Scanned)
oks [] = []
oks (s ∷ ss) = ok s ∷ oks ss

chunks-Encodes :
    (lib : GoLib) (cols : List BinaryTupleColumn) (infos : List ColumnInfo) (vals : List Value)
    (outs : List Scanned) (w : RowWritesAs lib cols infos vals outs)
    → Encodes lib cols vals (chunks lib cols infos vals outs w) × (length infos ≡ length cols)
chunks-Encodes lib [] [] [] [] w = (tt, refl)
chunks-Encodes lib (c ∷ cs) (i ∷ is) (v ∷ vs) (s ∷ ss) (w, ws) =
    let (e, l) = chunks-Encodes lib cs is vs ss ws in ((w.1, e), ap suc l)
chunks-Encodes lib _ _ _ _ w = absurd w

scan-null : (precision : ℤ) (raw : Bytes) → scan type_null precision raw ≡ ok Scanned.nil
unfolding scan scan_payload
scan-null precision [] = refl
scan-null precision (b ∷ raw) = refl

scan_elem-some :
    (t : TypeId) (v : TypeScaleValue) → scan_elem t (some v) ≡ scan t v.precision v.value
unfolding scan_elem
scan_elem-some type_null v = sym (scan-null v.precision v.value)
scan_elem-some _ v = refl

-- GetValue at the index behind `front`.
get_value-at :
    (front back : List TypeScaleValue) (v : TypeScaleValue) (i : ℕ) (t : TypeId)
    → length front ≡ i
    → get_value (front ++ (v ∷ back)) (pos i) t ≡ scan t v.precision v.value
unfolding get_value
get_value-at front back v i t l =
    let k : i ≡ length front + 0 = omega arith in
    let e : get_elem? (front ++ (v ∷ back)) i ≡ some v =
      ap (get_elem? (front ++ (v ∷ back))) k ∙ get_elem?-append_right front (v ∷ back) 0 in
    rw
      (
        le→ltb_false (length (front ++ (v ∷ back))) i
            (omega (arith, length-append front (v ∷ back))),
        e,
      )
      (scan_elem-some t v)

read_all-at :
    (lib : GoLib) (cols : List BinaryTupleColumn) (infos : List ColumnInfo) (vals : List Value)
    (outs : List Scanned) (w : RowWritesAs lib cols infos vals outs)
    (front values : List TypeScaleValue) (i : ℕ)
    → length front ≡ i
    → values ≡ front ++ read_back infos (chunks lib cols infos vals outs w)
    → read_all values i infos ≡ oks outs
unfolding read_all
read_all-at lib [] [] [] [] w front values i l e = refl
read_all-at lib (c ∷ cs) (j ∷ js) (v ∷ vs) (s ∷ ss) (w, ws) front values i l e =
    let x : TypeScaleValue = record {
      type_id = j.type_id;
      scale = j.scale;
      precision = j.precision;
      value = arrange j.type_id w.0;
    } in
    let rest : List TypeScaleValue = read_back js (chunks lib cs js vs ss ws) in
    let here : get_value values (pos i) j.type_id ≡ ok s =
      ap (λ t. get_value t (pos i) j.type_id) e ∙ get_value-at front rest x i j.type_id l ∙ w.2 in
    rw
      (
        here,
        read_all-at lib cs js vs ss ws (front ++ x ∷ []) values (suc i)
            (length-append front (x ∷ []) ∙ omega arith)
            (e ∙ sym (append_assoc front (x ∷ []) rest)),
      )
      refl
read_all-at lib _ _ _ _ w front values i l e = absurd w

-- A row of fewer than 2 ^ 31 columns in which each value is written for its column and reads as a
-- value s, of less than 2 ^ 31 bytes, goes through the whole path: BuildBinaryTuple accepts it,
-- the reader accepts the tuple, and GetValue gives, column after column, exactly these values.
pub row_round_trip :
    (lib : GoLib) (cols : List BinaryTupleColumn) (infos : List ColumnInfo) (vals : List Value)
    (outs : List Scanned) (w : RowWritesAs lib cols infos vals outs)
    → length cols < 2 ^ 31
    → length (area (chunks lib cols infos vals outs w)) < 2 ^ 31
    → (out : Bytes) × (values : List TypeScaleValue) × (build_binary_tuple lib cols vals ≡ ok out)
      × (new_tuple infos out ≡ ok values)
      × (read_all values 0 infos ≡ oks outs)
row_round_trip lib cols infos vals outs w lc la =
    let ps = chunks lib cols infos vals outs w in
    let (enc, li) = chunks-Encodes lib cols infos vals outs w in
    let (out, built, taken) = new_tuple-build lib cols vals ps infos enc li lc la in
    (
      out,
      read_back infos ps,
      built,
      taken,
      read_all-at lib cols infos vals outs w [] (read_back infos ps) 0 refl refl,
    )
