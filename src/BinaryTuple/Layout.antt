-- ===== src/BinaryTuple/Layout.antt =====
-- What BuildBinaryTuple lays out: header, offset table and value area of the encoded elements.
use ignite3_go_client.Base.{
  ℕ, suc, ◌+◌, ◌%◌, ◌^◌, ◌<◌, List, [], ◌∷◌, ◌++◌, Bytes, length, length-append, ◌≡◌, refl, ap, sym,
  ◌∙◌, arith, ◌==◌, if◌then◌else◌, true, leb, ==_iff,
}
use mathlib.Core.List.{append_assoc, append-nil}
use ignite3_go_client.Base.Result.{ok}
use ignite3_go_client.Values.{Value, GoLib}
use ignite3_go_client.BinaryTuple.{
  BinaryTupleColumn, element, append_value, area_loop, entry_log, offset_table, build_binary_tuple,
  count,
}

-- Each value is encoded for its column as the payload beside it.
abbrev pub Encodes : GoLib → List BinaryTupleColumn → List Value → List Bytes → Type 0
Encodes lib [] [] [] = Unit
Encodes lib (c ∷ cs) (v ∷ vs) (p ∷ ps) = (element lib c v ≡ ok p) × Encodes lib cs vs ps
Encodes lib _ _ _ = ⊥

abbrev pub area : List Bytes → Bytes
area [] = []
area (p ∷ ps) = p ++ area ps

-- The end of each payload, from `acc` on.
abbrev pub ends : ℕ → List Bytes → List ℕ
ends acc [] = []
ends acc (p ∷ ps) = (acc + length p) ∷ ends (acc + length p) ps

abbrev pub int32s : List ℕ → List ℕ
int32s [] = []
int32s (o ∷ os) = (o % 2 ^ 32) ∷ int32s os

pub Encodes-length :
    (lib : GoLib) (cols : List BinaryTupleColumn) (vals : List Value) (chunks : List Bytes)
    → Encodes lib cols vals chunks
    → (length vals ≡ length cols) × (length chunks ≡ length cols)
Encodes-length lib [] [] [] h = (refl, refl)
Encodes-length lib [] [] (p ∷ ps) h = absurd h
Encodes-length lib [] (v ∷ vs) ps h = absurd h
Encodes-length lib (c ∷ cs) [] ps h = absurd h
Encodes-length lib (c ∷ cs) (v ∷ vs) [] h = absurd h
Encodes-length lib (c ∷ cs) (v ∷ vs) (p ∷ ps) h =
    let (a, b) = Encodes-length lib cs vs ps h.1 in (ap suc a, ap suc b)

pub area_loop-Encodes :
    (lib : GoLib) (cols : List BinaryTupleColumn) (vals : List Value) (chunks : List Bytes)
    (buf : Bytes) (offsets : List ℕ)
    → Encodes lib cols vals chunks
    → area_loop lib cols vals buf offsets
      ≡ ok (buf ++ area chunks, offsets ++ int32s (ends (length buf) chunks))
unfolding area_loop append_value
area_loop-Encodes lib [] [] [] buf offsets h = rw (append-nil, append-nil)
area_loop-Encodes lib [] [] (p ∷ ps) buf offsets h = absurd h
area_loop-Encodes lib [] (v ∷ vs) ps buf offsets h = absurd h
area_loop-Encodes lib (c ∷ cs) [] ps buf offsets h = absurd h
area_loop-Encodes lib (c ∷ cs) (v ∷ vs) [] buf offsets h = absurd h
area_loop-Encodes lib (c ∷ cs) (v ∷ vs) (p ∷ ps) buf offsets h = rw h.0 (
    area_loop-Encodes lib cs vs ps (buf ++ p) (offsets ++ (length (buf ++ p) % 2 ^ 32) ∷ []) h.1
    ∙ simp (append_assoc, length-append {0}))

-- The log of the entry size for a value area that is not too big.
abbrev pub chosen_log : ℕ → ℕ
chosen_log len = if leb len 0xff then 0 else if leb len 0xffff then 1 else 2

entry_log-chosen : (len : ℕ) → len < 2 ^ 31 → entry_log len ≡ ok (chosen_log len)
unfolding entry_log
entry_log-chosen len h = ground arith

-- Where every value is encoded and the area fits, the tuple is one byte of header, a table of the
-- ends in entries of 1, 2 or 4 bytes, and the payloads.
pub build-Encodes :
    (lib : GoLib) (cols : List BinaryTupleColumn) (vals : List Value) (chunks : List Bytes)
    → Encodes lib cols vals chunks
    → length (area chunks) < 2 ^ 31
    → build_binary_tuple lib cols vals
      ≡ ok (
          chosen_log (length (area chunks))
            ∷ offset_table (2 ^ chosen_log (length (area chunks))) (int32s (ends 0 chunks))
          ++ area chunks)
unfolding build_binary_tuple
build-Encodes lib cols vals chunks h l =
    let e : (count cols == count vals) ≡ true =
      (==_iff _ _).1 (sym (Encodes-length lib cols vals chunks h).0) in
    rw (e, area_loop-Encodes lib cols vals chunks [] [] h, entry_log-chosen _ l) refl
