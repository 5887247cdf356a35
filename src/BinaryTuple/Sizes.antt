-- ===== src/BinaryTuple/Sizes.antt =====
-- The size of a tuple, when BuildBinaryTuple gives one.
use ignite3_go_client.Base.{
  ℕ, suc, ◌+◌, ◌*◌, ◌^◌, ◌<◌, ◌≤◌, List, [], ◌∷◌, ◌++◌, Bytes, All, length, length-append, ◌≡◌, ◌⊎◌,
  inl, inr, refl, ap, sym, ◌∙◌, subst, arith, ◌==◌, leb, Bool-cases, ==_iff, if_elim, leb→le,
}
use ignite3_go_client.Base.Result.{ok, or_wrap, >>=-eq-ok, or_wrap-eq-ok, ok_inj}
use ignite3_go_client.Values.{Value, GoLib}
use ignite3_go_client.Tuples.Loop.{length-table}
use ignite3_go_client.Tuples.RoundTrip.{chosen_good}
use ignite3_go_client.BinaryTuple.{
  BinaryTupleColumn, element, append_value, area_loop, entry_log, offset_table, build_binary_tuple,
  count,
}
use ignite3_go_client.BinaryTuple.Layout.{
  Encodes, area, ends, int32s, chosen_log, build-Encodes, Encodes-length, area_loop-Encodes,
}

-- A loop that ends has encoded every value.
area_loop-inverse :
    (lib : GoLib) (cols : List BinaryTupleColumn) (vals : List Value) (buf : Bytes)
    (offsets : List ℕ) (out : Bytes × List ℕ)
    → length cols ≡ length vals
    → area_loop lib cols vals buf offsets ≡ ok out
    → (chunks : List Bytes) × Encodes lib cols vals chunks
unfolding area_loop append_value
area_loop-inverse lib [] [] buf offsets out n e = ([], tt)
area_loop-inverse lib [] (v ∷ vs) buf offsets out n e = absurd (omega arith)
area_loop-inverse lib (c ∷ cs) [] buf offsets out n e = absurd (omega arith)
area_loop-inverse lib (c ∷ cs) (v ∷ vs) buf offsets out n e =
    let (buf', e1, rest) =
      >>=-eq-ok (or_wrap "binary tuple: column %d" (append_value lib buf c v)) _ e in
    let (p, e2, _) = >>=-eq-ok (element lib c v) _ (or_wrap-eq-ok _ _ e1) in
    let (ps, more) = area_loop-inverse lib cs vs buf' _ out (omega arith) rest in
    (p ∷ ps, (e2, more))

entry_log-eq-ok : (len log : ℕ) → entry_log len ≡ ok log → len < 2 ^ 31
unfolding entry_log
entry_log-eq-ok len log e = ground arith

ends-le :
    (acc max : ℕ) (ps : List Bytes)
    → acc + length (area ps) ≤ max
    → All (λ o. o ≤ max) (ends acc ps)
ends-le acc max [] h = tt
ends-le acc max (p ∷ ps) h =
    let l = length-append p (area ps) in
    (omega (arith, l), ends-le (acc + length p) max ps (omega (arith, l)))

All-weaken : (m n : ℕ) (xs : List ℕ) → m < n → All (λ o. o ≤ m) xs → All (λ o. o < n) xs
All-weaken m n [] l h = tt
All-weaken m n (x ∷ xs) l h = (omega arith, All-weaken m n xs l h.1)

-- The sizes of a tuple with these payloads, whose offsets are written in 2 ^ log bytes each.
pub record HasSizes (log : ℕ) (chunks : List Bytes) (tuple : Bytes) : Type 0 where
  pub header : (rest : Bytes) × (tuple ≡ log ∷ rest)
  pub total : length tuple ≡ 1 + length chunks * 2 ^ log + length (area chunks)
  pub small : length (area chunks) < 2 ^ 31
  pub wide : All (λ o. o < 256 ^ (2 ^ log)) (ends 0 chunks)
  pub least : (log ≡ 0) ⊎ ((n : ℕ) × (log ≡ suc n) × (256 ^ (2 ^ n) ≤ length (area chunks)))

Chosen : ℕ → ℕ → Type 0
Chosen len log =
    (len < 256 ^ (2 ^ log)) × ((log ≡ 0) ⊎ ((n : ℕ) × (log ≡ suc n) × (256 ^ (2 ^ n) ≤ len)))

chosen_log-Chosen : (len : ℕ) → len < 2 ^ 31 → Chosen len (chosen_log len)
unfolding Chosen
chosen_log-Chosen len h =
    if_elim (Chosen len) (leb len 0xff) _ _ (λ x. (omega (arith, leb→le _ _ x), inl refl))
      λ x.
        if_elim (Chosen len) (leb len 0xffff) _ _
          (λ y. (omega (arith, leb→le _ _ y), inr (0, refl, ground arith)))
          (λ y. (omega arith, inr (1, refl, ground arith)))

laid_out :
    (chunks : List Bytes)
    → length (area chunks) < 2 ^ 31
    → HasSizes (chosen_log (length (area chunks))) chunks (
        chosen_log (length (area chunks))
          ∷ offset_table (2 ^ chosen_log (length (area chunks))) (int32s (ends 0 chunks))
        ++ area chunks)
unfolding Chosen
laid_out chunks small =
    let len = length (area chunks) in
    let c = chosen_log-Chosen len small in
    let table = offset_table (2 ^ chosen_log len) (int32s (ends 0 chunks)) in
    record {
      header = (table ++ area chunks, refl);
      total = omega (
        arith,
        length-append table (area chunks),
        length-table (2 ^ chosen_log len) len (chosen_good len small).0 0 chunks,
      );
      small = small;
      wide = All-weaken len _ (ends 0 chunks) c.0 (ends-le 0 len chunks (omega arith));
      least = c.1;
    }

-- A tuple that BuildBinaryTuple gives holds the encoding of every value. It is one byte of header, an
-- offset for each column and the payloads, of less than 2 GiB; the offsets are not cut off in the
-- entry size of the header, and no smaller size would hold the last of them.
pub build_binary_tuple-HasSizes :
    (lib : GoLib) (cols : List BinaryTupleColumn) (vals : List Value) (tuple : Bytes)
    → build_binary_tuple lib cols vals ≡ ok tuple
    → (chunks : List Bytes) × Encodes lib cols vals chunks
      × (length chunks ≡ length cols)
      × HasSizes (chosen_log (length (area chunks))) chunks tuple
unfolding build_binary_tuple
build_binary_tuple-HasSizes lib cols vals tuple e = elim (Bool-cases (count cols == count vals)) [
  | inl same ↦
      let e1 = rw same at e in
      let (out, e2, e3) = >>=-eq-ok (area_loop lib cols vals [] []) _ e1 in
      let (log, e4, _) = >>=-eq-ok (entry_log (length out.0)) _ e3 in
      let (chunks, enc) = area_loop-inverse lib cols vals [] [] out ((==_iff _ _).0 same) e2 in
      let ends_at : area chunks ≡ out.0 =
        ap (λ (o : Bytes × List ℕ). o.0)
          (ok_inj (sym (area_loop-Encodes lib cols vals chunks [] [] enc) ∙ e2)) in
      let small : length (area chunks) < 2 ^ 31 =
        omega (arith, ap length ends_at, entry_log-eq-ok (length out.0) log e4) in
      (
        chunks,
        enc,
        (Encodes-length lib cols vals chunks enc).1,
        subst (HasSizes (chosen_log (length (area chunks))) chunks)
            (ok_inj
              (sym (build-Encodes lib cols vals chunks enc small) ∙ unfold build_binary_tuple in e))
            (laid_out chunks small),
      )
  | inr differ ↦ let e1 = rw differ at e in (cc)
]
