-- ===== src/ResultSets/Rows/Cursor.antt =====
-- Next over the life of a cursor.
use ignite3_go_client.Base.{
  ℕ, zero, suc, List, [], ◌∷◌, Bytes, true, false, Option, none, some, All, length, ◌==◌,
  if◌then◌else◌, if_elim, ◌≡◌, ◌≢◌, refl, ap, ◌∙◌, arith, ==_iff,
}
use ignite3_go_client.Base.Int.{ℤ, pos}
use ignite3_go_client.Base.Result.{Result, ok, err, panic, Error}
use ignite3_go_client.ColumnTypes.Lookup.{same_int}
use ignite3_go_client.ResultSets.{ColumnMetadata}
use ignite3_go_client.ResultSets.Rows.{
  Cell, Connection, Rows, Outcome, row, eof, row_cells, positive, decrement, close, give_up, finish,
  from_bytes, from_response, take_row, counted, paged, next,
}

not_zero : (n : ℕ) → (suc n == 0) ≡ false
not_zero n = ground arith

module _ {M W : Type 0} (conn : Connection M W) (width : ℕ) where
  -- The outcomes of the calls of Next, one after the other.
  abbrev pub nexts : ℕ → Rows M → W → List Outcome
  nexts zero r w = []
  nexts (suc n) r w = let (o, r', w') = next conn width r w in o ∷ nexts n r' w'

  -- What a call of Next on a cursor with more pages leaves.
  record Open (o : Outcome × Rows M × W) : Type 0 where
    more : o.1.has_more ≡ true
    going : o.0 ≢ eof

  finish-Open :
      (r : Rows M) (w : W) (c : Result (List Cell)) → r.has_more ≡ true → Open (finish conn r w c)
  unfolding finish
  finish-Open r w (ok cs) h = record { more = h; going = cc }
  finish-Open r w (err e) h = record { more = h; going = cc }
  finish-Open r w panic h = record { more = h; going = cc }

  close-has_more : (r : Rows M) (w : W) → (close conn r w).1.has_more ≡ r.has_more
  unfolding close
  close-has_more r w =
      if_elim (λ (x : Result (Unit {0}) × Rows M × W). x.1.has_more ≡ r.has_more)
        (positive r.rows_left) _ _ (λ _. refl) (λ _. refl)

  give_up-Open : (e : Error) (r : Rows M) (w : W) → r.has_more ≡ true → Open (give_up conn e r w)
  unfolding give_up
  give_up-Open e r w h = record { more = close-has_more r w ∙ h; going = cc }

  from_bytes-Open :
      (r : Rows M) (w : W) (b : Result (Bytes × M))
      → r.has_more ≡ true
      → Open (from_bytes conn r w b)
  unfolding from_bytes
  from_bytes-Open r w (ok (bs, m)) h =
      finish-Open (record r { response = some m }) w (row_cells r.metadata bs) h
  from_bytes-Open r w (err e) h = record { more = h; going = cc }
  from_bytes-Open r w panic h = record { more = h; going = cc }

  from_response-Open :
      (r : Rows M) (w : W) (m : Option M) → r.has_more ≡ true → Open (from_response conn r w m)
  unfolding from_response
  from_response-Open r w none h = record { more = h; going = cc }
  from_response-Open r w (some m) h = from_bytes-Open r w (conn.read_bytes m) h

  take_row-Open : (r : Rows M) (w : W) → r.has_more ≡ true → Open (take_row conn width r w)
  unfolding take_row
  take_row-Open r w h =
      if_elim Open (length r.metadata == width) _ _ (λ _. from_response-Open r w r.response h)
        (λ _. record { more = h; going = cc })

  counted-Open :
      (r : Rows M) (w : W) (c : Result (ℤ × M))
      → r.has_more ≡ true
      → Open (counted conn width r w c)
  unfolding counted
  counted-Open r w (ok (n, m)) h = take_row-Open (record r { response = some m; rows_left = n }) w h
  counted-Open r w (err e) h = give_up-Open _ r w h
  counted-Open r w panic h = record { more = h; going = cc }

  paged-Open : (r : Rows M) (p : Result M × W) → r.has_more ≡ true → Open (paged conn width r p)
  unfolding paged
  paged-Open r (ok m, w) h = counted-Open (record r { response = some m }) w (conn.read_int m) h
  paged-Open r (err e, w) h = give_up-Open _ (record r { response = none }) w h
  paged-Open r (panic, w) h = record { more = h; going = cc }

  next-Open : (r : Rows M) (w : W) → r.has_more ≡ true → Open (next conn width r w)
  unfolding next
  next-Open r w h =
      if_elim Open (same_int r.rows_left (pos 0)) _ _
        (λ _.
          if_elim Open r.has_more _ _ (λ _. paged-Open r (conn.query_next_page r.id w) h)
            (λ closed. absurd (cc)))
        (λ _. take_row-Open r w h)

  -- Nothing ever clears has_more: if the first page of a query says that there are more pages, Next
  -- never reports the end of the rows, whatever the server answers and however often it is called.
  pub nexts-never_eof :
      (n : ℕ) (r : Rows M) (w : W) → r.has_more ≡ true → All (λ o. o ≢ eof) (nexts n r w)
  nexts-never_eof zero r w h = tt
  nexts-never_eof (suc n) r w h =
      let o = next-Open r w h in
      (o.going, nexts-never_eof n (next conn width r w).1 (next conn width r w).2 o.more)

  -- The message `m` holds the tuples of the rows `rs`, and perhaps more.
  abbrev pub Supplies : List ColumnMetadata → M → List (List Cell) → Type 0
  Supplies metadata m [] = Unit
  Supplies metadata m (cs ∷ rs) =
      (bs : Bytes) × (m' : M) × (conn.read_bytes m ≡ ok (bs, m'))
      × (row_cells metadata bs ≡ ok cs)
      × Supplies metadata m' rs

  pub next-eof :
      (r : Rows M) (w : W)
      → r.rows_left ≡ pos 0
      → r.has_more ≡ false
      → next conn width r w ≡ (eof, r, w)
  unfolding next
  next-eof r w left more =
      let test : same_int r.rows_left (pos 0) ≡ true = rw left refl in
      rw test
        (ap (λ b. if b then paged conn width r (conn.query_next_page r.id w) else (eof, r, w)) more)

  pub next-take_row :
      (r : Rows M) (w : W) (n : ℕ)
      → r.rows_left ≡ pos (suc n)
      → next conn width r w ≡ take_row conn width r w
  unfolding next
  next-take_row r w n left =
      let test : same_int r.rows_left (pos 0) ≡ false = rw left (not_zero n) in rw test refl

  take_row-row :
      (r : Rows M) (w : W) (m m' : M) (bs : Bytes) (cs : List Cell)
      → r.response ≡ some m
      → length r.metadata ≡ width
      → conn.read_bytes m ≡ ok (bs, m')
      → row_cells r.metadata bs ≡ ok cs
      → take_row conn width r w
        ≡ (row cs, record r { response = some m'; rows_left = decrement r.rows_left }, w)
  unfolding take_row
  take_row-row r w m m' bs cs at wide rd cells = rw ((==_iff (length r.metadata) width).1 wide) (
      ap (from_response conn r w) at
      ∙ unfold from_response in
        ap (from_bytes conn r w) rd
        ∙ unfold from_bytes in
          ap (finish conn (record r { response = some m' }) w) cells ∙ unfold finish in refl)

  abbrev pub then_eof : List (List Cell) → List Outcome
  then_eof [] = eof ∷ []
  then_eof (cs ∷ rs) = row cs ∷ then_eof rs

  -- With no more pages, with as many rows left as the message holds rows that can be read, and
  -- with a destination as wide as the columns, Next gives these rows in order, and then the end.
  pub nexts-drain :
      (rs : List (List Cell)) (r : Rows M) (w : W) (m : M)
      → r.has_more ≡ false
      → r.rows_left ≡ pos (length rs)
      → r.response ≡ some m
      → length r.metadata ≡ width
      → Supplies r.metadata m rs
      → nexts (suc (length rs)) r w ≡ then_eof rs
  nexts-drain [] r w m more left at wide s = ap (λ o. o.0 ∷ []) (next-eof r w left more)
  nexts-drain (cs ∷ rs) r w m more left at wide (bs, m', rd, cells, s) =
      let after : Rows M = record r { response = some m'; rows_left = decrement r.rows_left } in
      let fewer : decrement r.rows_left ≡ pos (length rs) = rw left refl in
      ap (λ o. o.0 ∷ nexts (suc (length rs)) o.1 o.2)
        (next-take_row r w (length rs) left ∙ take_row-row r w m m' bs cs at wide rd cells)
      ∙ ap (λ os. row cs ∷ os) (nexts-drain rs after w m' more fewer refl wide s)
