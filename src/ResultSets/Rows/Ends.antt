-- ===== src/ResultSets/Rows/Ends.antt =====
-- A loop over rows.Next ends.
use ignite3_go_client.Base.{
  ℕ, zero, suc, List, [], ◌∷◌, Bytes, false, Option, none, some, length, ◌==◌, if_elim, ◌≡◌, refl,
  sym, subst, ap, ◌∙◌,
}
use ignite3_go_client.Base.Int.{pos}
use ignite3_go_client.Base.Result.{Result, ok, err, panic}
use ignite3_go_client.ResultSets.Rows.{
  Cell, Connection, Rows, Outcome, row, eof, failed, panicked, row_cells, decrement, finish,
  from_bytes, from_response, take_row,
}
use ignite3_go_client.ResultSets.Rows.Cursor.{nexts, next-eof, next-take_row}

-- Some call gives no row, which ends `for rows.Next()`.
abbrev pub Stops : List Outcome → Type 0
Stops [] = ⊥
Stops (row cs ∷ os) = Stops os
Stops (eof ∷ os) = Unit
Stops (failed e ∷ os) = Unit
Stops (panicked ∷ os) = Unit

module _ {M W : Type 0} (conn : Connection M W) (width : ℕ) where
  -- A row is counted, and leaves the flag of more pages.
  abbrev Taken : Rows M → Outcome × Rows M × W → Type 0
  Taken r (row cs, r', w') = (r'.rows_left ≡ decrement r.rows_left) × (r'.has_more ≡ r.has_more)
  Taken r (eof, r', w') = Unit
  Taken r (failed e, r', w') = Unit
  Taken r (panicked, r', w') = Unit

  finish-Taken : (r : Rows M) (w : W) (c : Result (List Cell)) → Taken r (finish conn r w c)
  unfolding finish
  finish-Taken r w (ok cs) = (refl, refl)
  finish-Taken r w (err e) = tt
  finish-Taken r w panic = tt

  from_bytes-Taken : (r : Rows M) (w : W) (b : Result (Bytes × M)) → Taken r (from_bytes conn r w b)
  unfolding from_bytes
  from_bytes-Taken r w (ok (bs, m)) =
      finish-Taken (record r { response = some m }) w (row_cells r.metadata bs)
  from_bytes-Taken r w (err e) = tt
  from_bytes-Taken r w panic = tt

  from_response-Taken : (r : Rows M) (w : W) (m : Option M) → Taken r (from_response conn r w m)
  unfolding from_response
  from_response-Taken r w none = tt
  from_response-Taken r w (some m) = from_bytes-Taken r w (conn.read_bytes m)

  take_row-Taken : (r : Rows M) (w : W) → Taken r (take_row conn width r w)
  unfolding take_row
  take_row-Taken r w =
      if_elim (Taken r) (length r.metadata == width) _ _ (λ _. from_response-Taken r w r.response)
        (λ _. tt)

  behind :
      (n : ℕ) (r : Rows M)
      → ((r' : Rows M) (w' : W)
          → r'.has_more ≡ false
          → r'.rows_left ≡ pos n
          → Stops (nexts conn width (suc n) r' w'))
      → r.has_more ≡ false
      → r.rows_left ≡ pos (suc n)
      → (o : Outcome × Rows M × W) → Taken r o
      → Stops (o.0 ∷ nexts conn width (suc n) o.1 o.2)
  behind n r go last left (row cs, r', w') t = go r' w' (t.1 ∙ last) (t.0 ∙ ap decrement left)
  behind n r go last left (eof, r', w') t = tt
  behind n r go last left (failed e, r', w') t = tt
  behind n r go last left (panicked, r', w') t = tt

  -- On the last page, of `n` rows by the count of the server, one of n + 1 calls of Next gives the end, an
  -- error or a panic, whatever the message holds: the loop over the rows makes at most n rounds.
  pub nexts-Stops :
      (n : ℕ) (r : Rows M) (w : W)
      → r.has_more ≡ false
      → r.rows_left ≡ pos n
      → Stops (nexts conn width (suc n) r w)
  nexts-Stops zero r w last left =
      subst (λ (o : Outcome × Rows M × W). Stops (o.0 ∷ []))
        (sym (next-eof conn width r w left last)) tt
  nexts-Stops (suc n) r w last left =
      subst (λ (o : Outcome × Rows M × W). Stops (o.0 ∷ nexts conn width (suc n) o.1 o.2))
        (sym (next-take_row conn width r w n left))
        (behind n r (nexts-Stops n) last left (take_row conn width r w) (take_row-Taken r w))
