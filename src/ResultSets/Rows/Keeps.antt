-- ===== src/ResultSets/Rows/Keeps.antt =====
-- What Next and Close may do to the connection.
use ignite3_go_client.Base.{ℕ, Bytes, List, Option, none, some, length, ◌==◌, if_elim}
use ignite3_go_client.Base.Int.{ℤ, pos}
use ignite3_go_client.Base.Result.{Result, ok, err, panic, Error}
use ignite3_go_client.ColumnTypes.Lookup.{same_int}
use ignite3_go_client.ResultSets.Rows.{
  Cell, Connection, Rows, Outcome, row_cells, positive, close, give_up, finish, from_bytes,
  from_response, take_row, counted, paged, next,
}

-- `P` is kept by the operations of the connection that rows call.
module _ {M W : Type 0} (conn : Connection M W) (P : W → Type 0)
    (pages : (id : ℤ) (w : W) → P w → P (conn.query_next_page id w).1)
    (closes : (id : ℤ) (w : W) → P w → P (conn.resource_close id w).1) where
  abbrev Kept : Outcome × Rows M × W → Type 0
  Kept out = P out.2

  pub close-keeps : (r : Rows M) (w : W) → P w → P (close conn r w).2
  unfolding close
  close-keeps r w h =
      if_elim (λ (out : Result (Unit {0}) × Rows M × W). P out.2) (positive r.rows_left) _ _
        (λ _. closes r.id w h) (λ _. h)

  give_up-keeps : (e : Error) (r : Rows M) (w : W) → P w → Kept (give_up conn e r w)
  unfolding give_up
  give_up-keeps e r w h = close-keeps r w h

  finish-keeps : (r : Rows M) (w : W) (res : Result (List Cell)) → P w → Kept (finish conn r w res)
  unfolding finish
  finish-keeps r w (ok cs) h = h
  finish-keeps r w (err e) h = h
  finish-keeps r w panic h = h

  from_bytes-keeps :
      (r : Rows M) (w : W) (res : Result (Bytes × M)) → P w → Kept (from_bytes conn r w res)
  unfolding from_bytes
  from_bytes-keeps r w (ok (bs, m)) h = finish-keeps _ w (row_cells r.metadata bs) h
  from_bytes-keeps r w (err e) h = h
  from_bytes-keeps r w panic h = h

  from_response-keeps : (r : Rows M) (w : W) (m : Option M) → P w → Kept (from_response conn r w m)
  unfolding from_response
  from_response-keeps r w none h = h
  from_response-keeps r w (some m) h = from_bytes-keeps r w (conn.read_bytes m) h

  take_row-keeps : (width : ℕ) (r : Rows M) (w : W) → P w → Kept (take_row conn width r w)
  unfolding take_row
  take_row-keeps width r w h =
      if_elim Kept (length r.metadata == width) _ _ (λ _. from_response-keeps r w r.response h)
        (λ _. h)

  counted-keeps :
      (width : ℕ) (r : Rows M) (w : W) (n : Result (ℤ × M)) → P w → Kept (counted conn width r w n)
  unfolding counted
  counted-keeps width r w (ok (n, m)) h = take_row-keeps width _ w h
  counted-keeps width r w (err e) h = give_up-keeps _ r w h
  counted-keeps width r w panic h = h

  paged-keeps :
      (width : ℕ) (r : Rows M) (page : Result M × W) → P page.1 → Kept (paged conn width r page)
  unfolding paged
  paged-keeps width r (ok m, w) h = counted-keeps width _ w (conn.read_int m) h
  paged-keeps width r (err e, w) h = give_up-keeps _ _ w h
  paged-keeps width r (panic, w) h = h

  pub next-keeps : (width : ℕ) (r : Rows M) (w : W) → P w → P (next conn width r w).2
  unfolding next
  next-keeps width r w h =
      if_elim Kept (same_int r.rows_left (pos 0)) _ _
        (λ _.
          if_elim Kept r.has_more _ _
            (λ _. paged-keeps width r (conn.query_next_page r.id w) (pages r.id w h)) (λ _. h))
        (λ _. take_row-keeps width r w h)
