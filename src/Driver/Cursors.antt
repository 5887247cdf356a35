-- ===== src/Driver/Cursors.antt =====
-- The cursor of a query through database/sql: Close does not reach the server, and Next does not read past
-- the first page.
use ignite3_go_client.Base.{
  ℕ, zero, suc, List, Bytes, Option, none, true, some, length, ◌==◌, if_elim, subst, ◌≡◌, refl, sym,
  ap, ◌∙◌,
}
use ignite3_go_client.Base.Int.{pos}
use ignite3_go_client.Base.Result.{Result, ok, err, panic, or_wrap, ok_inj, >>=-eq-ok}
use ignite3_go_client.ColumnTypes.Lookup.{same_int}
use ignite3_go_client.ResultSets.Metadata.{read_metadata}
use ignite3_go_client.ResultSets.Rows.{
  Cell, Connection, Outcome, Rows, panicked, close, next, take_row, finish, from_bytes,
  from_response, row_cells, paged, positive,
}
use ignite3_go_client.Msgpack.{Decoder}
use ignite3_go_client.Client.{Socket, Client, Protocol}
use ignite3_go_client.Queries.{QueryPacker, resource_close}
use ignite3_go_client.Queries.Results.{Header, zero_header, read_resource_id, read_query_header}
use ignite3_go_client.Driver.{
  ConnInfo, Conn, NamedValue, read_count, new_rows, conn_resource_close, query_next_page,
  driver_connection,
}

module _ {M : Type 0} (d : Decoder M) where
  -- ReadQuerySQLResponseHeader leaves the response id of the result that it is given.
  response_id-read_query_header :
      (result h : Header) (m m' : M)
      → read_query_header d result m ≡ ok (h, m')
      → h.response_id ≡ result.response_id
  unfolding read_query_header
  response_id-read_query_header result h m m' e =
      let (id, _, e1) = >>=-eq-ok (read_resource_id d m) _ e in
      let (row_set, _, e2) = >>=-eq-ok (or_wrap _ (d.decode_bool id.1)) _ e1 in
      let (more, _, e3) = >>=-eq-ok (or_wrap _ (d.decode_bool row_set.1)) _ e2 in
      let (applied, _, e4) = >>=-eq-ok (or_wrap _ (d.decode_bool more.1)) _ e3 in
      let (affected, _, e5) = >>=-eq-ok (or_wrap _ (d.decode_int64 applied.1)) _ e4 in
      ap (λ (x : Header × M). x.0.response_id) (sym (ok_inj e5))

  id-new_rows : (m : M) (r : Rows M) → new_rows d m ≡ ok r → r.id ≡ pos 0
  unfolding new_rows
  id-new_rows m r e =
      let (h, eh, e1) = >>=-eq-ok (read_query_header d zero_header m) _ e in
      let (c, _, e2) = >>=-eq-ok (read_metadata d h.1) _ e1 in
      let (n, _, e3) = >>=-eq-ok (read_count d h.0.has_row_set c.1) _ e2 in
      ap (λ (x : Rows M). x.id) (sym (ok_inj e3))
      ∙ response_id-read_query_header zero_header h.0 m h.1 eh

module _ {M W : Type 0} (p : Protocol M) (s : Socket W) (k : QueryPacker)
    (sort : List NamedValue → List NamedValue) (info : ConnInfo) (c : Client W)
    (connected : c.connected ≡ true) where
  abbrev pub conn_of : Conn W
  conn_of = record { info = info; client = some c }

  zero_closed : conn_resource_close p s k sort (pos 0) conn_of ≡ (ok tt, conn_of)
  unfolding conn_resource_close resource_close
  zero_closed = rw connected refl

  conn : Connection M (Conn W)
  conn = driver_connection p s k sort

  -- The id of the rows and the connection are as they were.
  abbrev Same : Rows M → Outcome × Rows M × Conn W → Type 0
  Same r out = (out.1.id ≡ r.id) × (out.2 ≡ conn_of)

  finish-Same : (r : Rows M) (c : Result (List Cell)) → Same r (finish conn r conn_of c)
  unfolding finish
  finish-Same r (ok cs) = (refl, refl)
  finish-Same r (err e) = (refl, refl)
  finish-Same r panic = (refl, refl)

  from_bytes-Same : (r : Rows M) (b : Result (Bytes × M)) → Same r (from_bytes conn r conn_of b)
  unfolding from_bytes
  from_bytes-Same r (ok (bs, m)) =
      finish-Same (record r { response = some m }) (row_cells r.metadata bs)
  from_bytes-Same r (err e) = (refl, refl)
  from_bytes-Same r panic = (refl, refl)

  from_response-Same : (r : Rows M) (m : Option M) → Same r (from_response conn r conn_of m)
  unfolding from_response
  from_response-Same r none = (refl, refl)
  from_response-Same r (some m) = from_bytes-Same r (conn.read_bytes m)

  next-Same : (width : ℕ) (r : Rows M) → Same r (next conn width r conn_of)
  unfolding next take_row paged query_next_page conn
  next-Same width r =
      if_elim (Same r) (same_int r.rows_left (pos 0)) _ _
        (λ _. if_elim (Same r) r.has_more _ _ (λ _. rw connected (refl, refl)) (λ _. (refl, refl)))
        (λ _.
          if_elim (Same r) (length r.metadata == width) _ _ (λ _. from_response-Same r r.response)
            (λ _. (refl, refl)))

  -- The rows and the connection after `n` calls of Next
  abbrev pub advanced : ℕ → ℕ → Rows M → Conn W → Rows M × Conn W
  advanced zero width r c = (r, c)
  advanced (suc n) width r c =
      let (o, r', c') = next (driver_connection p s k sort) width r c in advanced n width r' c'

  advanced-same :
      (n width : ℕ) (r : Rows M) (c : Conn W)
      → c ≡ conn_of
      → ((advanced n width r c).0.id ≡ r.id) × ((advanced n width r c).1 ≡ conn_of)
  advanced-same zero width r c e = (refl, e)
  advanced-same (suc n) width r c e =
      let kept : Same r (next (driver_connection p s k sort) width r c) =
        subst (λ x. Same r (next (driver_connection p s k sort) width r x)) (sym e)
          (unfold conn in next-Same width r) in
      let (id, same) =
        advanced-same n width (next (driver_connection p s k sort) width r c).1
          (next (driver_connection p s k sort) width r c).2 kept.1 in
      (id ∙ kept.0, same)

  close_zero :
      (r : Rows M)
      → r.id ≡ pos 0
      → ((close (driver_connection p s k sort) r conn_of).0 ≡ ok tt)
        × ((close (driver_connection p s k sort) r conn_of).2 ≡ conn_of)
  unfolding close
  close_zero r e =
      let id : conn_resource_close p s k sort r.id conn_of ≡ (ok tt, conn_of) =
        ap (λ i. conn_resource_close p s k sort i conn_of) e ∙ zero_closed in
      if_elim (λ (out : Result (Unit {0}) × Rows M × Conn W). (out.0 ≡ ok tt) × (out.2 ≡ conn_of))
        (positive r.rows_left)
        (
          (conn_resource_close p s k sort r.id conn_of).0,
          record r { rows_left = pos 0 },
          (conn_resource_close p s k sort r.id conn_of).1,
        )
        (ok tt, r, conn_of)
        (λ _. (
          ap (λ (x : Result (Unit {0}) × Conn W). x.0) id,
          ap (λ (x : Result (Unit {0}) × Conn W). x.1) id,
        ))
        (λ _. (refl, refl))

  -- Whatever the server answered to a query over a connected client, and however often Next was called on
  -- its rows, closing them reports no error and leaves the connection exactly as it was when the rows were
  -- made: nothing was sent by Next, and nothing is by Close.
  pub close-new_rows :
      (m : M) (r : Rows M) (n width : ℕ)
      → new_rows p.decoder m ≡ ok r
      → ((close
            (driver_connection p s k sort)
            (advanced n width r conn_of).0
            (advanced n width r conn_of).1).0
          ≡ ok tt)
        × ((close
              (driver_connection p s k sort)
              (advanced n width r conn_of).0
              (advanced n width r conn_of).1).2
            ≡ conn_of)
  close-new_rows m r n width e =
      let (id, same) = advanced-same n width r conn_of refl in
      let rows = (advanced n width r conn_of).0 in
      subst
        (λ c.
          ((close (driver_connection p s k sort) rows c).0 ≡ ok tt)
          × ((close (driver_connection p s k sort) rows c).2 ≡ conn_of))
        (sym same) (close_zero rows (id ∙ id-new_rows p.decoder m r e))

  -- Where the server has further pages, Next panics on the connected client as soon as the first page is
  -- used up.
  pub next-new_page :
      (width : ℕ) (r : Rows M)
      → r.rows_left ≡ pos 0
      → r.has_more ≡ true
      → (next (driver_connection p s k sort) width r conn_of).0 ≡ panicked
  unfolding next query_next_page paged
  next-new_page width r el em =
      let done : same_int r.rows_left (pos 0) ≡ true = ap (λ z. same_int z (pos 0)) el in
      rw (done) (rw em (rw connected refl))
