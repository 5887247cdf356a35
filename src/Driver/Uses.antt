-- ===== src/Driver/Uses.antt =====
-- The uses that database/sql makes of a connection and of its rows, in any order.
use ignite3_go_client.Base.{
  ℕ, List, Bool, Option, none, some, String, ◌≡◌, refl, ap, sym, subst, ◌∙◌,
}
use ignite3_go_client.Base.Int.{ℤ}
use ignite3_go_client.Base.Result.{ok, err, wrapf}
use ignite3_go_client.ResultSets.Rows.{Cell, Rows, next, close}
use ignite3_go_client.ResultSets.Rows.Keeps.{next-keeps, close-keeps}
use ignite3_go_client.Client.{Socket, Client, Protocol}
use ignite3_go_client.Queries.{QueryPacker}
use ignite3_go_client.Driver.{
  ConnInfo, Conn, NamedValue, bad_conn, conn_resource_close, query_next_page, exec_context,
  query_context, close_conn, driver_connection,
}
use ignite3_go_client.Driver.Statements.{prepare_stmt, ping, first_row}
use ignite3_go_client.Driver.Lifecycle.{
  IsIntact, with_client-IsIntact, exec_context-IsIntact, query_context-IsIntact, next-IsIntact,
  close-IsIntact, ping-IsIntact,
}

module _ {M W : Type 0} (p : Protocol M) (s : Socket W) (k : QueryPacker)
    (sort : List NamedValue → List NamedValue) where
  -- One use, which a statement makes too. Begin, and the rest of a statement, leave the connection alone.
  pub data Use : Conn W → Conn W → Type 0 where
    prepares : (query : String) (c : Conn W) → Use c (prepare_stmt query c).1
    executes :
        (now : ℤ) (query : String) (args : List NamedValue) (c : Conn W)
        → Use c (exec_context p s k sort now query args c).1
    queries :
        (now : ℤ) (query : String) (args : List NamedValue) (c : Conn W)
        → Use c (query_context p s k sort now query args c).1
    pings : (is_one : Cell → Bool) (now : ℤ) (c : Conn W) → Use c (ping p s k sort is_one now c).1
    advances :
        (width : ℕ) (r : Rows M) (c : Conn W)
        → Use c (next (driver_connection p s k sort) width r c).2
    closes_rows : (r : Rows M) (c : Conn W) → Use c (close (driver_connection p s k sort) r c).2
    closes : (c : Conn W) → Use c (close_conn p s k sort c).1

  pub data Life (start : Conn W) : Conn W → Type 0 where
    fresh : Life start start
    used : {c c' : Conn W} → Life start c → Use c c' → Life start c'

  close_conn-IsIntact :
      (info : ConnInfo) (i : ConnInfo) (client : Option (Client W))
      → IsIntact info (record { info = i; client = client })
      → IsIntact info (close_conn p s k sort (record { info = i; client = client })).1
  unfolding close_conn
  close_conn-IsIntact info i none h = h
  close_conn-IsIntact info i (some client) h = (h.0, tt)

  Use-IsIntact : (info : ConnInfo) {c c' : Conn W} → Use c c' → IsIntact info c → IsIntact info c'
  Use-IsIntact info (prepares query c) h =
      unfold prepare_stmt in with_client-IsIntact info _ c (λ client. refl) h
  Use-IsIntact info (executes now query args c) h =
      exec_context-IsIntact p s k sort info now query args c h
  Use-IsIntact info (queries now query args c) h =
      query_context-IsIntact p s k sort info now query args c h
  Use-IsIntact info (pings is_one now c) h = ping-IsIntact p s k sort info is_one now c h
  Use-IsIntact info (advances width r c) h = next-IsIntact p s k sort info width r c h
  Use-IsIntact info (closes_rows r c) h = close-IsIntact p s k sort info r c h
  Use-IsIntact info (closes c) h = close_conn-IsIntact info c.info c.client h

  -- A connection whose client is connected keeps its settings under every sequence of uses, and its
  -- client stays connected until Close takes it away: no use leaves a client that has lost its net.Conn.
  pub Life-IsIntact :
      {start c : Conn W} → Life start c → IsIntact start.info start → IsIntact start.info c
  Life-IsIntact fresh h = h
  Life-IsIntact {start} (used before use_of) h =
      Use-IsIntact start.info use_of (Life-IsIntact before h)

  -- What the operations do on a connection without a client.
  pub record IsShut (c : Conn W) : Type 0 where
    pub prepare_fails : (query : String) → prepare_stmt query c ≡ (err bad_conn, c)
    pub exec_fails :
        (now : ℤ) (query : String) (args : List NamedValue)
        → exec_context p s k sort now query args c ≡ (err bad_conn, c)
    pub query_fails :
        (now : ℤ) (query : String) (args : List NamedValue)
        → query_context p s k sort now query args c ≡ (err bad_conn, c)
    pub ping_fails :
        (is_one : Cell → Bool) (now : ℤ)
        → ping p s k sort is_one now c ≡ (err (wrapf bad_conn "failed to execute ping query"), c)
    pub page_fails : (id : ℤ) → query_next_page p s k sort id c ≡ (err bad_conn, c)
    pub close_cursor_fails : (id : ℤ) → conn_resource_close p s k sort id c ≡ (err bad_conn, c)
    pub close_again : close_conn p s k sort c ≡ (ok tt, c)

  no_client-IsShut : (i : ConnInfo) → IsShut (record { info = i; client = none })
  unfolding prepare_stmt exec_context query_context ping first_row query_next_page
      conn_resource_close close_conn
  no_client-IsShut i = record {
    prepare_fails = λ query. refl;
    exec_fails = λ now query args. refl;
    query_fails = λ now query args. refl;
    ping_fails = λ is_one now. refl;
    page_fails = λ id. refl;
    close_cursor_fails = λ id. refl;
    close_again = refl;
  }

  abbrev shut : ConnInfo → Conn W
  shut i = record { info = i; client = none }

  close_conn-shut :
      (i : ConnInfo) (client : Option (Client W))
      → (close_conn p s k sort (record { info = i; client = client })).1 ≡ shut i
  unfolding close_conn
  close_conn-shut i none = refl
  close_conn-shut i (some client) = refl

  module _ (i : ConnInfo) where
    page-shut : (id : ℤ) (c : Conn W) → c ≡ shut i → (query_next_page p s k sort id c).1 ≡ shut i
    page-shut id c e = rw (e, (no_client-IsShut i).page_fails id) refl

    cursor-shut :
        (id : ℤ) (c : Conn W) → c ≡ shut i → (conn_resource_close p s k sort id c).1 ≡ shut i
    cursor-shut id c e = rw (e, (no_client-IsShut i).close_cursor_fails id) refl

    Use-shut : {c c' : Conn W} → Use c c' → c ≡ shut i → c' ≡ shut i
    Use-shut (prepares query c) e = rw (e, (no_client-IsShut i).prepare_fails query) refl
    Use-shut (executes now query args c) e =
        rw (e, (no_client-IsShut i).exec_fails now query args) refl
    Use-shut (queries now query args c) e =
        rw (e, (no_client-IsShut i).query_fails now query args) refl
    Use-shut (pings is_one now c) e = rw (e, (no_client-IsShut i).ping_fails is_one now) refl
    Use-shut (advances width r c) e =
        next-keeps (driver_connection p s k sort) (λ c. c ≡ shut i) page-shut cursor-shut width r c
          e
    Use-shut (closes_rows r c) e =
        close-keeps (driver_connection p s k sort) (λ c. c ≡ shut i) page-shut cursor-shut r c e
    Use-shut (closes c) e = rw (e, (no_client-IsShut i).close_again) refl

    Life-shut : {start c : Conn W} → Life start c → start ≡ shut i → c ≡ shut i
    Life-shut fresh e = e
    Life-shut (used before use_of) e = Use-shut use_of (Life-shut before e)

  -- After Close, whatever it returned, the connection is shut for good: no sequence of uses changes
  -- it. Prepare, queries, pages and cursors report driver.ErrBadConn and Ping wraps it, and closing
  -- again does nothing.
  pub close_conn-forever :
      (c c' : Conn W)
      → Life (close_conn p s k sort c).1 c'
      → (c' ≡ (close_conn p s k sort c).1) × (c'.client ≡ none) × IsShut c'
  close_conn-forever c c' l =
      let e = close_conn-shut c.info c.client in
      let e' = Life-shut c.info l e in
      (
        e' ∙ sym e,
        ap (λ (x : Conn W). x.client) e',
        subst IsShut (sym e') (no_client-IsShut c.info),
      )
