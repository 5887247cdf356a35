-- ===== src/Driver/Lifecycle.antt =====
-- A connection from Open to Close, under any sequence of uses.
use ignite3_go_client.Base.{
  ℕ, List, [], Bool, true, Option, none, some, String, if_elim, ◌≡◌, refl, ◌∙◌,
}
use ignite3_go_client.Base.Int.{ℤ, pos}
use ignite3_go_client.Base.Result.{Result, ok, err, panic}
use ignite3_go_client.ColumnTypes.Lookup.{same_int}
use ignite3_go_client.ResultSets.Rows.{Cell, Rows, next, close}
use ignite3_go_client.ResultSets.Rows.Keeps.{next-keeps, close-keeps}
use ignite3_go_client.Client.{Socket, Client, Protocol, Run, call}
use ignite3_go_client.Client.Connected.{KeepsConnected, and_then-connected, call-connected}
use ignite3_go_client.Queries.{
  QueryPacker, QueryData, query_payload, query_sql_fields_raw, query_sql_fields, resource_close,
}
use ignite3_go_client.Queries.Results.{QueryResult}
use ignite3_go_client.Driver.{
  ConnInfo, Conn, NamedValue, ExecResult, bad_conn, with_client, conn_resource_close,
  query_next_page, finish_exec, exec_context, query_context, driver_connection,
}
use ignite3_go_client.Driver.Statements.{ping, first_row}

-- The client of an open connection is connected, so that isConnected is false for a closed one only.
abbrev pub HasLive : {W : Type 0} → Option (Client W) → Type 0
HasLive none = Unit
HasLive (some client) = client.connected ≡ true

module _ {W : Type 0} (info : ConnInfo) where
  -- A connection as it was opened: with the same settings, and not disconnected but by Close.
  abbrev pub IsIntact : Conn W → Type 0
  IsIntact c = (c.info ≡ info) × HasLive c.client

  kept :
      {A : Type 0} (op : Run W A) (i : ConnInfo) (client : Option (Client W))
      → KeepsConnected op
      → IsIntact (record { info = i; client = client })
      → IsIntact (with_client op (record { info = i; client = client })).1
  kept op i none k h = h
  kept {A} op i (some client) k (e, on) =
      if_elim (λ (out : Result A × Conn W). IsIntact out.1) client.connected
        ((op client).0, record { info = i; client = some (op client).1 })
        (err bad_conn, record { info = i; client = some client }) (λ _. (e, k client ∙ on))
        (λ _. (e, on))

  pub with_client-IsIntact :
      {A : Type 0} (op : Run W A) (c : Conn W)
      → KeepsConnected op
      → IsIntact c
      → IsIntact (with_client op c).1
  with_client-IsIntact op c k h = kept op c.info c.client k h

module _ {M W : Type 0} (p : Protocol M) (s : Socket W) (k : QueryPacker) where
  resource_close-connected : (id : ℤ) → KeepsConnected (resource_close p s k id)
  unfolding resource_close
  resource_close-connected id c =
      if_elim (λ (out : Result (Unit {0}) × Client W). out.1.connected ≡ c.connected)
        (same_int id (pos 0)) _ _ (λ _. refl)
        (λ _.
          and_then-connected c.connected (call p s _ _ [] c) _ (call-connected p s _ _ [] c)
            (λ m c'. refl))

  query_sql_fields_raw-connected :
      (now : ℤ) (q : QueryData) → KeepsConnected (query_sql_fields_raw p s k now q)
  unfolding query_sql_fields_raw
  query_sql_fields_raw-connected now q c =
      and_then-connected c.connected (query_payload k now q, c) _ refl
        (λ m. call-connected p s _ _ m)

  query_sql_fields-connected :
      (now : ℤ) (q : QueryData) → KeepsConnected (query_sql_fields p s k now q)
  unfolding query_sql_fields
  query_sql_fields-connected now q c =
      and_then-connected c.connected (query_sql_fields_raw p s k now q c) _
        (query_sql_fields_raw-connected now q c) (λ m c'. refl)

  finish_exec-connected :
      (sort : List NamedValue → List NamedValue) (r : QueryResult)
      → KeepsConnected (finish_exec p s k sort r)
  unfolding finish_exec
  finish_exec-connected sort r c =
      if_elim (λ (out : Result ExecResult × Client W). out.1.connected ≡ c.connected)
        r.header.has_more _ _ (λ _. resource_close-connected r.response_id c) (λ _. refl)

module _ {M W : Type 0} (p : Protocol M) (s : Socket W) (k : QueryPacker)
    (sort : List NamedValue → List NamedValue) where
  module _ (info : ConnInfo) where
    pub exec_context-IsIntact :
        (now : ℤ) (query : String) (args : List NamedValue) (c : Conn W)
        → IsIntact info c
        → IsIntact info (exec_context p s k sort now query args c).1
    unfolding exec_context
    exec_context-IsIntact now query args c = with_client-IsIntact info _ c λ client.
        and_then-connected client.connected (_, (query_sql_fields p s k now _ client).1) _
          (query_sql_fields-connected p s k now _ client) (finish_exec-connected p s k sort)

    pub query_context-IsIntact :
        (now : ℤ) (query : String) (args : List NamedValue) (c : Conn W)
        → IsIntact info c
        → IsIntact info (query_context p s k sort now query args c).1
    unfolding query_context
    query_context-IsIntact now query args c = with_client-IsIntact info _ c λ client.
        and_then-connected client.connected (_, (query_sql_fields_raw p s k now _ client).1) _
          (query_sql_fields_raw-connected p s k now _ client) (λ m client'. refl)

    pub conn_resource_close-IsIntact :
        (id : ℤ) (c : Conn W)
        → IsIntact info c
        → IsIntact info (conn_resource_close p s k sort id c).1
    unfolding conn_resource_close
    conn_resource_close-IsIntact id c =
        with_client-IsIntact info (resource_close p s k id) c (resource_close-connected p s k id)

    query_next_page-IsIntact :
        (id : ℤ) (c : Conn W) → IsIntact info c → IsIntact info (query_next_page p s k sort id c).1
    unfolding query_next_page
    query_next_page-IsIntact id c = with_client-IsIntact info _ c (λ client. refl)

    pub next-IsIntact :
        (width : ℕ) (r : Rows M) (c : Conn W)
        → IsIntact info c
        → IsIntact info (next (driver_connection p s k sort) width r c).2
    next-IsIntact =
        next-keeps (driver_connection p s k sort) (IsIntact info) query_next_page-IsIntact
          conn_resource_close-IsIntact

    pub close-IsIntact :
        (r : Rows M) (c : Conn W)
        → IsIntact info c
        → IsIntact info (close (driver_connection p s k sort) r c).2
    close-IsIntact =
        close-keeps (driver_connection p s k sort) (IsIntact info) query_next_page-IsIntact
          conn_resource_close-IsIntact

    first_row-IsIntact :
        (is_one : Cell → Bool) (out : Result (Rows M) × Conn W)
        → IsIntact info out.1
        → IsIntact info (first_row p s k sort is_one out).1
    unfolding first_row
    first_row-IsIntact is_one (ok r, c) h = next-IsIntact 1 r c h
    first_row-IsIntact is_one (err e, c) h = h
    first_row-IsIntact is_one (panic, c) h = h

    pub ping-IsIntact :
        (is_one : Cell → Bool) (now : ℤ) (c : Conn W)
        → IsIntact info c
        → IsIntact info (ping p s k sort is_one now c).1
    unfolding ping
    ping-IsIntact is_one now c h =
        first_row-IsIntact is_one (query_context p s k sort now "SELECT 1" [] c)
          (query_context-IsIntact now "SELECT 1" [] c h)
