-- ===== src/Driver/Opening/Outcomes.antt =====
-- What Open leaves behind, when it gives a connection and when it does not.
use ignite3_go_client.Base.{true, false, Option, none, some, String, if_elim, ◌≡◌, refl}
use ignite3_go_client.Base.Int.{pos}
use ignite3_go_client.Base.Result.{Result, ok, err, panic, ◌>>=◌}
use ignite3_go_client.ColumnTypes.Lookup.{same_int}
use ignite3_go_client.Client.{Socket, Client, Protocol}
use ignite3_go_client.Client.Handshake.{handshake_frame, connect}
use ignite3_go_client.Client.Handshake.Reads.{exchanged, Settled, connect-Settled}
use ignite3_go_client.Driver.{Conn}
use ignite3_go_client.Driver.DataSources.{UrlLib, DataSource}
use ignite3_go_client.Driver.Opening.{
  Dialer, Greeter, Opened, mention, dialer_timeout, dialled, greeting_of, with_client_made, greet,
  client_connect, connection_of, connect_v1, connector_connect, opened, driver_open, open_connector,
}

module _ {W : Type 0} (s : Socket W) where
  -- Nothing was dialled, or net.Conn.Close was called on the socket that was.
  abbrev pub NothingOpen : Option (Client W) → Type 0
  NothingOpen none = Unit
  NothingOpen (some c) = (w : W) × (c.connected ≡ false) × (c.conn ≡ (s.close_conn w).1)

  -- Nothing was dialled, or the socket that was is open still.
  abbrev pub NothingClosed : Option (Client W) → Type 0
  NothingClosed none = Unit
  NothingClosed (some c) = c.connected ≡ true

  abbrev ClientOutcome : Opened W (Client W) → Type 0
  ClientOutcome (ok c, o) = (c.connected ≡ true) × (c.request_id ≡ pos 0) × (o ≡ some c)
  ClientOutcome (err e, o) = NothingOpen o
  ClientOutcome (panic, o) = NothingClosed o

  -- A connection is to what the data source says: its version is 3, its schema, page size and timeout are
  -- those of the name, and its client is connected and gives the next request the id 0.
  abbrev pub IsOpenFor : (DataSource → Type 0) → Opened W (Conn W) → Type 0
  IsOpenFor Named (ok c, o) =
      (ds : DataSource) × Named ds
      × (same_int (ds.settings.version).0 (pos 3) ≡ true)
      × (c.info.schema ≡ ds.schema)
      × (c.info.page_size ≡ ds.settings.page_size)
      × (c.info.timeout ≡ ds.settings.timeout)
      × (client : Client W) × (c.client ≡ some client)
      × (client.connected ≡ true)
      × (client.request_id ≡ pos 0)
      × (o ≡ some client)
  IsOpenFor Named (err e, o) = NothingOpen o
  IsOpenFor Named (panic, o) = NothingClosed o

module _ {M W : Type 0} (p : Protocol M) (s : Socket W) (dialer : Dialer W) (g : Greeter) where
  made-ClientOutcome :
      (w : W) (out : Result (Unit {0}) × Client W)
      → Settled p s w out
      → ClientOutcome s (with_client_made p s dialer g out)
  made-ClientOutcome w (ok x, c) h = (h.0, h.1, refl)
  made-ClientOutcome w (err e, c) h = (w, h.0, h.1)
  made-ClientOutcome w (panic, c) h = h.0

  greet-ClientOutcome : (ds : DataSource) (w : Result W) → ClientOutcome s (greet p s dialer g ds w)
  unfolding greet
  greet-ClientOutcome ds (ok w) =
      made-ClientOutcome
        (exchanged p s (s.send (handshake_frame g.text_packer (greeting_of p s dialer g ds)) w))
        (connect p s g.equal_fold g.text_packer (greeting_of p s dialer g ds) w)
        (connect-Settled p s g.equal_fold g.text_packer (greeting_of p s dialer g ds) w)
  greet-ClientOutcome ds (err e) = tt
  greet-ClientOutcome ds panic = tt

  connection-IsOpenFor :
      (Named : DataSource → Type 0) (ds : DataSource) (out : Opened W (Client W))
      → Named ds
      → same_int (ds.settings.version).0 (pos 3) ≡ true
      → ClientOutcome s out
      → IsOpenFor s Named (
        (do client ← mention "failed to create client: %v" out.0; ok (connection_of ds client)),
        out.1,
      )
  connection-IsOpenFor Named ds (ok c, o) n v h =
      (ds, n, v, refl, refl, refl, c, refl, h.0, h.1, h.2)
  connection-IsOpenFor Named ds (err e, o) n v h = h
  connection-IsOpenFor Named ds (panic, o) n v h = h

  connector_connect-IsOpenFor :
      (Named : DataSource → Type 0) (ds : DataSource)
      → Named ds
      → IsOpenFor s Named (connector_connect p s dialer g ds)
  unfolding connector_connect connect_v1 client_connect
  connector_connect-IsOpenFor Named ds n =
      if_elim (IsOpenFor s Named) (same_int (ds.settings.version).0 (pos 3)) _ _
        (λ v.
          connection-IsOpenFor Named ds
            (greet p s dialer g ds (dialled p s dialer g (dialer_timeout ds.settings.timeout) ds)) n
            v (greet-ClientOutcome ds _))
        (λ _. tt)

  opened-IsOpenFor :
      (named : Result DataSource) → IsOpenFor s (λ ds. named ≡ ok ds) (opened p s dialer g named)
  opened-IsOpenFor (ok ds) = connector_connect-IsOpenFor (λ d. ok ds ≡ ok d) ds refl
  opened-IsOpenFor (err e) = tt
  opened-IsOpenFor panic = tt

  -- Open gives a connection only to a data source that the name is parsed to, of version 3, with the
  -- schema, the page size and the timeout of the name; its client is connected and numbers its next
  -- request 0. Where it returns an error, either nothing was dialled or net.Conn.Close was called on the
  -- socket that was. Where it panics after dialling, that socket stays open.
  pub driver_open-IsOpenFor :
      (lib : UrlLib) (name : String)
      → IsOpenFor s (λ ds. open_connector lib name ≡ ok ds) (driver_open p s dialer g lib name)
  unfolding driver_open
  driver_open-IsOpenFor lib name = opened-IsOpenFor (open_connector lib name)
