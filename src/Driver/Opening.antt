-- ===== src/Driver/Opening.antt =====
-- From a data source name to a connection: Open and OpenConnector of sql/driver.go and
-- sql/driver-go1.10.go, the connector of sql/connector.go, Connect of sql/v1/conn.go, and the dialling in
-- Connect of binary/v1/client.go.
pub mod Outcomes
use ignite3_go_client.Base.{
  ℕ, ◌+◌, ◌*◌, ◌%◌, ◌^◌, List, [], ◌∷◌, Bytes, Bool, true, false, Option, none, some, String,
  if◌then◌else◌,
}
use ignite3_go_client.Base.Int.{ℤ, pos, negsuc, signed}
use ignite3_go_client.Base.Result.{Result, ok, err, panic, Error, errorf, or_wrap, ◌>>=◌}
use ignite3_go_client.ColumnTypes.Lookup.{same_int}
use ignite3_go_client.ResultSets.Rows.{positive}
use ignite3_go_client.Client.{Socket, Client, Protocol}
use ignite3_go_client.Client.Handshake.{
  AuthInfo, TextPacker, RequestHandshake, new_request_handshake, connect,
}
use ignite3_go_client.Driver.{ConnInfo, Conn}
use ignite3_go_client.Driver.DataSources.{UrlLib, DataSource, parse_url}

-- net.Dialer and crypto/tls, with the Timeout of the dialer in nanoseconds, the network and the address,
-- and for TLS InsecureSkipVerify. `address` is fmt.Sprintf("%s:%d").
pub record Dialer (W : Type 0) : Type 0 where
  pub dial : ℤ → String → String → Result W
  pub dial_with_dialer : ℤ → String → String → Bool → Result W
  pub address : String → ℤ → String

-- What a handshake takes of Go's library: strings.EqualFold, msgpack, and the order of a map.
pub record Greeter : Type 0 where
  pub equal_fold : Bytes → Bytes → Bool
  pub text_packer : TextPacker
  pub order : AuthInfo → AuthInfo

-- `time.Duration(ci.Timeout) * time.Millisecond` on an int64, where the timeout is positive; the zero
-- Dialer has no timeout.
unfoldable pub dialer_timeout : ℤ → ℤ
dialer_timeout (pos n) = signed (2 ^ 63) (n * 1000000 % 2 ^ 64)
dialer_timeout (negsuc n) = pos 0

-- A result, and the connection that was opened on the way to it.
abbrev pub Opened : Type 0 → Type 0 → Type 0
Opened W A = Result A × Option (Client W)

-- `fmt.Errorf("failed to create client: %v", err)`: the error is only a text in the new one.
abbrev pub mention : {A : Type 0} → String → Result A → Result A
mention m (ok a) = ok a
mention m (err e) = err (record { status = none; trail = m ∷ e.trail })
mention m panic = panic

-- OpenConnector: the connector keeps what the name says.
unfoldable pub open_connector : UrlLib → String → Result DataSource
open_connector lib name = or_wrap "failed to parse connection name" (parse_url lib name)

abbrev pub conn_info_of : DataSource → ConnInfo
conn_info_of ds = record {
  schema = ds.schema;
  page_size = ds.settings.page_size;
  timeout = ds.settings.timeout;
}

abbrev pub connection_of : {W : Type 0} → DataSource → Client W → Conn W
connection_of ds client = record { info = conn_info_of ds; client = some client }

module _ {M W : Type 0} (p : Protocol M) (s : Socket W) (dialer : Dialer W) (g : Greeter) where
  unfoldable pub dialled : ℤ → DataSource → Result W
  dialled timeout ds =
      let address = dialer.address ds.host ds.port in
      elim ds.tls_config [
        | none ↦ dialer.dial timeout ds.network address
        | some skip ↦ dialer.dial_with_dialer timeout ds.network address skip
      ]

  abbrev pub greeting_of : DataSource → RequestHandshake
  greeting_of ds =
      let version = ds.settings.version in
      new_request_handshake g.order version.0 version.1 version.2 ds.settings.username
        ds.settings.password

  -- The end of Connect of the client, on the outcome of its handshake.
  abbrev pub with_client_made : Result (Unit {0}) × Client W → Opened W (Client W)
  with_client_made (ok x, c) = (ok c, some c)
  with_client_made (err e, c) = (err e, some c)
  with_client_made (panic, c) = (panic, some c)

  unfoldable pub greet : DataSource → Result W → Opened W (Client W)
  greet ds (ok w) = with_client_made (connect p s g.equal_fold g.text_packer (greeting_of ds) w)
  greet ds (err e) = (or_wrap "failed to open connection" (err e), none)
  greet ds panic = (panic, none)

  unfoldable pub client_connect : ℤ → DataSource → Opened W (Client W)
  client_connect timeout ds = greet ds (dialled timeout ds)

  -- Connect of sql/v1/conn.go
  unfoldable pub connect_v1 : DataSource → Opened W (Conn W)
  connect_v1 ds =
      let (made, socket) = client_connect (dialer_timeout ds.settings.timeout) ds in
      (
        (do client ← mention "failed to create client: %v" made; ok (connection_of ds client)),
        socket,
      )

  -- `switch c.info.Major`, in Connect of the connector and in Open
  unfoldable pub connector_connect : DataSource → Opened W (Conn W)
  connector_connect ds =
      let connected = connect_v1 ds in
      if same_int (ds.settings.version).0 (pos 3)
      then connected
      else (err (errorf "unsupported protocol version: v%d.%d.%d"), none)

  abbrev pub opened : Result DataSource → Opened W (Conn W)
  opened (ok ds) = connector_connect ds
  opened (err e) = (err e, none)
  opened panic = (panic, none)

  -- Open has the same switch as the connector.
  unfoldable pub driver_open : UrlLib → String → Opened W (Conn W)
  driver_open lib name = opened (open_connector lib name)
