-- ===== src/Tests/Connections.antt =====
-- Connections through database/sql, from the data source name to Close.
use ignite3_go_client.Base.{
  ℕ, List, [], ◌∷◌, ◌++◌, Bytes, true, none, some, ◌≡◌, refl, inl, inr, arith,
}
use ignite3_go_client.Base.Int.{pos}
use ignite3_go_client.Base.Orders.{In, Ascends}
use ignite3_go_client.Base.Result.{ok, err, errorf}
use ignite3_go_client.Wire.{be_bytes, from_be}
use ignite3_go_client.Values.{Value}
use ignite3_go_client.Values.Uuids.{flip}
use ignite3_go_client.Requests.{read_frame, read_message}
use ignite3_go_client.Msgpack.{read_packed_uuid, unmarshal_uuid}
use ignite3_go_client.Queries.{query_payload}
use ignite3_go_client.Client.{do_request, Socket, Protocol}
use ignite3_go_client.Client.Calls.{at_server}
use ignite3_go_client.Client.Handshake.{
  connect, settle, read_greeting, read_handshake, read_version, check_refusal, read_node,
  read_cluster, read_cluster_ids, read_dbms_version, read_dbms_rest, magic_bytes, read_hello,
}
use ignite3_go_client.Client.Handshake.Greetings.{Node, put_node}
use ignite3_go_client.Driver.{Conn, NamedValue, exec_context, query_context, close_conn, query_of}
use ignite3_go_client.Driver.DataSources.{parse_url, read_params, UrlLib}
use ignite3_go_client.Driver.Opening.{
  connector_connect, connect_v1, client_connect, greet, dialled, dialer_timeout, Dialer, Greeter,
  driver_open, open_connector,
}
use ignite3_go_client.Driver.Opening.Outcomes.{IsOpenFor, driver_open-IsOpenFor}
use ignite3_go_client.Driver.Lifecycle.{IsIntact}
use ignite3_go_client.Driver.Uses.{
  fresh, used, executes, queries, IsShut, Life-IsIntact, close_conn-forever,
}
use ignite3_go_client.Driver.Ordinals.{by_ordinal, exec_context-ordinals}
use ignite3_go_client.Driver.Served.{Serves, exec_served, exec_context-exec_served}
use ignite3_go_client.Tests.Protocols.{protocol, echo, counter, echo_reaches, text_packer}
use ignite3_go_client.Tests.Queries.{query_packer, info, open_conn}
use ignite3_go_client.Tests.Sources.{url_lib}
use ignite3_go_client.Tests.Tokens.{Tokens, writer, tokens-IsLawful}

abbrev as_given : List NamedValue → List NamedValue
as_given args = args

-- The connection after a statement and a ping.
abbrev after_exec : Conn (ℕ × Bytes)
after_exec =
    (exec_context protocol echo query_packer as_given (pos 0) "DELETE FROM T" [] open_conn).1

Life-IsIntact_example : IsIntact info after_exec
Life-IsIntact_example =
    Life-IsIntact protocol echo query_packer as_given
      (used fresh (executes (pos 0) "DELETE FROM T" [] open_conn)) (refl, refl)

abbrev closed_conn : Conn (ℕ × Bytes)
closed_conn = (close_conn protocol echo query_packer as_given open_conn).1

abbrev queried : Conn (ℕ × Bytes)
queried = (query_context protocol echo query_packer as_given (pos 0) "SELECT 1" [] closed_conn).1

close_conn-forever_example :
    (queried ≡ closed_conn)
    × (queried.client ≡ none)
    × IsShut protocol echo query_packer as_given queried
close_conn-forever_example =
    close_conn-forever protocol echo query_packer as_given open_conn queried
      (used fresh (queries (pos 0) "SELECT 1" [] closed_conn))

-- Names that are parsed to a host.
abbrev host_lib : UrlLib
host_lib = record url_lib {
  parse = λ s. ok (record { scheme = "tcp"; hostname = s; port = ""; path = ""; query = [] });
}

abbrev dialer : Dialer (ℕ × Bytes)
dialer = record {
  dial = λ timeout network address. ok (0, []);
  dial_with_dialer = λ timeout network address skip. err (errorf "no TLS");
  address = λ host port. host;
}

abbrev greeter : Greeter
greeter = record { equal_fold = λ a b. true; text_packer = text_packer; order = λ kvs. kvs }

abbrev first : NamedValue
first = record { ordinal = pos 1; value = Value.int64 (pos 7) }

abbrev second : NamedValue
second = record { ordinal = pos 2; value = Value.nil }

abbrev in_order : List NamedValue
in_order = first ∷ second ∷ []

abbrev swapped : List NamedValue → List NamedValue
swapped (a ∷ b ∷ []) = b ∷ a ∷ []
swapped args = args

abbrev reversed : List NamedValue
reversed = second ∷ first ∷ []

in_order-Ascends : Ascends by_ordinal in_order
in_order-Ascends =
    ((λ y i. elim i [ inl e ↦ rw e refl | inr j ↦ absurd j ]), ((λ y i. absurd i), tt))

turned : (a : NamedValue) → In a in_order → In a reversed
turned a (inl e) = inr (inl e)
turned a (inr (inl e)) = inl e
turned a (inr (inr h)) = absurd h

turned_back : (a : NamedValue) → In a reversed → In a in_order
turned_back a (inl e) = inr (inl e)
turned_back a (inr (inl e)) = inl e
turned_back a (inr (inr h)) = absurd h

exec_context-ordinals_example :
    (exec_context protocol echo query_packer as_given (pos 0) "Q" in_order open_conn
      ≡ exec_context protocol echo query_packer swapped (pos 0) "Q" reversed open_conn)
    × (query_context protocol echo query_packer as_given (pos 0) "Q" in_order open_conn
        ≡ query_context protocol echo query_packer swapped (pos 0) "Q" reversed open_conn)
exec_context-ordinals_example =
    exec_context-ordinals as_given swapped in_order reversed
      (record { ascends = in_order-Ascends; only = λ a i. i; every = λ a i. i })
      (record { ascends = in_order-Ascends; only = turned; every = turned_back }) turned turned_back
      protocol echo query_packer (pos 0) "Q" open_conn

-- A node of one cluster.
abbrev node : Node
node = record {
  version = (pos 3, pos 0, pos 0);
  idle_timeout = pos 0;
  id = 1 ∷ 2 ∷ 3 ∷ 4 ∷ 5 ∷ 6 ∷ 7 ∷ 8 ∷ 9 ∷ 10 ∷ 11 ∷ 12 ∷ 13 ∷ 14 ∷ 15 ∷ 16 ∷ [];
  name = "node1";
  cluster_ids = [];
  cluster_name = "cluster";
  observable_ts = pos 5;
  dbms_version = (3, 1, 0);
  dbms_patch = "";
  dbms_pre_release = "";
  features = 4 ∷ [];
}

-- Every message is the greeting of that node.
abbrev node_protocol : Protocol Tokens
node_protocol = record protocol { open_message = λ b. put_node writer node [] }

-- Every response is the greeting of the node.
abbrev greets : Socket (ℕ × Bytes)
greets = record echo { receive = λ w. (magic_bytes ++ (be_bytes 4 2 ++ (8 ∷ 9 ∷ [])), (w.0, [])) }

-- The name is opened.
opens :
    (driver_open node_protocol greets dialer greeter host_lib "node1").0
    ≡ ok (record {
      info = record { schema = "PUBLIC"; page_size = pos 10000; timeout = pos 0 };
      client = some (record { connected = true; conn = (1, []); request_id = pos 0 });
    })
unfolding driver_open open_connector connector_connect connect_v1 client_connect greet dialled
    dialer_timeout connect settle do_request read_hello read_greeting read_handshake read_version
    check_refusal read_node read_cluster read_cluster_ids read_dbms_version read_dbms_rest
    read_frame read_message from_be parse_url read_params read_packed_uuid unmarshal_uuid flip
    be_bytes
opens = refl

driver_open-IsOpenFor_example :
    IsOpenFor greets
      (λ ds. open_connector host_lib "node1" ≡ ok ds)
      (driver_open node_protocol greets dialer greeter host_lib "node1")
driver_open-IsOpenFor_example =
    driver_open-IsOpenFor node_protocol greets dialer greeter host_lib "node1"

exec_context-exec_served_example :
    Serves protocol writer tokens-IsLawful echo counter echo_reaches query_packer as_given info
      (exec_served protocol counter
        (query_payload query_packer
          (pos 0)
          (query_of protocol echo query_packer as_given info (pos 10000) "DELETE FROM T" []))
        8
        5)
      (exec_context protocol echo query_packer as_given
        (pos 0)
        "DELETE FROM T"
        []
        (record { info = info; client = some (at_server (5, []) 8) }))
exec_context-exec_served_example =
    exec_context-exec_served protocol writer tokens-IsLawful echo counter echo_reaches query_packer
      as_given (pos 0) "DELETE FROM T" [] info (5, []) 8 5 (omega arith) refl
