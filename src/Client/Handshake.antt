-- ===== src/Client/Handshake.antt =====
-- The handshake: binary/v1/request-handshake.go, binary/v1/response-handshake.go, WritePackedMap of
-- binary/v1/types.go, and Connect of binary/v1/client.go. What it prints is left out.
pub mod Greetings
pub mod Reads
use ignite3_go_client.Base.{
  ℕ, zero, suc, ◌%◌, ◌^◌, List, [], ◌∷◌, ◌++◌, Bytes, Bool, true, false, String, ltb, not, length,
  take, drop, if◌then◌else◌,
}
use ignite3_go_client.Base.Int.{ℤ, pos, wrap}
use ignite3_go_client.Base.Result.{Result, ok, err, panic, errorf, or_wrap, guard, ◌>>=◌, ◌>>◌}
use ignite3_go_client.Wire.{be_bytes}
use ignite3_go_client.Requests.{read_frame}
use ignite3_go_client.Msgpack.{
  Decoder, ErrorObject, no_error, trace_id, other_object, read_packed_uuid,
}
use ignite3_go_client.Client.{Socket, Client, Protocol, Run, do_request, close_client}

-- "IGNI"
abbrev pub magic_bytes : Bytes
magic_bytes = 0x49 ∷ 0x47 ∷ 0x4e ∷ 0x49 ∷ []

-- A Go map: its entries, in the order in which `range` happens to visit them.
abbrev pub AuthInfo : Type 0
AuthInfo = List (String × String)

-- msgpack's encodings of a string and of a byte string
pub record TextPacker : Type 0 where
  pub pack_string : String → Bytes
  pub pack_bytes : Bytes → Bytes

-- The keys are sorted into a slice that nothing reads: the map is visited in its own order.
unfoldable pub packed_entries : TextPacker → AuthInfo → Bytes
packed_entries t [] = []
packed_entries t ((k, v) ∷ kvs) = t.pack_string k ++ (t.pack_string v ++ packed_entries t kvs)

unfoldable pub write_packed_map : TextPacker → AuthInfo → Bytes
write_packed_map t kvs = (length kvs % 256) ∷ packed_entries t kvs

pub record RequestHandshake : Type 0 where
  pub major : ℤ
  pub minor : ℤ
  pub patch : ℤ
  pub auth_info : AuthInfo

-- `order` is the order of the map.
unfoldable pub new_request_handshake :
    (AuthInfo → AuthInfo) → ℤ → ℤ → ℤ → String → String → RequestHandshake
new_request_handshake order major minor patch username password = record {
  major = major;
  minor = minor;
  patch = patch;
  auth_info =
      order
        (("authn-identity", username) ∷ ("authn-secret", password) ∷ ("authn-type", "basic") ∷ []);
}

unfoldable pub handshake_payload : TextPacker → RequestHandshake → Bytes
handshake_payload t r =
    wrap 256 r.major
    ∷ wrap 256 r.minor
    ∷ wrap 256 r.patch
    ∷ 2
    ∷ (t.pack_bytes (4 ∷ []) ++ write_packed_map t r.auth_info)

unfoldable pub handshake_frame : TextPacker → RequestHandshake → Bytes
handshake_frame t r =
    let buffer = handshake_payload t r in
    magic_bytes ++ (be_bytes 4 (length buffer % 2 ^ 32) ++ buffer)

pub record ResponseHandshake : Type 0 where
  pub success : Bool
  pub version : ℤ × ℤ × ℤ
  pub idle_timeout : ℤ
  pub cluster_node_id : Bytes
  pub cluster_node_name : String
  pub cluster_ids : List Bytes
  pub cluster_name : String
  pub observable_ts : ℤ
  pub dbms_version : ℕ × ℕ × ℕ
  pub dbms_ver_patch : String
  pub dbms_ver_pre_release : String
  pub features : Bytes

-- `fmt.Errorf(m, err)`
unfoldable pub renamed : {A : Type 0} → String → Result A → Result A
renamed m (ok a) = ok a
renamed m (err e) = err (errorf m)
renamed m panic = panic

module _ {M : Type 0} (d : Decoder M) where
  open d use {
    decode_int8, decode_uint8, decode_int64, decode_string, decode_bytes, decode_interface,
  }

  unfoldable pub read_version : M → Result ((ℤ × ℤ × ℤ) × M)
  read_version m = do
    (major, m1) ← or_wrap "failed to read server version major" (decode_int8 m)
    (minor, m2) ← or_wrap "failed to read server version minor" (decode_int8 m1)
    (patch, m3) ← or_wrap "failed to read server version patch" (decode_int8 m2)
    ok ((major, minor, patch), m3)

  -- `case *Uuid`: an error on every path. Its errors are not wrapped, but formatted into a new one.
  unfoldable pub read_refusal : M → Result (Unit {0})
  read_refusal m = do
    (_, m1) ← renamed "failed to read error code : %v\n" (decode_int64 m)
    (_, m2) ← renamed "failed to read error message : %v\n" (decode_string m1)
    (_, m3) ← renamed "failed to read error stack trace : %v\n" (decode_string m2)
    (_, _) ← renamed "failed to read error details : %v\n" (decode_string m3)
    err (errorf "handshake error %s : %s %s %s")

  -- What is no UUID passes, nil or not.
  unfoldable pub check_refusal : ErrorObject → M → Result (Unit {0})
  check_refusal no_error m = ok tt
  check_refusal (trace_id u) m = read_refusal m
  check_refusal other_object m = ok tt

  unfoldable pub read_cluster_ids : ℕ → M → Result (List Bytes × M)
  read_cluster_ids zero m = ok ([], m)
  read_cluster_ids (suc n) m = do
    (cu, m1) ← or_wrap "failed to read cluster node ID %d" (read_packed_uuid d m)
    (more, m2) ← read_cluster_ids n m1
    ok (cu ∷ more, m2)

  -- The node's id and name, the ids and the name of the cluster
  unfoldable pub read_cluster : M → Result ((Bytes × String × List Bytes × String) × M)
  read_cluster m = do
    (node, m1) ← or_wrap "failed to read cluster node ID" (read_packed_uuid d m)
    (name, m2) ← or_wrap "failed to read cluster node name" (decode_string m1)
    (count, m3) ← or_wrap "failed to read cluster id count" (decode_uint8 m2)
    (ids, m4) ← read_cluster_ids count m3
    (cluster, m5) ← or_wrap "failed to read cluster name" (decode_string m4)
    ok ((node, name, ids, cluster), m5)

  unfoldable pub read_dbms_version : M → Result ((ℕ × ℕ × ℕ) × M)
  read_dbms_version m = do
    (major, m1) ← or_wrap "failed to read DBMS major version" (decode_uint8 m)
    (minor, m2) ← or_wrap "failed to read DBMS minor version" (decode_uint8 m1)
    (maintenance, m3) ← or_wrap "failed to read DBMS maintenance version" (decode_uint8 m2)
    ok ((major, minor, maintenance), m3)

  -- The rest of the version of the DBMS, and the features
  unfoldable pub read_dbms_rest : M → Result (String × String × Bytes)
  read_dbms_rest m = do
    (patch, m1) ← or_wrap "failed to read DBMS patch version" (decode_string m)
    (pre, m2) ← or_wrap "failed to read DBMS pre release version" (decode_string m1)
    (features, _) ← or_wrap "failed to read features" (decode_bytes m2)
    ok (patch, pre, features)

  -- After the version and the error object
  unfoldable pub read_node : (ℤ × ℤ × ℤ) → M → Result ResponseHandshake
  read_node version m = do
    (t, m1) ← or_wrap "failed to read idle timeout" (decode_int8 m)
    ((node, name, ids, cluster), m2) ← read_cluster m1
    (ts, m3) ← or_wrap "failed to read observable timestamp" (decode_int64 m2)
    (dbms, m4) ← read_dbms_version m3
    (patch, pre, features) ← read_dbms_rest m4
    ok (record {
      success = true;
      version = version;
      idle_timeout = t;
      cluster_node_id = node;
      cluster_node_name = name;
      cluster_ids = ids;
      cluster_name = cluster;
      observable_ts = ts;
      dbms_version = dbms;
      dbms_ver_patch = patch;
      dbms_ver_pre_release = pre;
      features = features;
    })

  unfoldable pub read_handshake : M → Result ResponseHandshake
  read_handshake m = do
    (version, m1) ← read_version m
    (object, m2) ← or_wrap "failed to read error message" (decode_interface m1)
    check_refusal object m2
    read_node version m2

-- ReadFrom: the magic bytes, compared by strings.EqualFold, and the frame.
module _ {M : Type 0} (p : Protocol M) (equal_fold : Bytes → Bytes → Bool) where
  unfoldable pub read_greeting : Bytes → Bytes → Result ResponseHandshake
  read_greeting magic stream = do
    guard (equal_fold magic magic_bytes) (errorf "response magic bytes is not %s")
    (msg, _) ← read_frame stream
    read_handshake p.decoder (p.open_message msg)

  unfoldable pub read_hello : Bytes → Result ResponseHandshake
  read_hello stream =
      if ltb (length stream) 4
      then err (errorf "failed to read response magic bytes")
      else read_greeting (take 4 stream) (drop 4 stream)

-- Connect, after the connection is there: a handshake that fails closes it.
module _ {M W : Type 0} (p : Protocol M) (s : Socket W) where
  unfoldable pub settle : Result ResponseHandshake × Client W → Result (Unit {0}) × Client W
  settle (ok r, c) = if r.success then (ok tt, record c { request_id = pos 0 }) else (
    err (errorf "handshake failed: %s, server supported protocol version is v%d.%d.%d"),
    (close_client s c).1,
  )
  settle (err e, c) = (or_wrap "failed to make handshake" (err e), (close_client s c).1)
  settle (panic, c) = (panic, c)

  unfoldable pub connect :
      (Bytes → Bytes → Bool) → TextPacker → RequestHandshake → W → Result (Unit {0}) × Client W
  connect equal_fold t r w = settle (
      do_request s (handshake_frame t r) (read_hello p equal_fold)
        (record { connected = true; conn = w; request_id = pos 0 }))
