-- ===== src/Client/Handshake/Greetings.antt =====
-- What a node answers to the handshake is read with every field.
use ignite3_go_client.Base.{ℕ, ◌^◌, ◌<◌, List, [], ◌∷◌, Bytes, true, String, All, length, take, ◌≡◌}
use ignite3_go_client.Base.Int.{ℤ, pos, Fits}
use ignite3_go_client.Base.Result.{ok}
use ignite3_go_client.Values.Uuids.{flip}
use ignite3_go_client.Msgpack.{Decoder, no_error}
use ignite3_go_client.Msgpack.Laws.{Encoder}
use ignite3_go_client.Client.Handshake.{ResponseHandshake}

-- What a node says of itself; a UUID is the sixteen bytes that are sent.
pub record Node : Type 0 where
  pub version : ℤ × ℤ × ℤ
  pub idle_timeout : ℤ
  pub id : Bytes
  pub name : String
  pub cluster_ids : List Bytes
  pub cluster_name : String
  pub observable_ts : ℤ
  pub dbms_version : ℕ × ℕ × ℕ
  pub dbms_patch : String
  pub dbms_pre_release : String
  pub features : Bytes

-- The numbers fit what the client reads them as; the idle timeout, an int64 in the response, is read as an
-- int8.
pub record IsSendable (n : Node) : Type 0 where
  pub major_fits : Fits (2 ^ 7) n.version.0
  pub minor_fits : Fits (2 ^ 7) n.version.1
  pub patch_fits : Fits (2 ^ 7) n.version.2
  pub idle_fits : Fits (2 ^ 7) n.idle_timeout
  pub id_fits : length n.id ≡ 16
  pub ids_fit : All (λ b. length b ≡ 16) n.cluster_ids
  pub count_fits : length n.cluster_ids < 2 ^ 8
  pub ts_fits : Fits (2 ^ 63) n.observable_ts
  pub dbms_major_fits : n.dbms_version.0 < 2 ^ 8
  pub dbms_minor_fits : n.dbms_version.1 < 2 ^ 8
  pub dbms_maintenance_fits : n.dbms_version.2 < 2 ^ 8

-- The values of one byte, and nil as an interface{}.
pub record ReadsSmall {M : Type 0} (d : Decoder M) (e : Encoder M) : Type 0 where
  pub int8_back : (z : ℤ) (m : M) → Fits (2 ^ 7) z → d.decode_int8 (e.put_int z m) ≡ ok (z, m)
  pub uint8_back : (n : ℕ) (m : M) → n < 2 ^ 8 → d.decode_uint8 (e.put_int (pos n) m) ≡ ok (n, m)
  pub nil_back : (m : M) → d.decode_interface (e.put_nil m) ≡ ok (no_error, m)

-- The UUID that sixteen bytes on the wire stand for.
abbrev pub uuid_from : Bytes → Bytes
uuid_from b = flip (take 16 b)

abbrev pub uuids_from : List Bytes → List Bytes
uuids_from [] = []
uuids_from (b ∷ bs) = uuid_from b ∷ uuids_from bs

abbrev pub response_of : Node → ResponseHandshake
response_of n = record {
  success = true;
  version = n.version;
  idle_timeout = n.idle_timeout;
  cluster_node_id = uuid_from n.id;
  cluster_node_name = n.name;
  cluster_ids = uuids_from n.cluster_ids;
  cluster_name = n.cluster_name;
  observable_ts = n.observable_ts;
  dbms_version = n.dbms_version;
  dbms_ver_patch = n.dbms_patch;
  dbms_ver_pre_release = n.dbms_pre_release;
  features = n.features;
}

module _ {M : Type 0} (e : Encoder M) where
  abbrev pub put_ids : List Bytes → M → M
  put_ids [] m = m
  put_ids (b ∷ bs) m = e.put_ext b (put_ids bs m)

  abbrev pub put_version : ℤ × ℤ × ℤ → M → M
  put_version v m = e.put_int v.0 (e.put_int v.1 (e.put_int v.2 m))

  abbrev pub put_cluster : Node → M → M
  put_cluster n m = e.put_ext n.id (
      e.put_string n.name (
        e.put_int (pos (length n.cluster_ids))
          (put_ids n.cluster_ids (e.put_string n.cluster_name m))))

  abbrev pub put_dbms : Node → M → M
  put_dbms n m = e.put_int (pos n.dbms_version.0) (
      e.put_int (pos n.dbms_version.1) (
        e.put_int (pos n.dbms_version.2)
          (e.put_string n.dbms_patch (e.put_string n.dbms_pre_release (e.put_bytes n.features m)))))

  -- The message: the version, nil in place of an error, and the node.
  abbrev pub put_node : Node → M → M
  put_node n m = put_version n.version (
      e.put_nil
        (e.put_int n.idle_timeout (put_cluster n (e.put_int n.observable_ts (put_dbms n m)))))
