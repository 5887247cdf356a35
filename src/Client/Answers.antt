-- ===== src/Client/Answers.antt =====
-- What a server answers to an operation, and what the header of its message makes of it.
use ignite3_go_client.Base.{◌^◌, Bytes, true, String, length, take, ◌≡◌, refl, arith, ==_iff}
use ignite3_go_client.Base.Int.{ℤ, pos, negsuc, Fits, wrap, signed}
use ignite3_go_client.Base.Result.{Result, ok, err, new_error}
use ignite3_go_client.ColumnTypes.Lookup.{same_int}
use ignite3_go_client.Requests.{read_operation, read_error, check_status}
use ignite3_go_client.Msgpack.{
  unpacker, read_packed_uuid, read_packed_timestamp, timestamp_of, unmarshal_uuid,
}
use ignite3_go_client.Msgpack.Laws.{Encoder, IsLawful}
use ignite3_go_client.Values.Uuids.{flip}
use ignite3_go_client.Client.{Protocol, new_response, checked}

-- What a server answers: a body, a body after news of the partitions, or an error. A timestamp is the
-- integer that is sent for it, a UUID the sixteen bytes.
pub data Answer (M : Type 0) : Type 0 where
  reply : ℤ → M → Answer M
  moved : ℤ → ℤ → M → Answer M
  failure : ℤ → Bytes → ℤ → String → String → M → Answer M

abbrev pub IsSendable : {M : Type 0} → Answer M → Type 0
IsSendable (reply ts m) = Fits (2 ^ 63) ts
IsSendable (moved pts ts m) = Fits (2 ^ 63) pts × Fits (2 ^ 63) ts
IsSendable (failure ts id code message details m) =
    Fits (2 ^ 63) ts × (length id ≡ 16) × Fits (2 ^ 63) code

-- The message that carries an answer: the id, the flags, the timestamps, and the error.
abbrev pub put_answer : {M : Type 0} → Encoder M → ℤ → Answer M → M
put_answer e id (reply ts m) = e.put_int id (e.put_int (pos 0) (e.put_int ts m))
put_answer e id (moved pts ts m) = e.put_int id (e.put_int (pos 1) (e.put_int pts (e.put_int ts m)))
put_answer e id (failure ts uuid code message details m) = e.put_int id (
    e.put_int (pos 4) (
      e.put_int ts
        (e.put_ext uuid (e.put_int code (e.put_string message (e.put_string details m))))))

-- What the caller gets for it.
abbrev pub outcome : {M : Type 0} → (String → String → String) → Answer M → Result M
outcome join (reply ts m) = ok m
outcome join (moved pts ts m) = ok m
outcome join (failure ts uuid code message details m) =
    err (new_error (signed (2 ^ 31) (wrap (2 ^ 32) code)) (join message details))

same_int_refl : (z : ℤ) → same_int z z ≡ true
same_int_refl (pos n) = (==_iff n n).1 refl
same_int_refl (negsuc n) = (==_iff n n).1 refl

module _ {M : Type 0} (p : Protocol M) (e : Encoder M) (l : IsLawful p.decoder e) where
  read_packed_timestamp-put_int :
      (ts : ℤ) (m : M)
      → Fits (2 ^ 63) ts
      → read_packed_timestamp p.decoder (e.put_int ts m) ≡ ok (timestamp_of ts, m)
  unfolding read_packed_timestamp
  read_packed_timestamp-put_int ts m h = rw (l.int_back ts m h) refl

  read_packed_uuid-put_ext :
      (b : Bytes) (m : M)
      → length b ≡ 16
      → (u : Bytes) × (read_packed_uuid p.decoder (e.put_ext b m) ≡ ok (u, m))
  unfolding read_packed_uuid unmarshal_uuid
  read_packed_uuid-put_ext b m h =
      let (buf, read, payload) = l.ext_back b m h in (flip (take 16 b), rw (read, payload, h) refl)

  -- The answer that comes with the request's own id gives its outcome.
  pub checked-put_answer :
      (text : String) (id : ℤ) (a : Answer M)
      → Fits (2 ^ 63) id
      → IsSendable a
      → checked p text (read_operation (unpacker p.decoder) (new_response id) (put_answer e id a))
        ≡ outcome p.join a
  unfolding checked read_operation new_response check_status read_error new_error
  checked-put_answer text id (reply ts m) f h =
      rw
        (
          l.int_back id _ f,
          l.int_back (pos 0) (e.put_int ts m) (omega arith),
          read_packed_timestamp-put_int ts m h,
          same_int_refl id,
        )
        refl
  checked-put_answer text id (moved pts ts m) f h =
      rw
        (
          l.int_back id _ f,
          l.int_back (pos 1) (e.put_int pts (e.put_int ts m)) (omega arith),
          read_packed_timestamp-put_int pts (e.put_int ts m) h.0,
          read_packed_timestamp-put_int ts m h.1,
          same_int_refl id,
        )
        refl
  checked-put_answer text id (failure ts uuid code message details m) f h =
      let d : M = e.put_string details m in
      let t : M = e.put_string message d in
      let c : M = e.put_int code t in
      let (u, read) = read_packed_uuid-put_ext uuid c h.1 in
      rw
        (
          l.int_back id _ f,
          l.int_back (pos 4) (e.put_int ts (e.put_ext uuid c)) (omega arith),
          read_packed_timestamp-put_int ts (e.put_ext uuid c) h.0,
          same_int_refl id,
          read,
          l.int_back code t h.2,
          l.string_back message d,
          l.string_back details m,
        )
        refl
