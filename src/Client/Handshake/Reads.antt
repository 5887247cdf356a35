-- ===== src/Client/Handshake/Reads.antt =====
-- What a handshake settles, and what goes over the wire for it.
use ignite3_go_client.Base.{
  ◌<◌, ◌%◌, ◌^◌, ◌++◌, Bytes, Bool, true, false, Option, none, some, String, length, drop, ◌≡◌, ◌≢◌,
  refl, sym, ap, arith, ltb, take, if_elim, subst, ◌⊎◌, inl, inr,
}
use mathlib.Core.List.{append_assoc}
use ignite3_go_client.Base.Int.{ℤ, pos}
use ignite3_go_client.Base.Result.{
  Result, ok, err, panic, Error, errorf, or_wrap, ok_inj, guard, ◌>>=◌, ◌>>◌, >>=-eq-ok,
}
use ignite3_go_client.Wire.{be_bytes}
use ignite3_go_client.Requests.{read_frame}
use ignite3_go_client.Requests.Frames.{read_frame-framed}
use ignite3_go_client.Msgpack.{Decoder, ErrorObject, no_error, trace_id, other_object}
use ignite3_go_client.Client.{Socket, Client, Protocol, do_request, close_client, closed, received}
use ignite3_go_client.Client.Handshake.{
  magic_bytes, TextPacker, RequestHandshake, handshake_payload, handshake_frame, ResponseHandshake,
  renamed, read_version, read_refusal, check_refusal, read_cluster, read_dbms_rest,
  read_dbms_version, read_node, read_handshake, read_hello, read_greeting, settle, connect,
}

-- A handshake of less than 2 ^ 31 bytes goes over the wire as the magic bytes and one frame with its
-- payload, and what comes behind it is left.
pub read_frame-handshake_frame :
    (t : TextPacker) (r : RequestHandshake) (rest : Bytes)
    → length (handshake_payload t r) < 2 ^ 31
    → read_frame (drop 4 (handshake_frame t r ++ rest)) ≡ ok (handshake_payload t r, rest)
unfolding handshake_frame
read_frame-handshake_frame t r rest h =
    let small : length (handshake_payload t r) % 2 ^ 32 ≡ length (handshake_payload t r) =
      omega arith in
    rw
      (
        small,
        append_assoc (be_bytes 4 (length (handshake_payload t r))) (handshake_payload t r) rest,
      )
      (read_frame-framed (handshake_payload t r) rest h)

renamed-ne-ok :
    {A B : Type 0} (m : String) (a : Result A) (rest : A → Result B) (b : B)
    → ((x : A) → rest x ≢ ok b)
    → (renamed m a >>= rest) ≢ ok b
unfolding renamed
renamed-ne-ok m (ok a) rest b h e = h a e
renamed-ne-ok m (err x) rest b h e = cc
renamed-ne-ok m panic rest b h e = cc

module _ {M : Type 0} (d : Decoder M) where
  read_refusal-ne-ok : (m : M) (u : Unit {0}) → read_refusal d m ≢ ok u
  unfolding read_refusal
  read_refusal-ne-ok m u = renamed-ne-ok _ (d.decode_int64 m) _ u (λ a.
      renamed-ne-ok _ (d.decode_string a.1) _ u (λ b.
        renamed-ne-ok _ (d.decode_string b.1) _ u
          (λ c. renamed-ne-ok _ (d.decode_string c.1) _ u (λ x e. cc))))

  check_refusal-ne-ok : (b : Bytes) (m : M) (u : Unit {0}) → check_refusal d (trace_id b) m ≢ ok u
  unfolding check_refusal
  check_refusal-ne-ok b m u = read_refusal-ne-ok m u

  success-read_node :
      (v : ℤ × ℤ × ℤ) (m : M) (r : ResponseHandshake)
      → read_node d v m ≡ ok r
      → (r.success ≡ true) × (r.version ≡ v)
  unfolding read_node
  success-read_node v m r e =
      let (t, _, e1) = >>=-eq-ok (or_wrap _ (d.decode_int8 m)) _ e in
      let (c, _, e2) = >>=-eq-ok (read_cluster d t.1) _ e1 in
      let (ts, _, e3) = >>=-eq-ok (or_wrap _ (d.decode_int64 c.1)) _ e2 in
      let (b, _, e4) = >>=-eq-ok (read_dbms_version d ts.1) _ e3 in
      let (x, _, e5) = >>=-eq-ok (read_dbms_rest d b.1) _ e4 in
      (
        ap (λ (h : ResponseHandshake). h.success) (sym (ok_inj e5)),
        ap (λ (h : ResponseHandshake). h.version) (sym (ok_inj e5)),
      )

  -- A response whose error object is a UUID is refused, whatever follows; with any other object, one that
  -- is no nil included, the rest of the response decides, and a response that is accepted carries the
  -- version in front of the object.
  pub read_handshake-object :
      (m m1 m2 : M) (v : ℤ × ℤ × ℤ) (object : ErrorObject)
      → read_version d m ≡ ok (v, m1)
      → d.decode_interface m1 ≡ ok (object, m2)
      → (((id : Bytes) → object ≡ trace_id id → (r : ResponseHandshake) → read_handshake d m ≢ ok r)
          × ((object ≡ no_error) ⊎ (object ≡ other_object) → read_handshake d m ≡ read_node d v m2)
          × ((r : ResponseHandshake)
              → read_handshake d m ≡ ok r
              → (r.success ≡ true) × (r.version ≡ v)))
  unfolding read_handshake check_refusal
  read_handshake-object m m1 m2 v no_error ev eo = (
    (λ id same. cc),
    (λ _. rw (ev, eo) refl),
    (λ r e. success-read_node v m2 r (subst (λ x. x ≡ ok r) (rw (ev, eo) refl) e)),
  )
  read_handshake-object m m1 m2 v other_object ev eo = (
    (λ id same. cc),
    (λ _. rw (ev, eo) refl),
    (λ r e. success-read_node v m2 r (subst (λ x. x ≡ ok r) (rw (ev, eo) refl) e)),
  )
  read_handshake-object m m1 m2 v (trace_id id) ev eo =
      let refused : (r : ResponseHandshake) → read_handshake d m ≢ ok r = λ r e.
        let f : (check_refusal d (trace_id id) m2 >> read_node d v m2) ≡ ok r =
          subst (λ x. x ≡ ok r) (rw (ev, eo) refl) e in
        let (u, passed, _) =
          >>=-eq-ok (check_refusal d (trace_id id) m2) (λ _. read_node d v m2) f in
        check_refusal-ne-ok id m2 u passed in
      (
        (λ _ _. refused),
        (λ other. elim other [ inl a ↦ cc | inr b ↦ cc ]),
        (λ r e. absurd (refused r e)),
      )

  success-read_handshake :
      (m : M) (r : ResponseHandshake) → read_handshake d m ≡ ok r → r.success ≡ true
  unfolding read_handshake
  success-read_handshake m r e =
      let (v, _, e1) = >>=-eq-ok (read_version d m) _ e in
      let (o, _, e2) = >>=-eq-ok (or_wrap _ (d.decode_interface v.1)) _ e1 in
      let (u, _, e3) = >>=-eq-ok (check_refusal d o.0 o.1) _ e2 in
      (success-read_node v.0 o.1 r e3).0

module _ {M W : Type 0} (p : Protocol M) (s : Socket W) where
  success-read_greeting :
      (equal_fold : Bytes → Bytes → Bool) (magic stream : Bytes) (r : ResponseHandshake)
      → read_greeting p equal_fold magic stream ≡ ok r
      → r.success ≡ true
  unfolding read_greeting
  success-read_greeting equal_fold magic stream r e =
      let (u, _, e1) = >>=-eq-ok (guard (equal_fold magic magic_bytes) _) _ e in
      let (f, _, e2) = >>=-eq-ok (read_frame stream) _ e1 in
      success-read_handshake p.decoder (p.open_message f.0) r e2

  success-read_hello :
      (equal_fold : Bytes → Bytes → Bool) (stream : Bytes) (r : ResponseHandshake)
      → read_hello p equal_fold stream ≡ ok r
      → r.success ≡ true
  unfolding read_hello
  success-read_hello equal_fold stream r =
      if_elim (λ (x : Result ResponseHandshake). x ≡ ok r → r.success ≡ true)
        (ltb (length stream) 4) (err (errorf "failed to read response magic bytes"))
        (read_greeting p equal_fold (take 4 stream) (drop 4 stream)) (λ _ e. cc)
        (λ _ e. success-read_greeting equal_fold (take 4 stream) (drop 4 stream) r e)

  -- The socket behind a request and, where that was sent, its response.
  abbrev pub exchanged : Option Error × W → W
  exchanged (some e, w) = w
  exchanged (none, w) = (s.receive w).1

  received-success :
      (read_from : Bytes → Result ResponseHandshake) (c : Client W) (x : Option Error × W)
      → ((b : Bytes) (r : ResponseHandshake) → read_from b ≡ ok r → r.success ≡ true)
      → ((received s read_from c x).1.connected ≡ c.connected)
        × ((received s read_from c x).1.conn ≡ exchanged x)
        × ((r : ResponseHandshake) → (received s read_from c x).0 ≡ ok r → r.success ≡ true)
  received-success read_from c (none, w) h = (refl, refl, h (s.receive w).0)
  received-success read_from c (some e, w) h = (refl, refl, λ r e'. cc)

  -- net.Conn.Close was called on the socket `w`, and the client has no connection any more.
  abbrev pub IsClosed : W → Client W → Type 0
  IsClosed w c = (c.connected ≡ false) × (c.conn ≡ (s.close_conn w).1)

  -- What Connect makes of the socket `w` that the handshake leaves.
  abbrev pub Settled : W → Result (Unit {0}) × Client W → Type 0
  Settled w (ok x, c) = (c.connected ≡ true) × (c.request_id ≡ pos 0) × (c.conn ≡ w)
  Settled w (err e, c) = IsClosed w c
  Settled w (panic, c) = (c.connected ≡ true) × (c.conn ≡ w)

  closed-IsClosed :
      (c : Client W) (x : Option Error × W)
      → ((closed s c x).1.connected ≡ false) × ((closed s c x).1.conn ≡ x.1)
  closed-IsClosed c (some e, w) = (refl, refl)
  closed-IsClosed c (none, w) = (refl, refl)

  close_client-IsClosed : (c : Client W) → c.connected ≡ true → IsClosed c.conn (close_client s c).1
  unfolding close_client
  close_client-IsClosed c on = rw on (closed-IsClosed c (s.close_conn c.conn))

  settle-Settled :
      (out : Result ResponseHandshake × Client W)
      → out.1.connected ≡ true
      → ((r : ResponseHandshake) → out.0 ≡ ok r → r.success ≡ true)
      → Settled out.1.conn (settle p s out)
  unfolding settle
  settle-Settled (ok r, c) on good = rw (good r refl) (on, refl, refl)
  settle-Settled (err e, c) on good = close_client-IsClosed c on
  settle-Settled (panic, c) on good = (on, refl)

  -- Connect over an open connection ends in one of three ways. It succeeds: its client is connected over
  -- the socket that the exchange of the handshake leaves, and gives its next request the id 0. It returns
  -- an error, of the handshake or of the connection: net.Conn.Close was called on that socket. It panics:
  -- the socket stays open.
  pub connect-Settled :
      (equal_fold : Bytes → Bytes → Bool) (t : TextPacker) (r : RequestHandshake) (w : W)
      → Settled (exchanged (s.send (handshake_frame t r) w)) (connect p s equal_fold t r w)
  unfolding connect do_request
  connect-Settled equal_fold t r w =
      let c : Client W = record { connected = true; conn = w; request_id = pos 0 } in
      let sent = s.send (handshake_frame t r) w in
      let read = success-read_hello equal_fold in
      let (on, same, good) = received-success (read_hello p equal_fold) c sent read in
      subst (λ v. Settled v (settle p s (received s (read_hello p equal_fold) c sent))) same
        (settle-Settled (received s (read_hello p equal_fold) c sent) on good)
