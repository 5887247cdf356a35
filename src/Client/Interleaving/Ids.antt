-- ===== src/Client/Interleaving/Ids.antt =====
-- The ids of requests: one goroutine never repeats one, several can.
use ignite3_go_client.Base.{
  ℕ, zero, suc, ◌<◌, ◌^◌, List, [], ◌∷◌, ◌++◌, Bytes, true, none, length, ◌≡◌, refl, ap, ◌∙◌, arith,
}
use mathlib.Core.List.{append-nil}
use ignite3_go_client.Base.Int.{ℤ, pos}
use ignite3_go_client.Client.{Socket, Protocol, next_id}
use ignite3_go_client.Client.Calls.{next_id-pos}
use ignite3_go_client.Client.Interleaving.{
  Prepared, prepare, System, connected_to, made, make, run, Reach, start, later, Alone, begin,
  after_call, perform-client,
}

-- n - 1, ..., 1, 0
abbrev pub count_down : ℕ → List ℤ
count_down zero = []
count_down (suc n) = pos n ∷ count_down n

abbrev pub replicate : ℕ → ℤ → List ℤ
replicate zero z = []
replicate (suc n) z = z ∷ replicate n z

abbrev pub copies : ℕ → Prepared → List Prepared
copies zero q = []
copies (suc n) q = q ∷ copies n q

-- `n` goroutines that make a request of the same operation before any is performed.
abbrev pub all_made : {W : Type 0} → ℕ → ℤ → Bytes → System W → System W
all_made zero code payload y = y
all_made (suc n) code payload y = made code payload (all_made n code payload y)

client-all_made :
    {W : Type 0} (n : ℕ) (code : ℤ) (payload : Bytes) (y : System W)
    → (all_made n code payload y).client ≡ y.client
client-all_made zero code payload y = refl
client-all_made (suc n) code payload y = client-all_made n code payload y

sent-all_made :
    {W : Type 0} (n : ℕ) (code : ℤ) (payload : Bytes) (y : System W)
    → (all_made n code payload y).sent ≡ y.sent
sent-all_made zero code payload y = refl
sent-all_made (suc n) code payload y = sent-all_made n code payload y

waiting-all_made :
    {W : Type 0} (n : ℕ) (code : ℤ) (payload : Bytes) (y : System W)
    → (all_made n code payload y).waiting ≡ copies n (prepare code payload y.client) ++ y.waiting
waiting-all_made zero code payload y = refl
waiting-all_made (suc n) code payload y =
    rw (client-all_made n code payload y)
      (ap (λ qs. prepare code payload y.client ∷ qs) (waiting-all_made n code payload y))

replicate_shift : (n : ℕ) (z : ℤ) (zs : List ℤ) → replicate n z ++ z ∷ zs ≡ z ∷ replicate n z ++ zs
replicate_shift zero z zs = refl
replicate_shift (suc n) z zs = ap (λ l. z ∷ l) (replicate_shift n z zs)

module _ {M W : Type 0} (p : Protocol M) (s : Socket W)
    (reliable : (b : Bytes) (w : W) → (s.send b w).0 ≡ none) where
  -- A goroutine that has the client for itself, over a connection that takes every request, numbers its
  -- requests 0, 1, 2 and so on, for fewer than 2 ^ 63 requests.
  pub Alone-count_down :
      {w : W} {y : System W}
      → Alone p s w y
      → length y.sent < 2 ^ 63
      → (y.sent ≡ count_down (length y.sent))
        × (y.client.request_id ≡ pos (length y.sent))
        × (y.client.connected ≡ true)
  unfolding prepare
  Alone-count_down begin small = (refl, refl, refl)
  Alone-count_down (after_call {y} code payload a) small =
      let (down, id, on) = Alone-count_down a (omega arith) in
      let (c, n) = perform-client p s reliable (prepare code payload y.client) y.client on in
      (
        rw id (ap (λ zs. pos (length y.sent) ∷ zs) down),
        n ∙ ap next_id id ∙ next_id-pos (length y.sent) small,
        c,
      )

  Reach-all_made :
      (w : W) (n : ℕ) (code : ℤ) (payload : Bytes)
      → Reach p s w (all_made n code payload (connected_to w))
  Reach-all_made w zero code payload = start
  Reach-all_made w (suc n) code payload =
      later (Reach-all_made w n code payload) (make code payload)

  perform_all :
      (n : ℕ) (q : Prepared) {w : W} {y : System W}
      → Reach p s w y
      → y.waiting ≡ copies n q
      → (y' : System W) × Reach p s w y'
        × (y'.waiting ≡ [])
        × (y'.sent ≡ replicate n q.uid ++ y.sent)
  perform_all zero q {y = y} r e = (y, r, e, refl)
  perform_all (suc n) q {y = y} r e =
      let (y', r', none_left, sent) = perform_all n q (later r (run [] (copies n q) q e)) refl in
      (y', r', none_left, sent ∙ replicate_shift n q.uid y.sent)

  -- However many goroutines share a client, they may all send one and the same id, 0, over a connection
  -- that takes every request: there is such a run, after which no request waits.
  pub ids_repeat :
      (w : W) (n : ℕ)
      → (y : System W) × Reach p s w y × (y.waiting ≡ []) × (y.sent ≡ replicate n (pos 0))
  unfolding prepare
  ids_repeat w n =
      let code : ℤ = pos 50 in
      let payload : Bytes = [] in
      let (y, r, none_left, sent) =
        perform_all n (prepare code payload (connected_to w).client)
          (Reach-all_made w n code payload)
          (waiting-all_made n code payload (connected_to w)
            ∙ append-nil (copies n (prepare code payload (connected_to w).client))) in
      (
        y,
        r,
        none_left,
        rw sent
            (rw (sent-all_made n code payload (connected_to w)) (append-nil (replicate n (pos 0)))),
      )
