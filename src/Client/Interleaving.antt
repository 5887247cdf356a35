-- ===== src/Client/Interleaving.antt =====
-- Several goroutines that share one client. An operation of binary/v1/client.go's client first makes its
-- request and its response with the id that the client then has, and later runs Do, which locks the
-- mutex: between the two, others may run.
pub mod Ids
use ignite3_go_client.Base.{
  ℕ, zero, ◌+◌, ◌<◌, ◌≤◌, List, [], ◌∷◌, ◌++◌, Bytes, Bool, true, false, Option, none, some, String,
  length, All, ◌≡◌, refl, sym, ◌∙◌, if_elim,
}
use ignite3_go_client.Base.Int.{ℤ, pos, negsuc}
use ignite3_go_client.Base.Result.{Result, panic, Error}
use ignite3_go_client.Requests.{request_frame, ResponseOperation}
use ignite3_go_client.Client.{
  Socket, Client, Protocol, Run, next_id, do_request, read_response, checked, call, received,
}

-- NewRequestOperation and NewResponseOperation, before Do.
pub record Prepared : Type 0 where
  pub code : ℤ
  pub uid : ℤ
  pub payload : Bytes

unfoldable pub prepare : {W : Type 0} → ℤ → Bytes → Client W → Prepared
prepare code payload c = record { code = code; uid = c.request_id; payload = payload }

unfoldable pub perform :
    {M W : Type 0} → Protocol M → Socket W → Prepared → Run W (ResponseOperation × M)
perform p s q c =
    do_request s (request_frame p.pack_int64 q.code q.uid q.payload) (read_response p q.uid) c

-- An operation makes its request and performs it.
pub call-perform :
    {M W : Type 0} (p : Protocol M) (s : Socket W) (text : String) (code : ℤ) (payload : Bytes)
    (c : Client W)
    → call p s text code payload c ≡ (
      checked p text (perform p s (prepare code payload c) c).0,
      (perform p s (prepare code payload c) c).1,
    )
unfolding call perform prepare
call-perform p s text code payload c = refl

-- The client, the requests that wait for the mutex, and the ids that were sent, the last one first.
pub record System (W : Type 0) : Type 0 where
  pub client : Client W
  pub waiting : List Prepared
  pub sent : List ℤ

abbrev pub uids : List Prepared → List ℤ
uids [] = []
uids (q ∷ qs) = q.uid ∷ uids qs

-- After Connect.
abbrev pub connected_to : {W : Type 0} → W → System W
connected_to w = record {
  client = record { connected = true; conn = w; request_id = pos 0 };
  waiting = [];
  sent = [];
}

abbrev pub made : {W : Type 0} → ℤ → Bytes → System W → System W
made code payload y = record y { waiting = prepare code payload y.client ∷ y.waiting }

module _ {M W : Type 0} (p : Protocol M) (s : Socket W) where
  abbrev pub performed : System W → Prepared → List Prepared → System W
  performed y q rest = record {
    client = (perform p s q y.client).1;
    waiting = rest;
    sent = q.uid ∷ y.sent;
  }

  -- Some goroutine makes a request, or one whose request waits gets the mutex.
  pub data Step (y : System W) : System W → Type 0 where
    make : (code : ℤ) (payload : Bytes) → Step y (made code payload y)
    run :
        (before after : List Prepared) (q : Prepared)
        → y.waiting ≡ before ++ q ∷ after
        → Step y (performed y q (before ++ after))

  pub data Reach (w : W) : System W → Type 0 where
    start : Reach w (connected_to w)
    later : {y z : System W} → Reach w y → Step y z → Reach w z

  -- A single goroutine: each request is performed before the next is made.
  pub data Alone (w : W) : System W → Type 0 where
    begin : Alone w (connected_to w)
    after_call :
        {y : System W} (code : ℤ) (payload : Bytes)
        → Alone w y
        → Alone w (performed (made code payload y) (prepare code payload y.client) [])

abbrev pub Within : ℕ → ℤ → Type 0
Within n (pos k) = k ≤ n
Within n (negsuc k) = ⊥

abbrev pub Below : ℕ → ℤ → Type 0
Below n (pos k) = k < n
Below n (negsuc k) = ⊥

-- The client's id is the number of requests sent; an id that waits is not above it, and an id that was
-- sent is below it.
pub record Counts {W : Type 0} (y : System W) : Type 0 where
  pub is_connected : y.client.connected ≡ true
  pub counted : y.client.request_id ≡ pos (length y.sent)
  pub waiting_within : All (Within (length y.sent)) (uids y.waiting)
  pub sent_within : All (Below (length y.sent)) y.sent

module _ {M W : Type 0} (p : Protocol M) (s : Socket W)
    (reliable : (b : Bytes) (w : W) → (s.send b w).0 ≡ none) where
  received-client :
      {A : Type 0} (read_from : Bytes → Result A) (c : Client W) (x : Option Error × W)
      → x.0 ≡ none
      → ((received s read_from c x).1.connected ≡ c.connected)
        × ((received s read_from c x).1.request_id ≡ next_id c.request_id)
  received-client read_from c (none, w) h = (refl, refl)
  received-client read_from c (some x, w) h = cc

  pub perform-client :
      (q : Prepared) (c : Client W)
      → c.connected ≡ true
      → ((perform p s q c).1.connected ≡ true)
        × ((perform p s q c).1.request_id ≡ next_id c.request_id)
  unfolding perform do_request
  perform-client q c h =
      let frame = request_frame p.pack_int64 q.code q.uid q.payload in
      let (a, b) =
        received-client (read_response p q.uid) c (s.send frame c.conn) (reliable frame c.conn) in
      if_elim
        (λ (out : Result (ResponseOperation × M) × Client W).
          (out.1.connected ≡ true) × (out.1.request_id ≡ next_id c.request_id))
        c.connected (received s (read_response p q.uid) c (s.send frame c.conn)) (panic, c)
        (λ _. (a ∙ h, b)) (λ no. cc)
