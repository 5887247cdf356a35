-- ===== src/Client/Connected.antt =====
-- Operations leave a client connected: only Close, which Connect calls on failures, ends that.
use ignite3_go_client.Base.{Bytes, Bool, Option, none, some, String, if_elim, ◌≡◌, refl, ◌∙◌}
use ignite3_go_client.Base.Int.{ℤ}
use ignite3_go_client.Base.Result.{Result, ok, err, panic, Error}
use ignite3_go_client.Client.{
  Socket, Client, Protocol, Run, and_then, received, do_request, read_response, call,
}

-- The operation leaves each client as connected as it was.
abbrev pub KeepsConnected : {W A : Type 0} → Run W A → Type 0
KeepsConnected {W} op = (c : Client W) → (op c).1.connected ≡ c.connected

module _ {W A B : Type 0} where
  pub and_then-connected :
      (b : Bool) (out : Result A × Client W) (rest : A → Run W B)
      → out.1.connected ≡ b
      → ((a : A) → KeepsConnected (rest a))
      → (and_then out rest).1.connected ≡ b
  and_then-connected b (ok a, c) rest e h = h a c ∙ e
  and_then-connected b (err x, c) rest e h = e
  and_then-connected b (panic, c) rest e h = e

module _ {W A : Type 0} (s : Socket W) (read_from : Bytes → Result A) where
  received-connected :
      (c : Client W) (x : Option Error × W) → (received s read_from c x).1.connected ≡ c.connected
  received-connected c (some e, w) = refl
  received-connected c (none, w) = refl

  pub do_request-connected : (frame : Bytes) → KeepsConnected (do_request s frame read_from)
  unfolding do_request
  do_request-connected frame c =
      if_elim (λ (out : Result A × Client W). out.1.connected ≡ c.connected) c.connected _ _
        (λ _. received-connected c (s.send frame c.conn)) (λ _. refl)

pub call-connected :
    {M W : Type 0} (p : Protocol M) (s : Socket W) (text : String) (code : ℤ) (payload : Bytes)
    → KeepsConnected (call p s text code payload)
unfolding call
call-connected p s text code payload c = do_request-connected s (read_response p c.request_id) _ c
