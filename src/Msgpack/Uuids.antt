-- ===== src/Msgpack/Uuids.antt =====
-- Uuid.MarshalMsgpack and UnmarshalMsgpack of binary/v1/types.go undo each other.
use ignite3_go_client.Base.{ℕ, ◌++◌, ◌≡◌, ap}
use ignite3_go_client.Base.Result.{ok}
use ignite3_go_client.Values.Uuids.{flip, flip-eight, eight}
use ignite3_go_client.Msgpack.{marshal_uuid, unmarshal_uuid}

-- Sixteen bytes that are marshalled are unmarshalled to the same sixteen bytes.
pub unmarshal_uuid-marshal_uuid :
    (a b c d e f g h a' b' c' d' e' f' g' h' : ℕ)
    → unmarshal_uuid (marshal_uuid (eight a b c d e f g h ++ eight a' b' c' d' e' f' g' h')).1
      ≡ ok (eight a b c d e f g h ++ eight a' b' c' d' e' f' g' h')
unfolding marshal_uuid unmarshal_uuid flip
unmarshal_uuid-marshal_uuid a b c d e f g h a' b' c' d' e' f' g' h' =
    let both = flip-eight a b c d e f g h a' b' c' d' e' f' g' h' in (ap ok both.1)
