-- ===== src/Wire.antt =====
-- encoding/binary as the client uses it, and putUint16, putUint32, putUint64 of
-- binary/v1/binary-tuple.go. A buffer is the list of its bytes.
pub mod Laws
use ignite3_go_client.Base.{ℕ, zero, suc, ◌+◌, ◌*◌, ◌/◌, ◌%◌, [], ◌∷◌, ◌++◌, Bytes}

-- binary.LittleEndian.PutUint*: the lowest `k` bytes of `v`, lowest first.
unfoldable pub le_bytes : ℕ → ℕ → Bytes
le_bytes zero v = []
le_bytes (suc k) v = (v % 256) ∷ le_bytes k (v / 256)

-- binary.LittleEndian.Uint* of as many bytes as the list has.
unfoldable pub from_le : Bytes → ℕ
from_le [] = 0
from_le (b ∷ bs) = b + 256 * from_le bs

-- binary.BigEndian: the same bytes, highest first.
unfoldable pub be_bytes : ℕ → ℕ → Bytes
be_bytes zero v = []
be_bytes (suc k) v = be_bytes k (v / 256) ++ (v % 256) ∷ []

unfoldable pub from_be : ℕ → Bytes → ℕ
from_be acc [] = acc
from_be acc (b ∷ bs) = from_be (acc * 256 + b) bs

unfoldable pub put_uint16 : Bytes → ℕ → Bytes
unfolding le_bytes
put_uint16 buf v = buf ++ le_bytes 2 v

unfoldable pub put_uint32 : Bytes → ℕ → Bytes
unfolding le_bytes
put_uint32 buf v = buf ++ le_bytes 4 v

unfoldable pub put_uint64 : Bytes → ℕ → Bytes
unfolding le_bytes
put_uint64 buf v = buf ++ le_bytes 8 v
