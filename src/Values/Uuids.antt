-- ===== src/Values/Uuids.antt =====
-- Uuid of binary/v1/types.go: the 16 bytes of a UUID and Flip, which turns them into the order of
-- the wire.
use ignite3_go_client.Base.{ℕ, zero, suc, ◌+◌, ◌-◌, [], ◌∷◌, Bytes, ◌≡◌, refl}
use mathlib.Core.List.{◌++◌}

byte_at : Bytes → ℕ → ℕ
byte_at [] i = 0
byte_at (b ∷ bs) zero = b
byte_at (b ∷ bs) (suc i) = byte_at bs i

set_byte : Bytes → ℕ → ℕ → Bytes
set_byte [] i v = []
set_byte (b ∷ bs) zero v = v ∷ bs
set_byte (b ∷ bs) (suc i) v = b ∷ set_byte bs i v

-- `u[i], u[j] = u[j], u[i]`
swap_bytes : Bytes → ℕ → ℕ → Bytes
unfolding byte_at set_byte
swap_bytes u i j = set_byte (set_byte u i (byte_at u j)) j (byte_at u i)

-- `for i := 3; i >= 0; i--` over the half that starts at `base`; the counter is i + 1.
flip_loop : ℕ → ℕ → Bytes → Bytes
flip_loop base zero u = u
flip_loop base (suc i) u = flip_loop base i (swap_bytes u (base + i) (base + (7 - i)))

unfoldable pub flip : Bytes → Bytes
unfolding flip_loop swap_bytes
flip u = flip_loop 8 4 (flip_loop 0 4 u)

module _ (a b c d e f g h : ℕ) where
  abbrev pub eight : Bytes
  eight = a ∷ b ∷ c ∷ d ∷ e ∷ f ∷ g ∷ h ∷ []

-- Flip reverses each half of the sixteen bytes, so flipping twice changes nothing.
pub flip-eight :
    (a b c d e f g h a' b' c' d' e' f' g' h' : ℕ)
    → (flip (eight a b c d e f g h ++ eight a' b' c' d' e' f' g' h')
        ≡ eight h g f e d c b a ++ eight h' g' f' e' d' c' b' a')
      × (flip (flip (eight a b c d e f g h ++ eight a' b' c' d' e' f' g' h'))
          ≡ eight a b c d e f g h ++ eight a' b' c' d' e' f' g' h')
unfolding flip
flip-eight a b c d e f g h a' b' c' d' e' f' g' h' = (refl, refl)
