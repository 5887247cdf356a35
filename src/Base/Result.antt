-- ===== src/Base/Result.antt =====
-- binary/errors/ignite.go, and the outcome of a Go call that returns `(value, error)` or panics.
use mathlib.Core.List.{List, [], ◌∷◌}
use mathlib.Core.Option.{Option, none, some}
use mathlib.Core.Path.{◌≡◌, refl}
use mathlib.Core.Bool.{Bool, true, false}
use Prim.Native.String.{String}
use ignite3_go_client.Base.Int.{ℤ}

-- An error keeps its format strings, the outermost first, where Go joins the formatted texts by
-- ": ". `status` is that of an `*IgniteError`, with the server's message.
pub record Error : Type 0 where
  pub status : Option (ℤ × String)
  pub trail : List String

unfoldable pub errorf : String → Error
errorf m = record { status = none; trail = m ∷ [] }

unfoldable pub new_error : ℤ → String → Error
new_error s m = record { status = some (s, m); trail = m ∷ [] }

-- An `*IgniteError` is mended in place and stays one; any other error becomes a plain one.
unfoldable pub wrapf : Error → String → Error
wrapf e m = record e { trail = m ∷ e.trail }

-- The value of a call, a panic of it, or its error.
pub data Result {κ} (V : Type κ) : Type κ where
  panic : Result V
  ok : V → Result V
  err : Error → Result V

-- The rest of a function runs on the value; an early return or a panic passes it by.
infixl 5 ◌>>=◌ ◌>>◌
abbrev pub ◌>>=◌ {κ ℓ} : {V : Type κ} {W : Type ℓ} → Result V → (V → Result W) → Result W
panic >>= rest = panic
ok v >>= rest = rest v
err e >>= rest = err e

abbrev pub ◌>>◌ {κ ℓ} : {V : Type κ} {W : Type ℓ} → Result V → Result W → Result W
first >> rest = first >>= (λ _. rest)

-- `if err != nil { return errors.Wrapf(err, m) }`
abbrev pub or_wrap {ℓ} : {A : Type ℓ} → String → Result A → Result A
or_wrap m (ok a) = ok a
or_wrap m (err e) = err (wrapf e m)
or_wrap m panic = panic

-- `if !b { return e }`
abbrev pub guard : Bool → Error → Result (Unit {0})
guard b e = elim b [ false ↦ err e | true ↦ ok tt ]

-- A chain of calls gives a value only if the first of them does.
pub >>=-eq-ok {κ ℓ} :
    {V : Type κ} {W : Type ℓ} (first : Result V) (rest : V → Result W) {w : W}
    → (first >>= rest) ≡ ok w
    → (v : V) × (first ≡ ok v) × (rest v ≡ ok w)
>>=-eq-ok panic rest e = cc
>>=-eq-ok (ok v) rest e = (v, refl, e)
>>=-eq-ok (err x) rest e = cc

pub or_wrap-eq-ok {ℓ} :
    {A : Type ℓ} (m : String) (r : Result A) {a : A} → or_wrap m r ≡ ok a → r ≡ ok a
or_wrap-eq-ok m (ok a) e = e
or_wrap-eq-ok m (err x) e = cc
or_wrap-eq-ok m panic e = cc

pub guard-eq-ok : (b : Bool) (e : Error) {x : Unit {0}} → guard b e ≡ ok x → b ≡ true
guard-eq-ok true e h = refl
guard-eq-ok false e h = cc

pub ok_inj {ℓ} : {A : Type ℓ} {a b : A} → ok a ≡ ok b → a ≡ b
ok_inj e = cc
