-- ===== src/Base/Outcome.antt =====
-- What a Go call gives back: a value, an error value, or a panic of the runtime (a nil pointer that
-- is followed, a division by zero).
use Prim.Native.String.{String}
use mathlib.Core.Path.{◌≡◌, refl}

-- `plain` is an error of `errors.New` or `fmt.Errorf`, or one that a dependency returned. A list of
-- errors is built from `alone`, a list of one, by `also`, which adds an error at the end.
pub data Error : Type 0 where
  plain : String → Error
  alone : Error → Error
  also : Error → Error → Error

pub data Result {ℓ} (T : Type ℓ) : Type ℓ where
  panic : Result T
  err : Error → Result T
  ok : T → Result T

-- The statements of a function after a call: they run where the call has returned.
infixl 5 ◌>>=◌
abbrev pub ◌>>=◌ {κ ℓ} : {T : Type κ} {U : Type ℓ} → Result T → (T → Result U) → Result U
panic >>= then_do = panic
err failure >>= then_do = err failure
ok value >>= then_do = then_do value

infixl 5 ◌>>◌
abbrev pub ◌>>◌ {κ} : {U : Type κ} → Result (Unit {0}) → Result U → Result U
first >> second = first >>= (λ done. second)

-- Inversion of a call that succeeds.
pub >>=-eq-ok {κ ℓ} :
    {T : Type κ} {U : Type ℓ} (m : Result T) (f : T → Result U) {b : U}
    → (m >>= f) ≡ ok b
    → (a : T) × (m ≡ ok a) × (f a ≡ ok b)
>>=-eq-ok (ok a) f h = (a, refl, h)
>>=-eq-ok (err e) f h = cc
>>=-eq-ok panic f h = cc

pub ok-injective {ℓ} : {A : Type ℓ} {a b : A} → ok a ≡ ok b → a ≡ b
ok-injective h = cc
