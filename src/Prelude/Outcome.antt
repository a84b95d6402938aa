-- ===== src/Prelude/Outcome.antt =====
-- Code that may raise: a value, or the message of the exception that it raises.
use Prim.Native.String.{String}
use mathlib.Core.Path.{◌≡◌, refl}
use mathlib.Core.Bool.{Bool, true, false}

pub data Result {ℓ} (A : Type ℓ) : Type ℓ where
  err : String → Result A
  ok : A → Result A

-- `if test: raise ContractError(message)`
abbrev pub raise_if : Bool → String → Result (Unit {0})
raise_if true message = err message
raise_if false message = ok tt

infixl 5 ◌>>=◌ ◌>>◌
abbrev pub ◌>>=◌ {ℓ κ} :
    {A : Type ℓ} {B : Type κ} (first : Result A) (next : A → Result B) → Result B
err message >>= next = err message
ok value >>= next = next value

abbrev pub ◌>>◌ {ℓ κ} : {A : Type ℓ} {B : Type κ} (first : Result A) (rest : Result B) → Result B
first >> rest = first >>= λ value. rest

-- What ran where a chain of two steps did not raise.
pub >>=-eq-ok {ℓ κ} :
    {A : Type ℓ} {B : Type κ} (first : Result A) (next : A → Result B) {out : B}
    (done : (first >>= next) ≡ ok out)
    → (value : A) × (first ≡ ok value) × (next value ≡ ok out)
>>=-eq-ok (err message) next done = cc
>>=-eq-ok (ok value) next done = (value, refl, done)
