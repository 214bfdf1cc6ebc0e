-- ===== src/Prelude/Results.antt =====
-- The exceptions of the program as values, and the functions that may raise one.
use Prim.Native.Nat.{ℕ}
use mathlib.Core.Path.{◌≡◌, refl}
use mathlib.Core.Bool.{Bool, true, false}

-- One constructor for each class of exception that the modelled code raises or lets through.
pub data Error : Type 0 where
  value_error type_error key_error index_error struct_error : Error
  recursion_error overflow_error attribute_error invalid_field_definition invalid_tag : Error
  smb_exception smb_connection_closed timeout_error os_error : Error
  smb_response_exception smb_os_error : ℕ → Error

-- What a call ends with: an exception, or a value.
pub data Result {ℓ} (Returned : Type ℓ) : Type ℓ where
  ok : Returned → Result Returned
  err : Error → Result Returned

-- The statement after a call that returns.
abbrev pub ◌>>=◌ {ℓ κ} :
    {Returned : Type ℓ} {Next : Type κ} → Result Returned → (Returned → Result Next) → Result Next
err raised >>= next = err raised
ok returned >>= next = next returned

-- A call whose value is not used.
abbrev pub ◌>>◌ {ℓ} : {Next : Type ℓ} → Result (Unit {0}) → Result Next → Result Next
err raised >> next = err raised
ok _ >> next = next

infixl 5 ◌>>=◌ ◌>>◌
-- `if not condition: raise error`
abbrev pub guard : Bool → Error → Result (Unit {0})
guard false error = err error
guard true error = ok tt

pub ok-injective {ℓ} : {Returned : Type ℓ} {x y : Returned} → ok x ≡ ok y → x ≡ y
ok-injective same = cc

-- The value in between, where two statements returned.
pub >>=-eq-ok {ℓ κ} :
    {Returned : Type ℓ} {Next : Type κ} (call : Result Returned) (next : Returned → Result Next)
    {last : Next}
    → (call >>= next) ≡ ok last
    → (between : Returned) × (call ≡ ok between) × (next between ≡ ok last)
>>=-eq-ok (err raised) next same = cc
>>=-eq-ok (ok between) next same = (between, refl, same)
