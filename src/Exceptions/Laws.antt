-- ===== src/Exceptions/Laws.antt =====
-- smbprotocol/exceptions.py: the class that a status is raised as.
use smbprotocol.Prelude.{
  ℕ, ◌≡◌, refl, sym, ap, ◌∙◌, subst, ok-injective, ◌⊎◌, inl, inr, List, [], ◌∷◌, Option, some, none,
  ok, ◌==◌, if◌then◌else◌, arith, Dict, lookup, put, lookup-put,
}
use smbprotocol.Exceptions.{
  ResponseClass, status_code, response_classes, register, register_all, registry, call,
}

-- Every status of a registry belongs to the class that stands under it.
IsRegistry : Dict ResponseClass → Type 0
IsRegistry r =
    (status : ℕ) (cls : ResponseClass) → lookup status r ≡ some cls → status_code cls ≡ some status

put-IsRegistry :
    (status : ℕ) (cls : ResponseClass) (r : Dict ResponseClass)
    → status_code cls ≡ some status
    → IsRegistry r
    → IsRegistry (put status cls r)
unfolding IsRegistry
put-IsRegistry status cls r own good other found e =
    chosen (sym (lookup-put status other cls r) ∙ e)
  where
    chosen :
        (if status == other then some cls else lookup other r) ≡ some found
        → status_code found ≡ some other
    chosen h = ground (arith, good other found)

register-IsRegistry :
    (cls : ResponseClass) (r : Dict ResponseClass) → IsRegistry r → IsRegistry (register cls r)
unfolding register
register-IsRegistry cls r good =
    elim (status_code cls)
        as (λ o.
          status_code cls ≡ o → IsRegistry (elim o [ none ↦ r | some status ↦ put status cls r ])) [
            | none ↦ λ e. good
            | some status ↦ λ e. put-IsRegistry status cls r e good
          ]
      refl

register_all-IsRegistry :
    (classes : List ResponseClass) (r : Dict ResponseClass)
    → IsRegistry r
    → IsRegistry (register_all classes r)
unfolding register_all
register_all-IsRegistry [] r good = good
register_all-IsRegistry (cls ∷ classes) r good =
    register_all-IsRegistry classes (register cls r) (register-IsRegistry cls r good)

registry-IsRegistry : IsRegistry registry
unfolding registry lookup IsRegistry
registry-IsRegistry = register_all-IsRegistry response_classes [] λ status cls e. absurd cc

-- What `call` makes of a class that is registered, or of none.
call_found : ResponseClass → ℕ → Option ResponseClass → ResponseClass × ℕ
call_found cls status none = (cls, status)
call_found cls status (some own) = (own, status)

call-found :
    (cls : ResponseClass) (status : ℕ)
    → call cls (some status) ≡ ok (call_found cls status (lookup status registry))
unfolding call call_found
call-found cls status =
    elim (lookup status registry)
      as (λ o.
        elim o [ none ↦ ok (cls, status) | some own ↦ ok (own, status) ]
        ≡ ok (call_found cls status o)) [ none ↦ refl | some own ↦ refl ]

-- The exception made for a status has that status; its class is registered under it, or is the one called.
pub call-status :
    (cls : ResponseClass) (status : ℕ) {found : ResponseClass} {code : ℕ}
    → call cls (some status) ≡ ok (found, code)
    → code ≡ status × (status_code found ≡ some status ⊎ found ≡ cls)
unfolding call_found IsRegistry
call-status cls status {found} {code} e =
    elim (lookup status registry)
        as (λ o.
          lookup status registry ≡ o
          → call_found cls status o ≡ (found, code)
          → code ≡ status × (status_code found ≡ some status ⊎ found ≡ cls)) [
            | none ↦ λ l h. (sym (ap (λ p. p.1) h), inr (sym (ap (λ p. p.0) h)))
            | some own ↦ λ l h. (
              sym (ap (λ p. p.1) h),
              inl (
                  subst (λ c. status_code c ≡ some status) (ap (λ p. p.0) h)
                    (registry-IsRegistry status own l)),
            )
          ]
      refl (ok-injective (sym (call-found cls status) ∙ e))
