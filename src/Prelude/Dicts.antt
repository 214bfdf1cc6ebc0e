-- ===== src/Prelude/Dicts.antt =====
-- Python's `dict` with int keys, as an association list in insertion order.
use Prim.Native.Nat.{ℕ}
use mathlib.Core.Path.{◌≡◌, refl, sym, ◌∙◌}
use mathlib.Core.Logic.{inl, inr}
use mathlib.Core.Option.{Option, none, some}
use mathlib.Core.List.{List, [], ◌∷◌}
use native.Mathlib.Omega.{arith}
use smbprotocol.Prelude.Tests.{◌==◌, if◌then◌else◌, Bool-cases}

abbrev pub Dict {ℓ} : Type ℓ → Type ℓ
Dict V = List (ℕ × V)

module _ {ℓ} {V : Type ℓ} where
  -- d.get(k)
  unfoldable pub lookup : ℕ → Dict V → Option V
  lookup k [] = none
  lookup k ((j, v) ∷ d) = if j == k then some v else lookup k d

  -- d[k] = v
  unfoldable pub put : ℕ → V → Dict V → Dict V
  put k v [] = (k, v) ∷ []
  put k v ((j, w) ∷ d) = if j == k then (j, v) ∷ d else (j, w) ∷ put k v d

  -- d.pop(k, None)
  unfoldable pub remove : ℕ → Dict V → Dict V
  remove k [] = []
  remove k ((j, w) ∷ d) = let rest = remove k d in if j == k then rest else (j, w) ∷ rest

  pub lookup-put :
      (k j : ℕ) (v : V) (d : Dict V)
      → lookup j (put k v d) ≡ (if k == j then some v else lookup j d)
  unfolding lookup put
  lookup-put k j v [] = refl
  lookup-put k j v ((i, w) ∷ d) = ground (arith, lookup-put k j v d)

  pub lookup-put_same : (k : ℕ) (v : V) (d : Dict V) → lookup k (put k v d) ≡ some v
  lookup-put_same k v d = ground (arith, lookup-put k k v d)

  pub lookup-remove :
      (k j : ℕ) (d : Dict V) → lookup j (remove k d) ≡ (if k == j then none else lookup j d)
  unfolding lookup remove
  lookup-remove k j [] = ground arith
  lookup-remove k j ((i, w) ∷ d) = ground (arith, lookup-remove k j d)

  pub lookup-removed :
      (k j : ℕ) (d : Dict V) (v : V) → lookup j (remove k d) ≡ some v → lookup j d ≡ some v
  lookup-removed k j d v e = kept (sym (lookup-remove k j d) ∙ e)
    where
      kept : (if k == j then none else lookup j d) ≡ some v → lookup j d ≡ some v
      kept h = elim (Bool-cases (k == j)) [
        | inl same ↦ absurd (gone (rw same at h))
        | inr other ↦ rw other at h
      ]
        where
          gone : none ≡ some v → ⊥
          gone q = cc
