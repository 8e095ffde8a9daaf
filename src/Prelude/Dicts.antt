-- ===== src/Prelude/Dicts.antt =====
-- Go's maps as association lists. A `range` over a map goes through the list from the front; the
-- theorems hold for every list, and so for every order that the runtime may choose.
use mathlib.Core.Path.{◌≡◌, refl, subst}
use mathlib.Core.Option.{Option, none, some}
use mathlib.Core.List.{List, [], ◌∷◌}
use native.Mathlib.Omega.{arith}
use mathlib.Core.Logic.{inl, inr}
use cserf.Prelude.Tests.{if◌then◌else◌, Bool-cases}
use cserf.Prelude.Equality.{Key}

abbrev pub Dict {ℓ κ} : Type ℓ → Type κ → Type (ℓ ⊔ κ)
Dict K V = List (K × V)

module _ {ℓ κ} {K : Type ℓ} {V : Type κ} ⦃e : Key K⦄ where
  -- `m[k]` with its `ok`
  unfoldable pub get : Dict K V → K → Option V
  get [] k = none
  get ((j, v) ∷ m) k = if e.same j k then some v else get m k

  -- `m[k] = v`
  unfoldable pub put : Dict K V → K → V → Dict K V
  put [] k v = (k, v) ∷ []
  put ((j, w) ∷ m) k v = if e.same j k then (k, v) ∷ m else (j, w) ∷ put m k v

  -- `delete(m, k)`
  unfoldable pub remove : Dict K V → K → Dict K V
  remove [] k = []
  remove ((j, w) ∷ m) k = let rest = remove m k in if e.same j k then rest else (j, w) ∷ rest

  pub get-put :
      (m : Dict K V) (k j : K) (v : V)
      → get (put m k v) j ≡ (if e.same k j then some v else get m j)
  unfolding get put
  get-put [] k j v = refl
  get-put ((i, w) ∷ m) k j v =
      ground (arith, e.means k j, e.means i k, e.means i j, get-put m k j v)

  pub get-remove :
      (m : Dict K V) (k j : K) → get (remove m k) j ≡ (if e.same k j then none else get m j)
  unfolding get remove
  get-remove [] k j = ground arith
  get-remove ((i, w) ∷ m) k j =
      ground (arith, e.means k j, e.means i k, e.means i j, get-remove m k j)

pub ruleset dict_laws = (get-put, get-remove)

module _ {ℓ κ} {K : Type ℓ} {V : Type κ} ⦃e : Key K⦄ where
  -- Every key stands once, as in a map.
  abbrev pub IsMap : Dict K V → Type κ
  IsMap [] = Unit
  IsMap ((k, v) ∷ m) = (get m k ≡ none) × IsMap m

  pub put-IsMap : (m : Dict K V) (k : K) (v : V) → IsMap m → IsMap (put m k v)
  unfolding get put
  put-IsMap [] k v h = (refl, tt)
  put-IsMap ((j, w) ∷ m) k v h = elim (Bool-cases (e.same j k)) [
    | inl same ↦ rw same (subst (λ z. get m z ≡ none) ((e.means j k).0 same) h.0, h.1)
    | inr other ↦
        rw other
          (ground (arith, get-put m k j v, e.means j k, e.means k j, h.0), put-IsMap m k v h.1)
  ]

  pub remove-IsMap : (m : Dict K V) (k : K) → IsMap m → IsMap (remove m k)
  unfolding get remove
  remove-IsMap [] k h = tt
  remove-IsMap ((j, w) ∷ m) k h = elim (Bool-cases (e.same j k)) [
    | inl found ↦ rw found (remove-IsMap m k h.1)
    | inr other ↦ rw other (ground (arith, get-remove m k j, h.0), remove-IsMap m k h.1)
  ]
