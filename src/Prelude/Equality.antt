-- ===== src/Prelude/Equality.antt =====
-- The types that serve as keys of a map: those whose values Go's `==` compares.
use Prim.Native.Nat.{ℕ}
use mathlib.Core.Path.{◌≡◌}
use mathlib.Core.Logic.{◌↔◌}
use mathlib.Core.Bool.{Bool, true}
use cserf.Prelude.Tests.{nat_eq, nat_eq_iff}

pub record Key {κ} (K : Type κ) : Type κ where
  pub same : K → K → Bool
  pub means : (j k : K) → (same j k ≡ true) ↔ (j ≡ k)

instance abbrev pub nat_key : Key ℕ
nat_key = record { means = nat_eq_iff; same = nat_eq }
