-- ===== src/Coordinate/Ring.antt =====
-- The ring of the latest latencies in coordinate/node.go.
use cserf.Prelude.{
  ℕ, ◌+◌, ◌/◌, Bool, Option, none, some, List, [], ◌∷◌, ◌++◌, nat_eq, ltb, length, get_elem?, set,
  if◌then◌else◌,
}

-- `latencyRing`; `next` is `idx + 1`, since `idx` begins at -1.
pub record LatencyRing (F : Type 0) : Type 0 where
  pub next : ℕ
  pub size : ℕ
  pub latencies : List F

unfoldable pub new_latency_ring : {F : Type 0} → ℕ → LatencyRing F
new_latency_ring size = record { next = 0; size = size; latencies = [] }

module _ {F : Type 0} where
  -- The index that a value is written to.
  unfoldable pub write_index : LatencyRing F → ℕ
  write_index r = if nat_eq r.next r.size then 0 else r.next

  -- The list is extended if the index is just past its end; `zero` is the value it is extended by.
  unfoldable pub extend : F → List F → ℕ → List F
  extend zero xs i = if nat_eq (length xs) i then xs ++ (zero ∷ []) else xs

  -- The write, which panics at an index out of range.
  unfoldable pub write_latency : LatencyRing F → ℕ → List F → F → Option (LatencyRing F)
  write_latency r i xs l =
      if ltb i (length xs) then some (record r { next = i + 1; latencies = set xs i l }) else none

  unfoldable pub add : F → LatencyRing F → F → Option (LatencyRing F)
  unfolding write_index extend write_latency
  add zero r l =
      if nat_eq r.size 0
      then some r
      else write_latency r (write_index r) (extend zero r.latencies (write_index r)) l

  -- `sort.Float64s` in its order `before`.
  unfoldable pub insert : (F → F → Bool) → F → List F → List F
  insert before x [] = x ∷ []
  insert before x (y ∷ ys) =
      let rest = insert before x ys in if before y x then y ∷ rest else x ∷ y ∷ ys

  unfoldable pub sort : (F → F → Bool) → List F → List F
  unfolding insert
  sort before [] = []
  sort before (x ∷ xs) = insert before x (sort before xs)

  unfoldable pub median : F → (F → F → Bool) → LatencyRing F → Option F
  unfolding sort
  median zero before r =
      if nat_eq (length r.latencies) 0
      then some zero
      else get_elem? (sort before r.latencies) (length (sort before r.latencies) / 2)
