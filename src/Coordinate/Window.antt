-- ===== src/Coordinate/Window.antt =====
-- The ring of latencies against the sequence of all values.
use native.Mathlib.Nat.{mod-lt, mod-eq_of_lt, mod_self, suc-mod, div-add-mod}
use cserf.Prelude.{
  ℕ, suc, ◌+◌, ◌%◌, ◌≤◌, ◌<◌, ◌≡◌, ◌≢◌, refl, ◌∙◌, Option, none, some, List, [], ◌∷◌, ◌++◌, nat_eq,
  ltb, length, length-append, get_or, get_or-snoc, set, length-set, get_or-set_self, get_or-set_ne,
  if◌then◌else◌, arith, ℕ_discrete, append_assoc, append-nil,
}
use cserf.Coordinate.Ring
use cserf.Coordinate.Ring.{LatencyRing, new_latency_ring, write_index, extend, write_latency}

-- Two numbers closer than `n` have different remainders.
close : (n a c : ℕ) → a < c → c < a + n → a % n ≢ c % n
close n a c lt near e = grind (arith, div-add-mod a n, div-add-mod c n)

next_index : (m n : ℕ) → 0 < n → (if nat_eq (m % n + 1) n then 0 else m % n + 1) ≡ (m + 1) % n
next_index m n pos =
    ground (arith, suc-mod m n, mod_self n, mod-lt m pos, mod-eq_of_lt {n = suc (m % n)} {m = n})

module _ {F : Type 0} (d : F) where
  -- The ring after the values `xs`: it holds the last `size` of them, value `k` at index `k % size`.
  pub record Holds (size : ℕ) (r : LatencyRing F) (xs : List F) : Type 0 where
    pub sized : r.size ≡ size
    pub index : write_index r ≡ length xs % size
    pub filled : length r.latencies ≡ (if ltb (length xs) size then length xs else size)
    pub kept :
        (k : ℕ)
        → k < length xs
        → length xs ≤ k + size
        → get_or r.latencies (k % size) d ≡ get_or xs k d

  pub new-Holds : (size : ℕ) → 0 < size → Holds size (new_latency_ring size) []
  unfolding new_latency_ring write_index
  new-Holds size pos = record {
    sized = refl;
    index = ground (arith, mod-eq_of_lt {n = 0} {m = size} pos);
    filled = ground arith;
    kept = λ k h le. absurd (omega arith);
  }

  module _ {size : ℕ} {r : LatencyRing F} {xs : List F} (pos : 0 < size) (h : Holds size r xs)
      (l : F) where
    extended : List F
    extended = extend d r.latencies (length xs % size)

    length-extended :
        (length xs % size < length extended)
        × (length extended ≡ (if ltb (length xs + 1) size then length xs + 1 else size))
    unfolding extended extend
    length-extended = (
      ground (
        arith,
        h.filled,
        mod-lt (length xs) pos,
        mod-eq_of_lt {n = length xs} {m = size},
        length-append r.latencies (d ∷ []),
      ),
      ground (
        arith,
        h.filled,
        mod-lt (length xs) pos,
        mod-eq_of_lt {n = length xs} {m = size},
        length-append r.latencies (d ∷ []),
      ),
    )

    written : LatencyRing F
    written = record r {
      next = length xs % size + 1;
      latencies = set extended (length xs % size) l;
    }

    add-written : Ring.add d r l ≡ some written
    unfolding Ring.add write_latency written extended
    add-written = ground (arith, h.sized, h.index, length-extended.0)

    get_or-extended : (k : ℕ) → k ≢ length xs % size → get_or extended k d ≡ get_or r.latencies k d
    unfolding extended extend
    get_or-extended k ne = ground (arith, get_or-snoc r.latencies k d d)

    length-snoc : length (xs ++ (l ∷ [])) ≡ length xs + 1
    length-snoc = omega (arith, length-append xs (l ∷ []))

    kept-written :
        (k : ℕ)
        → k < length xs + 1
        → length xs + 1 ≤ k + size
        → get_or (set extended (length xs % size) l) (k % size) d ≡ get_or (xs ++ (l ∷ [])) k d
    kept-written k lt le = elim (ℕ_discrete k (length xs)) [
      | yes same ↦ rw same (
          get_or-set_self extended (length xs % size) l d length-extended.0
          ∙ ground (arith, get_or-snoc xs (length xs) l d))
      | no other ↦
          let apart = close size k (length xs) (omega arith) (omega arith) in
          get_or-set_ne extended (length xs % size) (k % size) l d (λ e. apart (ground (arith, e)))
          ∙ get_or-extended (k % size) apart
          ∙ h.kept k (omega arith) (omega arith)
          ∙ ground (arith, get_or-snoc xs k l d)
    ]

    pub add-Holds :
        (r' : LatencyRing F) × (Ring.add d r l ≡ some r') × Holds size r' (xs ++ (l ∷ []))
    unfolding written write_index
    add-Holds = (
      written,
      add-written,
      record {
        sized = h.sized;
        index = rw (length-snoc, h.sized) (next_index (length xs) size pos);
        filled = rw length-snoc (length-set extended (length xs % size) l ∙ length-extended.1);
        kept = λ k lt le. kept-written k (omega (arith, length-snoc)) (omega (arith, length-snoc));
      },
    )

  -- All the values, added in order.
  unfoldable pub add_all : LatencyRing F → List F → Option (LatencyRing F)
  add_all r [] = some r
  add_all r (l ∷ ls) = elim (Ring.add d r l) [ none ↦ none | some r' ↦ add_all r' ls ]

  add_all-Holds :
      (ls : List F) {size : ℕ} {r : LatencyRing F} (xs : List F)
      → 0 < size
      → Holds size r xs
      → (r' : LatencyRing F) × (add_all r ls ≡ some r') × Holds size r' (xs ++ ls)
  unfolding add_all
  add_all-Holds [] {size} {r} xs pos h = (r, refl, rw (append-nil xs) h)
  add_all-Holds (l ∷ ls) xs pos h =
      let (r1, e1, h1) = add-Holds pos h l in
      let (r2, e2, h2) = add_all-Holds ls (xs ++ (l ∷ [])) pos h1 in
      (r2, ground (arith, e1, e2), rw (← append_assoc xs (l ∷ []) ls) h2)

  -- A ring of positive size never panics, and holds the latest values: after any values `ls` it has as many
  -- as were added, up to its size, and value number `k` of the last `size` ones stands at place `k % size`.
  pub window_lem :
      (size : ℕ) (ls : List F) (k : ℕ)
      → 0 < size
      → k < length ls
      → length ls ≤ k + size
      → (r : LatencyRing F) × (add_all (new_latency_ring size) ls ≡ some r)
        × (length r.latencies ≡ (if ltb (length ls) size then length ls else size))
        × (get_or r.latencies (k % size) d ≡ get_or ls k d)
  window_lem size ls k pos lt le =
      let (r, e, h) = add_all-Holds ls [] pos (new-Holds size pos) in
      (r, e, h.filled, h.kept k lt le)
