-- ===== src/Snapshot/Alive.antt =====
-- `AliveNodes` of snapshot.go: the known nodes, in a random order.
use cserf.Prelude.{
  ℕ, zero, suc, ◌+◌, ◌%◌, ◌≡◌, refl, ap, subst, ◌∙◌, Bool, none, some, List, [], ◌∷◌, Text, Dict,
  get_elem?, set, length, if◌then◌else◌, arith, Option-cases, inl, inr,
}
use cserf.Snapshot.{Snapshotter}
use cserf.Lifecycle.{NodeIdAddr}

-- The copy of the map.
unfoldable pub listed : Dict Text Text → List NodeIdAddr
listed [] = []
listed ((id, addr) ∷ m) = record { id = id; addr = addr } ∷ listed m

unfoldable pub swap : List NodeIdAddr → ℕ → ℕ → List NodeIdAddr
swap xs i j = elim (get_elem? xs i) [
  | none ↦ xs
  | some a ↦ elim (get_elem? xs j) [ none ↦ xs | some b ↦ set (set xs i b) j a ]
]

-- The Fisher-Yates loop with `left` rounds to go; `draw i` is the random number of round `i`.
unfoldable pub shuffle : (ℕ → ℕ) → ℕ → ℕ → List NodeIdAddr → List NodeIdAddr
unfolding swap
shuffle draw i zero xs = xs
shuffle draw i (suc left) xs = shuffle draw (i + 1) left (swap xs i (draw i % (i + 1)))

unfoldable pub alive_nodes : (ℕ → ℕ) → Snapshotter → List NodeIdAddr
unfolding listed shuffle
alive_nodes draw s = shuffle draw 0 (length (listed s.alive_nodes)) (listed s.alive_nodes)

abbrev pub one : Bool → ℕ
one b = if b then 1 else 0

abbrev pub count : (NodeIdAddr → Bool) → List NodeIdAddr → ℕ
count p [] = 0
count p (x ∷ xs) = one (p x) + count p xs

count-set :
    (p : NodeIdAddr → Bool) (xs : List NodeIdAddr) (i : ℕ) (a b : NodeIdAddr)
    → get_elem? xs i ≡ some a
    → count p (set xs i b) + one (p a) ≡ count p xs + one (p b)
count-set p [] i a b e = absurd (ground (arith, e))
count-set p (x ∷ xs) zero a b e =
    let same : x ≡ a = ground (arith, e) in
    subst (λ z. one (p b) + count p xs + one (p z) ≡ one (p x) + count p xs + one (p b)) same
      (omega arith)
count-set p (x ∷ xs) (suc i) a b e = omega (arith, count-set p xs i a b e)

get_elem?-set :
    (xs : List NodeIdAddr) (i j : ℕ) (a b : NodeIdAddr)
    → get_elem? xs i ≡ some a
    → get_elem? xs j ≡ some b
    → get_elem? (set xs i b) j ≡ some b
get_elem?-set [] i j a b e e' = absurd (ground (arith, e))
get_elem?-set (x ∷ xs) zero zero a b e e' = refl
get_elem?-set (x ∷ xs) zero (suc j) a b e e' = e'
get_elem?-set (x ∷ xs) (suc i) zero a b e e' = e'
get_elem?-set (x ∷ xs) (suc i) (suc j) a b e e' = get_elem?-set xs i j a b e e'

count-swap :
    (p : NodeIdAddr → Bool) (xs : List NodeIdAddr) (i j : ℕ) → count p (swap xs i j) ≡ count p xs
unfolding swap
count-swap p xs i j = elim (Option-cases (get_elem? xs i)) [
  | inl out ↦ let same : swap xs i j ≡ xs = ground (arith, out) in ap (count p) same
  | inr (a, e) ↦ elim (Option-cases (get_elem? xs j)) [
    | inl out ↦ let same : swap xs i j ≡ xs = ground (arith, e, out) in ap (count p) same
    | inr (b, e') ↦
        let swapped : swap xs i j ≡ set (set xs i b) j a = ground (arith, e, e') in
        ap (count p) swapped
        ∙ omega (
          arith,
          count-set p xs i a b e,
          count-set p (set xs i b) j b a (get_elem?-set xs i j a b e e'),
        )
  ]
]

count-shuffle :
    (p : NodeIdAddr → Bool) (draw : ℕ → ℕ) (i left : ℕ) (xs : List NodeIdAddr)
    → count p (shuffle draw i left xs) ≡ count p xs
unfolding shuffle
count-shuffle p draw i zero xs = refl
count-shuffle p draw i (suc left) xs =
    count-shuffle p draw (i + 1) left (swap xs i (draw i % (i + 1)))
    ∙ count-swap p xs i (draw i % (i + 1))

-- Whatever the random numbers, the shuffled list has the same nodes: as many that pass any test.
pub alive_nodes_lem :
    (draw : ℕ → ℕ) (s : Snapshotter) (p : NodeIdAddr → Bool)
    → count p (alive_nodes draw s) ≡ count p (listed s.alive_nodes)
unfolding alive_nodes
alive_nodes_lem draw s p =
    count-shuffle p draw 0 (length (listed s.alive_nodes)) (listed s.alive_nodes)
