-- ===== src/Coordinate/Dims.antt =====
-- The dimensions of vectors, and the operations on coordinates that cannot panic.
use cserf.Prelude.{
  if_lem, ℕ, zero, suc, ◌+◌, ◌*◌, ◌/◌, ◌≤◌, ◌<◌, ◌≡◌, ◌≢◌, refl, sym, ap, subst, ◌∙◌, Bool, true,
  false, some, List, [], ◌∷◌, nat_eq, length, length-append, get_elem?, set, length-set, arith,
  Bool-cases, inl, inr,
}
use cserf.Coordinate.{
  with_zero, moved, adjusted, Floats, Coordinate, Draws, zip_vec, add_vec, diff_vec, scale_vec,
  rand_vec, rand_unit_vector, magnitude, unit_from_to, vector_from_to, push_along, apply_force,
  match_dim, distance, distance_to,
}
use cserf.Coordinate.Ring
use cserf.Coordinate.Ring.{LatencyRing, write_index, extend, write_latency, insert, sort, median}

pub zip_vec-some {ℓ} :
    {F : Type ℓ} (f : F → F → F) (xs ys : List F)
    → length xs ≡ length ys
    → (zs : List F) × (zip_vec f xs ys ≡ some zs) × (length zs ≡ length xs)
unfolding zip_vec
zip_vec-some f [] ys h = ([], refl, refl)
zip_vec-some f (x ∷ xs) [] h = absurd (omega arith)
zip_vec-some f (x ∷ xs) (y ∷ ys) h =
    let (zs, e, l) = zip_vec-some f xs ys (omega arith) in (f x y ∷ zs, rw e, omega arith)

nat_eq_yes : {m n : ℕ} → m ≡ n → nat_eq m n ≡ true
nat_eq_yes h = ground (arith, h)

get_elem?-some {ℓ} :
    {A : Type ℓ} (xs : List A) (i : ℕ) → i < length xs → (a : A) × (get_elem? xs i ≡ some a)
get_elem?-some [] i h = absurd (omega arith)
get_elem?-some (x ∷ xs) zero h = (x, refl)
get_elem?-some (x ∷ xs) (suc i) h = get_elem?-some xs i (omega arith)

module _ {F : Type 0} where
  -- Enough of the ring's state to show that no index is out of range.
  pub record IsRing (r : LatencyRing F) : Type 0 where
    pub within : r.next ≤ length r.latencies
    pub few : length r.latencies ≤ r.size
    pub growing : length r.latencies < r.size → r.next ≡ length r.latencies

  pub new-IsRing : (size : ℕ) → IsRing (Ring.new_latency_ring size)
  unfolding Ring.new_latency_ring
  new-IsRing size = record { within = omega arith; few = omega arith; growing = λ h. refl }

  pub record Adds (blank : F) (r : LatencyRing F) (l : F) : Type 0 where
    pub after : LatencyRing F
    pub returns : Ring.add blank r l ≡ some after
    pub ring : IsRing after

  pub add-Adds : (blank : F) (r : LatencyRing F) (l : F) → IsRing r → Adds blank r l
  unfolding Ring.add write_latency write_index extend
  add-Adds blank r l v = elim (Bool-cases (nat_eq r.size 0)) [
    | inl none_it ↦ record { after = r; returns = rw none_it; ring = v }
    | inr some_it ↦ record {
      after = written;
      returns = ground (arith, some_it, in_range);
      ring = ring_after (ground (arith, some_it));
    }
  ]
    where
      place : ℕ
      place = write_index r

      longer : List F
      longer = extend blank r.latencies place

      written : LatencyRing F
      written = record r { next = place + 1; latencies = set longer place l }

      length_same : length (set longer place l) ≡ length longer
      length_same = length-set longer place l

      in_range : r.size ≢ 0 → place < length longer
      in_range some_it = ground (arith, length-append r.latencies (blank ∷ []))

      few_after : r.size ≢ 0 → length longer ≤ r.size
      few_after some_it = ground (arith, length-append r.latencies (blank ∷ []))

      growing_after : r.size ≢ 0 → length longer < r.size → place + 1 ≡ length longer
      growing_after some_it h = ground (arith, length-append r.latencies (blank ∷ []))

      ring_after : r.size ≢ 0 → IsRing written
      ring_after some_it = record {
        within = subst (λ k. place + 1 ≤ k) (sym length_same) (omega (arith, in_range some_it));
        few = subst (λ k. k ≤ r.size) (sym length_same) (few_after some_it);
        growing =
            λ h. growing_after some_it (subst (λ k. k < r.size) length_same h) ∙ sym length_same;
      }

  length-insert :
      (before : F → F → Bool) (x : F) (ys : List F) → length (insert before x ys) ≡ suc (length ys)
  unfolding insert
  length-insert before x [] = refl
  length-insert before x (y ∷ ys) = ground (arith, length-insert before x ys)

  length-sort : (before : F → F → Bool) (xs : List F) → length (sort before xs) ≡ length xs
  unfolding sort
  length-sort before [] = refl
  length-sort before (x ∷ xs) =
      length-insert before x (sort before xs) ∙ ap suc (length-sort before xs)

  pub median-some :
      (blank : F) (before : F → F → Bool) (r : LatencyRing F)
      → (m : F) × (median blank before r ≡ some m)
  unfolding median
  median-some blank before r = elim (Bool-cases (nat_eq (length r.latencies) 0)) [
    | inl empty ↦ (blank, rw empty)
    | inr some_it ↦
        let (m, e) =
          get_elem?-some (sort before r.latencies) (length (sort before r.latencies) / 2)
            (ground (arith, length-sort before r.latencies)) in
        (m, rw some_it e)
  ]

module _ (fl : Floats) where
  open fl use {Float, Duration}

  length-scale_vec : (xs : List Float) (k : Float) → length (scale_vec fl xs k) ≡ length xs
  unfolding scale_vec
  length-scale_vec [] k = refl
  length-scale_vec (x ∷ xs) k = ap suc (length-scale_vec xs k)

  length-rand_vec : (draw : ℕ → Float) (i dim : ℕ) → length (rand_vec fl draw i dim) ≡ dim
  unfolding rand_vec
  length-rand_vec draw i zero = refl
  length-rand_vec draw i (suc dim) = ap suc (length-rand_vec draw (i + 1) dim)

  -- Round `k` of the draws gives a vector that is long enough.
  abbrev pub IsLong : (ℕ → Float) → ℕ → ℕ → Type 0
  IsLong draw i dim = fl.le (magnitude fl (rand_vec fl draw i dim)) fl.threshold ≡ false

  first_round :
      (draw : ℕ → Float) (fuel i dim : ℕ)
      → IsLong draw i dim
      → (u : List Float) × (rand_unit_vector fl draw (suc fuel) i dim ≡ some u) × (length u ≡ dim)
  unfolding rand_unit_vector
  first_round draw fuel i dim long = (
    scale_vec fl (rand_vec fl draw i dim) (fl.div fl.one (magnitude fl (rand_vec fl draw i dim))),
    rw long,
    length-scale_vec (rand_vec fl draw i dim)
          (fl.div fl.one (magnitude fl (rand_vec fl draw i dim)))
        ∙ length-rand_vec draw i dim,
  )

  -- The loop of `randUnitVector` ends as soon as a vector is long enough: if the one drawn in round `k` is,
  -- any fuel above `k` is enough, and the result has the dimension that was asked for.
  pub rand_unit_vector_lem :
      (draw : ℕ → Float) (fuel k i dim : ℕ)
      → k < fuel
      → IsLong draw (i + k * dim) dim
      → (u : List Float) × (rand_unit_vector fl draw fuel i dim ≡ some u) × (length u ≡ dim)
  unfolding rand_unit_vector
  rand_unit_vector_lem draw zero k i dim h long = absurd (omega arith)
  rand_unit_vector_lem draw (suc fuel) zero i dim h long =
      first_round draw fuel i dim (subst (λ j. IsLong draw j dim) (omega arith) long)
  rand_unit_vector_lem draw (suc fuel) (suc k) i dim h long =
      elim (Bool-cases (fl.le (magnitude fl (rand_vec fl draw i dim)) fl.threshold)) [
        | inl short ↦ rw short (
            rand_unit_vector_lem draw fuel k (i + dim) dim (omega arith)
              (subst (λ j. IsLong draw j dim) (omega arith) long))
        | inr enough ↦ first_round draw fuel i dim enough
      ]

  -- The draws make a vector of `dim` numbers that is long enough, in a round within the fuel.
  abbrev pub IsLucky : Draws fl → ℕ → Type 0
  IsLucky d dim = (k : ℕ) × (k < d.fuel) × IsLong d.draw (k * dim) dim

  unit_from_to-some :
      (d : Draws fl) (vec : List Float)
      → IsLucky d (length vec)
      → (u : List Float) × (m : Float) × (unit_from_to fl d vec ≡ some (u, m))
        × (length u ≡ length vec)
  unfolding unit_from_to
  unit_from_to-some d vec (k, h, long) = elim (Bool-cases (fl.lt fl.threshold (magnitude fl vec))) [
    | inl far ↦ (
      scale_vec fl vec (fl.div fl.one (magnitude fl vec)),
      magnitude fl vec,
      rw far refl,
      length-scale_vec vec (fl.div fl.one (magnitude fl vec)),
    )
    | inr near ↦
        let (u, e, l) =
          rand_unit_vector_lem d.draw d.fuel k 0 (length vec) h
            (subst (λ j. IsLong d.draw j (length vec)) (omega arith) long) in
        (u, fl.zero, rw near (ap (with_zero fl) e), l)
  ]

  push_along-some :
      (from to : Coordinate Float) (min_height force : Float) (unit : List Float) (mag : Float)
      → length unit ≡ length to.euclide
      → (c : Coordinate Float) × (push_along fl from to min_height force unit mag ≡ some c)
        × (length c.euclide ≡ length to.euclide)
  unfolding push_along add_vec
  push_along-some from to min_height force unit mag l =
      let (e, ok, l') =
        zip_vec-some fl.add to.euclide (scale_vec fl unit force)
          (sym (length-scale_vec unit force ∙ l)) in
      (
        moved fl from to min_height force mag e,
        rw ok refl,
        if_lem (λ (c : Coordinate Float). length c.euclide ≡ length to.euclide)
            (fl.lt fl.threshold mag) (λ _. l') (λ _. l'),
      )

  pub apply_force-some :
      (d : Draws fl) (from to : Coordinate Float) (min_height force : Float)
      → length from.euclide ≡ length to.euclide
      → IsLucky d (length to.euclide)
      → (c : Coordinate Float) × (apply_force fl d from to min_height force ≡ some c)
        × (length c.euclide ≡ length to.euclide)
  unfolding apply_force match_dim vector_from_to diff_vec
  apply_force-some d from to min_height force h lucky =
      let (v, ok, l) = zip_vec-some fl.sub to.euclide from.euclide (sym h) in
      let (u, m, unit, lu) = unit_from_to-some d v (subst (IsLucky d) (sym l) lucky) in
      let (c, pushed, lc) = push_along-some from to min_height force u m (lu ∙ l) in
      (c, rw (nat_eq_yes h, ok, unit) pushed, lc)

  pub distance-some :
      (this that : Coordinate Float)
      → length this.euclide ≡ length that.euclide
      → (x : Float) × (distance fl this that ≡ some x)
  unfolding distance diff_vec
  distance-some this that h =
      let (v, ok, l) = zip_vec-some fl.sub this.euclide that.euclide h in
      (fl.add (fl.add (magnitude fl v) this.height) that.height, rw ok refl)

  pub distance_to-some :
      (this that : Coordinate Float)
      → length this.euclide ≡ length that.euclide
      → (x : Duration) × (distance_to fl this that ≡ some x)
  unfolding distance_to match_dim
  distance_to-some this that h =
      let (x, ok) = distance-some this that h in
      (fl.from_seconds (adjusted fl this that x), rw (nat_eq_yes h, ok) refl)
