-- ===== src/Coordinate.antt =====
-- coordinate/coordinate.go: points of the network's latency space, over any arithmetic of floats.
-- A result `none` is a run-time panic, or a random vector that was not found within the fuel.
pub mod Ring
pub mod Node
pub mod Window
pub mod Dims
pub mod Sound
pub mod Run
pub mod Fixtures
mod Tests
use cserf.Prelude.{
  ℕ, zero, suc, ◌+◌, ◌>>=◌, Bool, true, false, ◌&&◌, Option, none, some, List, [], ◌∷◌, nat_eq,
  length, replicate, if◌then◌else◌,
}

-- What the code uses of `float64`, `math` and `time.Duration`. `is_finite` is neither infinite nor NaN,
-- `before` the order of `sort.Float64s`, `from_seconds` the conversion of seconds to a duration.
pub record Floats : Type 1 where
  pub Float : Type 0
  pub Duration : Type 0
  pub zero : Float
  pub one : Float
  pub two : Float
  pub half : Float
  pub minus_one : Float
  pub threshold : Float
  pub add : Float → Float → Float
  pub sub : Float → Float → Float
  pub mul : Float → Float → Float
  pub div : Float → Float → Float
  pub sqrt : Float → Float
  pub abs : Float → Float
  pub max : Float → Float → Float
  pub square : Float → Float
  pub lt : Float → Float → Bool
  pub le : Float → Float → Bool
  pub before : Float → Float → Bool
  pub is_finite : Float → Bool
  pub from_ℕ : ℕ → Float
  pub from_seconds : Float → Duration
  pub seconds : Duration → Float
  pub is_negative : Duration → Bool
  pub is_above_max_rtt : Duration → Bool

-- `Coordinate`
pub record Coordinate (F : Type 0) : Type 0 where
  pub euclide : List F
  pub height : F
  pub error : F
  pub adjustment : F

-- `Config`
pub record Config (F : Type 0) : Type 0 where
  pub dimensionality : ℕ
  pub vivaldi_error_max : F
  pub vivaldi_ce : F
  pub vivaldi_cc : F
  pub adjustment_window_size : ℕ
  pub height_min : F
  pub latency_filter_size : ℕ
  pub gravity_rho : F

abbrev pub cons_some {ℓ} : {A : Type ℓ} → A → Option (List A) → Option (List A)
cons_some a none = none
cons_some a (some xs) = some (a ∷ xs)

-- The loop of `addVec` and `diffVec`: an index past the end of the second vector panics.
unfoldable pub zip_vec {ℓ} : {F : Type ℓ} → (F → F → F) → List F → List F → Option (List F)
zip_vec f [] ys = some []
zip_vec f (x ∷ xs) [] = none
zip_vec f (x ∷ xs) (y ∷ ys) = cons_some (f x y) (zip_vec f xs ys)

module _ (fl : Floats) where
  open fl use {Float, Duration}

  unfoldable pub new_coordinate : Config Float → Coordinate Float
  new_coordinate config = record {
    euclide = replicate config.dimensionality fl.zero;
    height = config.height_min;
    error = config.vivaldi_error_max;
    adjustment = fl.zero;
  }

  -- The loop of `isValidCoord`.
  unfoldable pub all_finite : List Float → Bool
  all_finite [] = true
  all_finite (v ∷ vs) = if fl.is_finite v then all_finite vs else false

  unfoldable pub is_valid_coord : Coordinate Float → Bool
  unfolding all_finite
  is_valid_coord c =
      if all_finite c.euclide
      then fl.is_finite c.height && (fl.is_finite c.error && fl.is_finite c.adjustment)
      else false

  unfoldable pub match_dim : Coordinate Float → Coordinate Float → Bool
  match_dim this that = nat_eq (length this.euclide) (length that.euclide)

  unfoldable pub add_vec : List Float → List Float → Option (List Float)
  unfolding zip_vec
  add_vec = zip_vec fl.add

  unfoldable pub diff_vec : List Float → List Float → Option (List Float)
  unfolding zip_vec
  diff_vec = zip_vec fl.sub

  unfoldable pub scale_vec : List Float → Float → List Float
  scale_vec [] factor = []
  scale_vec (x ∷ xs) factor = fl.mul x factor ∷ scale_vec xs factor

  -- The loop of `magnitude`, from the sum so far.
  unfoldable pub sum_squares : Float → List Float → Float
  sum_squares sum [] = sum
  sum_squares sum (x ∷ xs) = sum_squares (fl.add sum (fl.mul x x)) xs

  unfoldable pub magnitude : List Float → Float
  unfolding sum_squares
  magnitude vec = fl.sqrt (sum_squares fl.zero vec)

  -- The inner loop of `randUnitVector`; `draw i` is the `i`-th value of `rand.Float64`.
  unfoldable pub rand_vec : (ℕ → Float) → ℕ → ℕ → List Float
  rand_vec draw i zero = []
  rand_vec draw i (suc dim) = fl.sub (draw i) fl.half ∷ rand_vec draw (i + 1) dim

  -- `randUnitVector`: a vector is drawn until one is long enough, `fuel` times at most.
  unfoldable pub rand_unit_vector : (ℕ → Float) → ℕ → ℕ → ℕ → Option (List Float)
  unfolding rand_vec magnitude
  rand_unit_vector draw zero i dim = none
  rand_unit_vector draw (suc fuel) i dim =
      let vec = rand_vec draw i dim in
      let rest = rand_unit_vector draw fuel (i + dim) dim in
      if fl.le (magnitude vec) fl.threshold
      then rest
      else some (scale_vec vec (fl.div fl.one (magnitude vec)))

  -- The values drawn by a call, and how often a vector is drawn.
  pub record Draws : Type 0 where
    pub draw : ℕ → Float
    pub fuel : ℕ

  abbrev pub with_zero : Option (List Float) → Option (List Float × Float)
  with_zero none = none
  with_zero (some u) = some (u, fl.zero)

  unfoldable pub unit_from_to : Draws → List Float → Option (List Float × Float)
  unfolding rand_unit_vector scale_vec
  unit_from_to d vec =
      if fl.lt fl.threshold (magnitude vec)
      then some (scale_vec vec (fl.div fl.one (magnitude vec)), magnitude vec)
      else with_zero (rand_unit_vector d.draw d.fuel 0 (length vec))

  unfoldable pub vector_from_to : Draws → List Float → List Float → Option (List Float × Float)
  unfolding unit_from_to diff_vec
  vector_from_to d from to = do vec ← diff_vec to from; unit_from_to d vec

  abbrev pub moved :
      Coordinate Float → Coordinate Float → Float → Float → Float → List Float → Coordinate Float
  moved from to min_height force mag e =
      if fl.lt fl.threshold mag
      then record to {
        euclide = e;
        height =
            fl.max (fl.add to.height (fl.div (fl.mul (fl.add from.height to.height) force) mag))
              min_height;
      }
      else record to { euclide = e }

  -- The point that is moved along the unit vector.
  unfoldable pub push_along :
      Coordinate Float
      → Coordinate Float
      → Float
      → Float
      → List Float
      → Float
      → Option (Coordinate Float)
  unfolding add_vec scale_vec
  push_along from to min_height force unit mag = do
    e ← add_vec to.euclide (scale_vec unit force)
    some (moved from to min_height force mag e)

  unfoldable pub apply_force :
      Draws → Coordinate Float → Coordinate Float → Float → Float → Option (Coordinate Float)
  unfolding match_dim vector_from_to push_along
  apply_force d from to min_height force =
      if match_dim from to
      then (vector_from_to d from.euclide to.euclide >>= λ (unit, mag).
          push_along from to min_height force unit mag)
      else none

  unfoldable pub distance : Coordinate Float → Coordinate Float → Option Float
  unfolding diff_vec magnitude
  distance this that = do
    v ← diff_vec this.euclide that.euclide
    some (fl.add (fl.add (magnitude v) this.height) that.height)

  abbrev pub adjusted : Coordinate Float → Coordinate Float → Float → Float
  adjusted c other d =
      let a = fl.add (fl.add d c.adjustment) other.adjustment in if fl.le a fl.zero then d else a

  -- `DistanceTo`
  unfoldable pub distance_to : Coordinate Float → Coordinate Float → Option Duration
  unfolding match_dim distance
  distance_to c other =
      if match_dim c other
      then (distance c other >>= λ d. some (fl.from_seconds (adjusted c other d)))
      else none
