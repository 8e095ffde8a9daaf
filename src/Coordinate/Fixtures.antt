-- ===== src/Coordinate/Fixtures.antt =====
-- Coordinates over small whole numbers in place of floats, for tests.
use cserf.Prelude.{ℕ, ◌+◌, ◌-◌, ◌*◌, ◌/◌, refl, false, [], ◌∷◌, ltb, leb, arith, if◌then◌else◌}
use cserf.Coordinate.{Floats, Config, Coordinate, Draws, rand_vec, magnitude, sum_squares}
use cserf.Coordinate.Dims.{IsLong, IsLucky}
use cserf.Coordinate.Sound.{IsSane}

abbrev pub small : Floats
small = record {
  Float = ℕ;
  Duration = ℕ;
  zero = 0;
  one = 1;
  two = 2;
  half = 0;
  minus_one = 0;
  threshold = 0;
  add = λ x y. x + y;
  sub = λ x y. x - y;
  mul = λ x y. x * y;
  div = λ x y. x / y;
  sqrt = λ x. x;
  abs = λ x. x;
  max = λ x y. if ltb x y then y else x;
  square = λ x. x * x;
  lt = ltb;
  le = leb;
  before = ltb;
  is_finite = λ x. ltb x 100;
  from_ℕ = λ x. x;
  from_seconds = λ x. x;
  seconds = λ x. x;
  is_negative = λ x. false;
  is_above_max_rtt = λ x. ltb 10 x;
}

abbrev pub config : Config ℕ
config = record {
  dimensionality = 2;
  vivaldi_error_max = 3;
  vivaldi_ce = 1;
  vivaldi_cc = 1;
  adjustment_window_size = 2;
  height_min = 1;
  latency_filter_size = 3;
  gravity_rho = 1;
}

-- Only from the third value on is a vector long enough.
abbrev pub draw : ℕ → ℕ
draw i = if ltb i 2 then 0 else 1

abbrev pub draws : Draws small
draws = record { draw = draw; fuel = 2 }

abbrev pub far : Coordinate ℕ
far = record { euclide = 3 ∷ 4 ∷ []; height = 1; error = 2; adjustment = 0 }

pub enough : IsLong small draw 2 2
unfolding rand_vec magnitude sum_squares
enough = refl

pub lucky : IsLucky small draws 2
lucky = (1, omega arith, enough)

pub sane : IsSane small config
sane = record { zero = refl; height = refl; error = refl }
