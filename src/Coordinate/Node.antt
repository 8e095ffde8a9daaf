-- ===== src/Coordinate/Node.antt =====
-- coordinate/node.go: a node that moves its coordinate after each round trip to another node.
-- A result `none` is a run-time panic, or a random vector that was not found within the fuel.
use cserf.Prelude.{
  ℕ, ◌+◌, ◌>>=◌, ◌||◌, Option, none, some, List, [], ◌∷◌, Text, text_key, Dict, get, put, remove,
  nat_eq, if◌then◌else◌,
}
use cserf.Coordinate.{
  Floats, Coordinate, Config, Draws, new_coordinate, is_valid_coord, match_dim, apply_force,
  distance, distance_to,
}
use cserf.Coordinate.Ring
use cserf.Coordinate.Ring.{LatencyRing, new_latency_ring, median}

-- The errors that the methods return.
pub data Error : Type 0 where
  bad_dimensionality bad_dimensions invalid_coordinate invalid_rtt : Error

module _ (fl : Floats) where
  open fl use {Float, Duration}

  -- `Node`
  pub record Node : Type 0 where
    pub coord : Coordinate Float
    pub origin : Coordinate Float
    pub config : Config Float
    pub latencies_diff : LatencyRing Float
    pub latencies_map : Dict Text (LatencyRing Float)
    pub num_resets : ℕ

  -- `NewNode`, with `none` for its error.
  unfoldable pub new_node : Config Float → Option Node
  new_node config =
      if nat_eq config.dimensionality 0
      then none
      else some (record {
        coord = new_coordinate fl config;
        origin = new_coordinate fl config;
        config = config;
        latencies_diff = new_latency_ring config.adjustment_window_size;
        latencies_map = [];
        num_resets = 0;
      })

  unfoldable pub check_coordinate : Node → Coordinate Float → Option Error
  check_coordinate n coord =
      if match_dim fl n.coord coord
      then (if is_valid_coord fl coord then none else some Error.invalid_coordinate)
      else some Error.bad_dimensions

  unfoldable pub set_coordinate : Node → Coordinate Float → Option Error × Node
  unfolding check_coordinate
  set_coordinate n coord = elim (check_coordinate n coord) [
    | some e ↦ (some e, n)
    | none ↦ (none, record n { coord = coord })
  ]

  unfoldable pub forget_node : Node → Text → Node
  forget_node n node = record n { latencies_map = remove n.latencies_map node }

  abbrev pub with_median : Node → LatencyRing Float → Option (Node × Float)
  with_median n r = do m ← median fl.zero fl.before r; some (n, m)

  unfoldable pub add_to : Node → Text → Float → Option (LatencyRing Float) → Option (Node × Float)
  add_to n node rtt none = do
    r ← Ring.add fl.zero (new_latency_ring n.config.latency_filter_size) rtt
    with_median n r
  add_to n node rtt (some samples) = do
    r ← Ring.add fl.zero samples rtt
    with_median (record n { latencies_map = put n.latencies_map node r }) r

  -- `addLatency`: a ring that is made for a new node is not put into the map.
  unfoldable pub add_latency : Node → Text → Float → Option (Node × Float)
  unfolding add_to
  add_latency n node rtt = add_to n node rtt (get n.latencies_map node)

  abbrev pub at_least : Float → Float → Float
  at_least low x = if fl.lt x low then low else x

  abbrev pub at_most : Float → Float → Float
  at_most high x = if fl.lt high x then high else x

  -- The new error of the coordinate in `relax`.
  unfoldable pub new_error : Node → Float → Float → Float → Float
  new_error n err_dev lat_dev error =
      at_most n.config.vivaldi_error_max
        (fl.add error (fl.mul (fl.mul n.config.vivaldi_ce err_dev) (fl.sub lat_dev error)))

  -- `n.coord.ApplyForce(…)` in `relax` and `centerNudge`, for the coordinate `to`.
  unfoldable pub push : Draws fl → Node → Coordinate Float → Coordinate Float → Float → Option Node
  push d n from to force = do
    c ← apply_force fl d from to n.config.height_min force
    some (record n { coord = c })

  -- `relax` once the distance is known.
  unfoldable pub relax_by : Draws fl → Node → Coordinate Float → Float → Float → Option Node
  unfolding new_error push
  relax_by d n from rtt dist =
      let lat_diff = fl.sub rtt dist in
      let err_dev =
        fl.div n.coord.error (at_least fl.threshold (fl.add n.coord.error from.error)) in
      push d n from
        (record n.coord {
          error = new_error n err_dev (fl.div (fl.abs lat_diff) rtt) n.coord.error;
        })
        (fl.mul (fl.mul n.config.vivaldi_cc err_dev) lat_diff)

  unfoldable pub relax : Draws fl → Node → Coordinate Float → Float → Option Node
  unfolding relax_by
  relax d n from rtt = do
    dist ← distance_to fl n.coord from
    relax_by d n from (at_least fl.threshold rtt) (fl.seconds dist)

  -- The loop of `getAdjustment`.
  unfoldable pub sum : Float → List Float → Float
  sum s [] = s
  sum s (l ∷ ls) = sum (fl.add s l) ls

  unfoldable pub get_adjustment : LatencyRing Float → Float
  unfolding sum
  get_adjustment r = fl.div (sum fl.zero r.latencies) (fl.mul (fl.from_ℕ r.size) fl.two)

  abbrev pub adjust_by : Node → LatencyRing Float → Node
  adjust_by n r = record n {
    latencies_diff = r;
    coord = record n.coord { adjustment = get_adjustment r };
  }

  unfoldable pub adjust : Node → Coordinate Float → Float → Option Node
  unfolding get_adjustment
  adjust n other rtt = if nat_eq n.config.adjustment_window_size 0 then some n else do
    dist ← distance fl n.coord other
    r ← Ring.add fl.zero n.latencies_diff (fl.sub rtt dist)
    some (adjust_by n r)

  unfoldable pub center_nudge : Draws fl → Node → Option Node
  unfolding push
  center_nudge d n = do
    dist ← distance_to fl n.origin n.coord
    push d n n.origin n.coord
        (fl.mul fl.minus_one (fl.square (fl.div (fl.seconds dist) n.config.gravity_rho)))

  -- The end of `Relax`: a coordinate that drifted too far is reset.
  unfoldable pub reset : Node → Node
  reset n =
      if is_valid_coord fl n.coord
      then n
      else record n { num_resets = n.num_resets + 1; coord = new_coordinate fl n.config }

  -- `Relax` after its checks. `d` is what `relax` draws, `d'` what `centerNudge` does.
  unfoldable pub move : Draws fl → Draws fl → Node → Text → Coordinate Float → Float → Option Node
  unfolding add_latency relax adjust center_nudge reset
  move d d' n node other rtt = do
    (n1, m) ← add_latency n node rtt
    n2 ← relax d n1 other m
    n3 ← adjust n2 other m
    n4 ← center_nudge d' n3
    some (reset n4)

  -- `Relax` after the check of the coordinate.
  unfoldable pub relax_checked :
      Draws fl
      → Draws fl
      → Node
      → Text
      → Coordinate Float
      → Duration
      → Option Error
      → Option (Option Error × Node)
  unfolding move
  relax_checked d d' n node other rtt (some e) = some (some e, n)
  relax_checked d d' n node other rtt none =
      if fl.is_negative rtt || fl.is_above_max_rtt rtt
      then some (some Error.invalid_rtt, n)
      else do n' ← move d d' n node other (fl.seconds rtt); some (none, n')

  -- `Relax`, which returns an error or moves the node's coordinate.
  unfoldable pub relax_node :
      Draws fl → Draws fl → Node → Text → Coordinate Float → Duration → Option (Option Error × Node)
  unfolding check_coordinate relax_checked
  relax_node d d' n node other rtt = relax_checked d d' n node other rtt (check_coordinate n other)
