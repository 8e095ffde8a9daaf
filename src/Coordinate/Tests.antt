-- ===== src/Coordinate/Tests.antt =====
-- Small runs of coordinates.
use cserf.Prelude.{◌≡◌, true, some, [], ◌∷◌, length, bytes, arith}
use cserf.Coordinate.{is_valid_coord}
use cserf.Coordinate.Node.{new_node}
use cserf.Coordinate.Run.{Observation, observe_all, relax_lem}
use cserf.Coordinate.Fixtures.{small, config, draws, far, lucky, sane}

abbrev observation : Observation small
observation = record { node = bytes "b"; other = far; rtt = 9; relaxing = draws; nudging = draws }

abbrev refused : Observation small
refused = record { node = bytes "b"; other = far; rtt = 11; relaxing = draws; nudging = draws }

relax_lem_example :
    (n0 : _) × (n : _) × (new_node small config ≡ some n0)
    × (observe_all small n0 (observation ∷ refused ∷ observation ∷ []) ≡ some n)
    × (is_valid_coord small n.coord ≡ true)
    × (length n.coord.euclide ≡ 2)
relax_lem_example =
    relax_lem small config (observation ∷ refused ∷ observation ∷ []) (omega arith) sane
      (lucky, lucky, (lucky, lucky, (lucky, lucky, tt)))
