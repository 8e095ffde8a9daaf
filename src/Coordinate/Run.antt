-- ===== src/Coordinate/Run.antt =====
-- Sequences of calls of `Relax` in coordinate/node.go.
use cserf.Prelude.{
  ℕ, ◌<◌, ◌≡◌, refl, ◌∙◌, true, false, ◌||◌, Option, none, some, List, [], ◌∷◌, length, arith,
  Bool-cases, Option-cases, inl, inr, Text, get, ◌>>=◌,
}
use cserf.Coordinate.{Floats, Coordinate, Config, Draws, new_coordinate, is_valid_coord, match_dim}
use cserf.Coordinate.Ring.{new_latency_ring}
use cserf.Coordinate.Node.{Node, Error, new_node, check_coordinate, relax_node, relax_checked}
use cserf.Coordinate.Dims.{new-IsRing, IsLucky}
use cserf.Coordinate.Sound.{IsSane, IsSound, move-Fits, length-new_coordinate, new_coordinate-valid}

module _ (fl : Floats) where
  open fl use {Float, Duration}

  match_dim-length :
      (a b : Coordinate Float) → match_dim fl a b ≡ true → length b.euclide ≡ length a.euclide
  unfolding match_dim
  match_dim-length a b h = ground (arith, h)

  pub valid_accepted :
      (n : Node fl) (other : Coordinate Float)
      → check_coordinate fl n other ≡ none
      → is_valid_coord fl other ≡ true
  unfolding check_coordinate
  valid_accepted n other h = ground (arith, h)

  pub accept :
      (n : Node fl) (other : Coordinate Float)
      → length n.coord.euclide ≡ length other.euclide
      → is_valid_coord fl other ≡ true
      → check_coordinate fl n other ≡ none
  unfolding check_coordinate match_dim
  accept n other l v = ground (arith, l, v)

  pub accepted :
      (n : Node fl) (other : Coordinate Float)
      → check_coordinate fl n other ≡ none
      → length other.euclide ≡ length n.coord.euclide
  unfolding check_coordinate
  accepted n other h = elim (Bool-cases (match_dim fl n.coord other)) [
    | inl same ↦ match_dim-length n.coord other same
    | inr differ ↦ ground (arith, h, differ)
  ]

  -- One call of `Relax`, with what it draws.
  pub record Observation : Type 0 where
    pub node : Text
    pub other : Coordinate Float
    pub rtt : Duration
    pub relaxing : Draws fl
    pub nudging : Draws fl

  abbrev pub AllLucky : ℕ → List Observation → Type 0
  AllLucky dim [] = Unit
  AllLucky dim (o ∷ os) = IsLucky fl o.relaxing dim × IsLucky fl o.nudging dim × AllLucky dim os

  unfoldable pub observe : Node fl → Observation → Option (Option Error × Node fl)
  observe n o = relax_node fl o.relaxing o.nudging n o.node o.other o.rtt

  -- The node after each of the calls, which all return.
  unfoldable pub observe_all : Node fl → List Observation → Option (Node fl)
  observe_all n [] = some n
  observe_all n (o ∷ os) = do (e, n') ← observe n o; observe_all n' os

  module _ (config : Config Float) (sane : IsSane fl config) where
    pub record Observed (n : Node fl) (o : Observation) : Type 0 where
      pub error : Option Error
      pub after : Node fl
      pub returns : observe n o ≡ some (error, after)
      pub checked : error ≡ none → check_coordinate fl n o.other ≡ none
      pub accepts :
          check_coordinate fl n o.other ≡ none
          → (fl.is_negative o.rtt || fl.is_above_max_rtt o.rtt) ≡ false
          → error ≡ none
      pub sound : IsSound fl config after

    pub observe_lem :
        (n : Node fl) (o : Observation)
        → IsSound fl config n
        → IsLucky fl o.relaxing config.dimensionality
        → IsLucky fl o.nudging config.dimensionality
        → Observed n o
    unfolding observe relax_node relax_checked
    observe_lem n o sound l l' = elim (Option-cases (check_coordinate fl n o.other)) [
      | inr (e, refused) ↦ record {
        error = some e;
        after = n;
        returns = rw refused refl;
        checked = λ h. ground (arith, h);
        accepts = λ h _. ground (arith, h, refused);
        sound = sound;
      }
      | inl good ↦ elim (Bool-cases (fl.is_negative o.rtt || fl.is_above_max_rtt o.rtt)) [
        | inl wrong ↦ record {
          error = some Error.invalid_rtt;
          after = n;
          returns = rw (good, wrong) refl;
          checked = λ h. good;
          accepts = λ _ h. ground (arith, h, wrong);
          sound = sound;
        }
        | inr right ↦
            let (n', e, sound') =
              move-Fits fl config o.relaxing o.nudging n o.node o.other (fl.seconds o.rtt) l l' sane
                sound.fit (accepted n o.other good ∙ sound.fit.coord) in
            record {
              error = none;
              after = n';
              returns = rw (good, right, e) refl;
              checked = λ h. good;
              accepts = λ _ _. refl;
              sound = sound';
            }
      ]
    ]

    observe_all_lem :
        (n : Node fl) (os : List Observation)
        → IsSound fl config n
        → AllLucky config.dimensionality os
        → (n' : Node fl) × (observe_all n os ≡ some n') × IsSound fl config n'
    unfolding observe_all
    observe_all_lem n [] sound h = (n, refl, sound)
    observe_all_lem n (o ∷ os) sound (l, l', h) =
        let r = observe_lem n o sound l l' in
        let (n', e, sound') = observe_all_lem r.after os r.sound h in (n', rw r.returns e, sound')

  unfoldable pub initial : Config Float → Node fl
  initial config = record {
    coord = new_coordinate fl config;
    origin = new_coordinate fl config;
    config = config;
    latencies_diff = new_latency_ring config.adjustment_window_size;
    latencies_map = [];
    num_resets = 0;
  }

  pub initial-IsSound :
      (config : Config Float) → IsSane fl config → IsSound fl config (initial config)
  unfolding initial get
  initial-IsSound config sane = record {
    fit = record {
      same = refl;
      coord = length-new_coordinate fl config;
      origin = length-new_coordinate fl config;
      diff = new-IsRing config.adjustment_window_size;
      rings = λ k r g. ground (arith, g);
    };
    valid = new_coordinate-valid fl config sane;
  }

  -- No sequence of observations makes a node panic or leaves it with an invalid coordinate: from a node that
  -- `NewNode` makes with a dimension above 0 and finite numbers in its configuration, every call of `Relax`
  -- returns, accepted or refused, whatever coordinates and round trip times it is given, as long as the random
  -- vectors that it draws become long enough; and the coordinate is then finite, of the configured dimension.
  pub relax_lem :
      (config : Config Float) (os : List Observation)
      → 0 < config.dimensionality
      → IsSane fl config
      → AllLucky config.dimensionality os
      → (n0 : Node fl) × (n : Node fl) × (new_node fl config ≡ some n0)
        × (observe_all n0 os ≡ some n)
        × (is_valid_coord fl n.coord ≡ true)
        × (length n.coord.euclide ≡ config.dimensionality)
  unfolding new_node initial
  relax_lem config os pos sane lucky =
      let (n, e, sound) =
        observe_all_lem config sane (initial config) os (initial-IsSound config sane) lucky in
      (initial config, n, ground (arith, pos), e, sound.valid, sound.fit.coord)
