-- ===== src/Rpc/Requests/Rtt.antt =====
-- Round trip times between the cached coordinates.
use cserf.Prelude.{◌≡◌, ◌≢◌, refl, sym, ap, ◌∙◌, Option, none, some, Text, arith}
use cserf.Coordinate.{Floats, Config, Coordinate}
use cserf.Coordinate.Dims.{distance_to-some}
use cserf.Coordinate.Sound.{IsSane}
use cserf.Ping.{PingDelegate, get_cached_coord}
use cserf.Ping.Cache.{IsGood, IsUsable}
use cserf.Rpc.Requests.{RttResult, serve_rtt, or_own, to_rtt, rtt_between}

module _ (fl : Floats) (config : Config fl.Float) (sane : IsSane fl config) where
  open fl use {Float, Duration}

  get_cached_coord-IsUsable :
      (p : PingDelegate fl) (id : Text) (c : Coordinate Float)
      → IsGood fl config sane p
      → get_cached_coord fl p id ≡ some c
      → IsUsable fl config sane c
  unfolding get_cached_coord
  get_cached_coord-IsUsable p id c good e = good.cached id c e

  between_usable :
      (first second : Text) (a b : Option (Coordinate Float))
      → ((c : Coordinate Float) → a ≡ some c → IsUsable fl config sane c)
      → ((c : Coordinate Float) → b ≡ some c → IsUsable fl config sane c)
      → rtt_between fl first second a b ≢ RttResult.dimension_panic
  unfolding rtt_between
  between_usable first second none b u v e = ground (arith, e)
  between_usable first second (some a) none u v e = ground (arith, e)
  between_usable first second (some a) (some b) u v e =
      let (d, ok) = distance_to-some fl a b ((u a refl).dim ∙ sym ((v b refl).dim)) in
      ground (arith, sym (ap (to_rtt fl) ok) ∙ e)

  -- A request for a round trip time never panics, whatever ids it names, on a delegate in good order: the
  -- cached coordinates all have the same dimension.
  pub serve_rtt_lem :
      (p : PingDelegate fl) (first second : Text)
      → IsGood fl config sane p
      → serve_rtt fl p first second ≢ RttResult.dimension_panic
  unfolding serve_rtt
  serve_rtt_lem p first second good =
      between_usable first (or_own fl p.id second) (get_cached_coord fl p first)
        (get_cached_coord fl p (or_own fl p.id second))
        (λ c e. get_cached_coord-IsUsable p first c good e)
        (λ c e. get_cached_coord-IsUsable p (or_own fl p.id second) c good e)
