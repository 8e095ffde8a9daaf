-- ===== src/Ping.antt =====
-- ping_delegate.go: the coordinates that nodes exchange with memberlist's pings. The codec and the
-- memberlist are parameters; a result `none` is a panic or a random vector that was not found.
use cserf.Prelude.{
  ℕ, suc, ◌≡◌, ◌>>=◌, Bool, true, false, Option, none, some, List, [], ◌∷◌, Text, text_key, Dict,
  get, put, remove, nat_eq, if◌then◌else◌,
}
use cserf.Coordinate.{Floats, Coordinate, Config, Draws}
use cserf.Coordinate.Node
use cserf.Coordinate.Node.{Node, Error, relax_node}
pub mod Cache
mod Tests

-- `msgCoordType`
abbrev pub coord_type : ℕ
coord_type = 5

module _ (fl : Floats) where
  open fl use {Float, Duration}

  -- `pingDelegate`
  pub record PingDelegate : Type 0 where
    pub id : Text
    pub coord : Node fl
    pub coord_cache : Dict Text (Coordinate Float)

  unfoldable pub new_ping_delegate : Config Float → Option PingDelegate
  new_ping_delegate config = do
    n ← Node.new_node fl config
    some (record { id = []; coord = n; coord_cache = [] })

  unfoldable pub set_id : PingDelegate → Text → PingDelegate
  set_id p id = record p { id = id }

  abbrev pub coded : Option Text → Text
  coded none = []
  coded (some b) = coord_type ∷ b

  -- `Payload`, nil when the codec fails.
  unfoldable pub payload : (Coordinate Float → Option Text) → PingDelegate → Text
  payload encode p = coded (encode p.coord.coord)

  -- `Finish` after `Relax`.
  unfoldable pub store :
      PingDelegate → Text → Coordinate Float → Option Error × Node fl → PingDelegate
  store p other coord (some e, n) = record p { coord = n }
  store p other coord (none, n) = record p {
    coord = n;
    coord_cache = put (put p.coord_cache other coord) p.id n.coord;
  }

  -- `Finish` with the coordinate that was decoded, if one was.
  unfoldable pub update :
      Draws fl
      → Draws fl
      → PingDelegate
      → Text
      → Duration
      → Option (Coordinate Float)
      → Option PingDelegate
  unfolding store
  update d d' p other rtt none = some p
  update d d' p other rtt (some coord) = do
    r ← relax_node fl d d' p.coord other coord rtt
    some (store p other coord r)

  abbrev pub decode_payload : (Text → Option (Coordinate Float)) → Text → Option (Coordinate Float)
  decode_payload decode [] = none
  decode_payload decode (t ∷ b) = if nat_eq t coord_type then decode b else none

  unfoldable pub finish :
      (Text → Option (Coordinate Float))
      → Draws fl
      → Draws fl
      → PingDelegate
      → Text
      → Duration
      → Text
      → Option PingDelegate
  unfolding update
  finish decode d d' p other rtt b = update d d' p other rtt (decode_payload decode b)

  unfoldable pub get_cached_coord : PingDelegate → Text → Option (Coordinate Float)
  get_cached_coord p id = get p.coord_cache id

  unfoldable pub remove_cached_coord : PingDelegate → Text → PingDelegate
  remove_cached_coord p id = record p { coord_cache = remove p.coord_cache id }
