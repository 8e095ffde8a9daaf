-- ===== src/Ping/Tests.antt =====
-- Two delegates that ping each other, over small whole numbers.
use cserf.Prelude.{ℕ, ◌≡◌, ◌≢◌, refl, subst, Option, none, some, [], ◌∷◌, bytes, Text, get, arith}
use cserf.Coordinate.{Coordinate, new_coordinate}
use cserf.Coordinate.Fixtures.{small, config, draws, lucky, sane}
use cserf.Coordinate.Run.{initial, initial-IsSound}
use cserf.Ping.{PingDelegate, payload, finish, get_cached_coord}
use cserf.Ping.Cache.{IsGood, exchange_lem}

-- A codec for the coordinates of two dimensions.
abbrev encode : Coordinate ℕ → Option Text
encode c = some (c.height ∷ c.error ∷ c.adjustment ∷ c.euclide)

abbrev decode : Text → Option (Coordinate ℕ)
decode (h ∷ e ∷ a ∷ v) = some (record { euclide = v; height = h; error = e; adjustment = a })
decode _ = none

abbrev delegate : Text → PingDelegate small
delegate id = record { id = id; coord = initial small config; coord_cache = [] }

delegate-IsGood : (id : Text) → IsGood small config sane (delegate id)
unfolding get
delegate-IsGood id = record {
  sound = initial-IsSound small config sane;
  cached = λ k c h. ground (arith, h);
}

start : encode (delegate (bytes "b")).coord.coord ≡ some (1 ∷ 3 ∷ 0 ∷ 0 ∷ 0 ∷ [])
unfolding initial new_coordinate
start = refl

same_text : {s t : Text} → some s ≡ some t → s ≡ t
same_text h = ground (arith, h)

codec : (c : Coordinate ℕ) (b : Text) → encode c ≡ some b → decode b ≡ some c
codec c b h = subst (λ b. decode b ≡ some c) (same_text h) refl

apart : bytes "b" ≢ bytes "a"
apart h = ground (arith, h)

exchange_lem_example :
    (p' : PingDelegate small) × (finish small decode draws draws
        (delegate (bytes "a"))
        (bytes "b")
        9
        (payload small encode (delegate (bytes "b")))
      ≡ some p')
    × (get_cached_coord small p' (bytes "b") ≡ some (initial small config).coord)
    × (get_cached_coord small p' (bytes "a") ≡ some p'.coord.coord)
exchange_lem_example =
    exchange_lem small config sane encode decode draws draws (delegate (bytes "a"))
      (delegate (bytes "b")) 9 (1 ∷ 3 ∷ 0 ∷ 0 ∷ 0 ∷ []) codec start (delegate-IsGood (bytes "a"))
      (delegate-IsGood (bytes "b")) apart refl lucky lucky
