-- ===== src/Ping/Cache.antt =====
-- The cache of coordinates that ping_delegate.go keeps.
use cserf.Prelude.{
  ◌>>=◌, ◌≡◌, ◌≢◌, ◌⊎◌, inl, inr, refl, sym, ap, ◌∙◌, true, false, ◌||◌, Option, none, some, Text,
  text_key, text_eq_iff, get, put, get-put, length, arith, subst,
}
use cserf.Coordinate.{Floats, Coordinate, Config, Draws, is_valid_coord}
use cserf.Coordinate.Node.{Node, Error}
use cserf.Coordinate.Dims.{IsLucky}
use cserf.Coordinate.Sound.{IsSane, IsSound}
use cserf.Coordinate.Run.{Observation, observe, observe_lem, accept, accepted, valid_accepted}
use cserf.Ping.{
  PingDelegate, coded, decode_payload, payload, store, update, finish, get_cached_coord,
}

module _ (fl : Floats) (config : Config fl.Float) (sane : IsSane fl config) where
  open fl use {Float, Duration}

  -- A coordinate that any node of the same configuration accepts.
  pub record IsUsable (c : Coordinate Float) : Type 0 where
    pub valid : is_valid_coord fl c ≡ true
    pub dim : length c.euclide ≡ config.dimensionality

  pub record IsGood (p : PingDelegate fl) : Type 0 where
    pub sound : IsSound fl config p.coord
    pub cached : (k : Text) (c : Coordinate Float) → get p.coord_cache k ≡ some c → IsUsable c

  own-IsUsable : (n : Node fl) → IsSound fl config n → IsUsable n.coord
  own-IsUsable n sound = record { valid = sound.valid; dim = sound.fit.coord }

  found :
      (p : PingDelegate fl) (other k : Text) (a b c : Coordinate Float)
      → get (put (put p.coord_cache other a) p.id b) k ≡ some c
      → (b ≡ c) ⊎ (a ≡ c) ⊎ (get p.coord_cache k ≡ some c)
  found p other k a b c h =
      ground
        (arith, get-put (put p.coord_cache other a) p.id k b, get-put p.coord_cache other k a, h)

  store-IsGood :
      (p : PingDelegate fl) (other : Text) (coord : Coordinate Float) (e : Option Error)
      (n : Node fl)
      → IsGood p
      → IsSound fl config n
      → (e ≡ none → IsUsable coord)
      → IsGood (store fl p other coord (e, n))
  unfolding store
  store-IsGood p other coord (some e) n good sound u = record {
    sound = sound;
    cached = good.cached;
  }
  store-IsGood p other coord none n good sound u = record {
    sound = sound;
    cached = λ k c h. elim (found p other k coord n.coord c h) [
      | inl own ↦ subst IsUsable own (own-IsUsable n sound)
      | inr (inl peer) ↦ subst IsUsable peer (u refl)
      | inr (inr old) ↦ good.cached k c old
    ];
  }

  update-IsGood :
      (d d' : Draws fl) (p : PingDelegate fl) (other : Text) (rtt : Duration)
      (o : Option (Coordinate Float))
      → IsGood p
      → IsLucky fl d config.dimensionality
      → IsLucky fl d' config.dimensionality
      → (p' : PingDelegate fl) × (update fl d d' p other rtt o ≡ some p') × IsGood p'
  unfolding update observe
  update-IsGood d d' p other rtt none good l l' = (p, refl, good)
  update-IsGood d d' p other rtt (some coord) good l l' =
      let o : Observation fl = record {
        node = other;
        other = coord;
        rtt = rtt;
        relaxing = d;
        nudging = d';
      } in
      let r = observe_lem fl config sane p.coord o good.sound l l' in
      (
        store fl p other coord (r.error, r.after),
        ap (λ z. z >>= λ s. some (store fl p other coord s)) r.returns,
        store-IsGood p other coord r.error r.after good r.sound (λ e. record {
          valid = valid_accepted fl p.coord coord (r.checked e);
          dim = accepted fl p.coord coord (r.checked e) ∙ good.sound.fit.coord;
        }),
      )

  -- Whatever bytes a ping brings, `Finish` returns, and then the delegate's own coordinate and every cached
  -- one are valid and of the configured dimension if they were before: under a configuration with finite
  -- numbers, and for draws that give a long enough vector.
  pub finish_lem :
      (decode : Text → Option (Coordinate Float)) (d d' : Draws fl) (p : PingDelegate fl)
      (other : Text) (rtt : Duration) (b : Text)
      → IsGood p
      → IsLucky fl d config.dimensionality
      → IsLucky fl d' config.dimensionality
      → (p' : PingDelegate fl) × (finish fl decode d d' p other rtt b ≡ some p') × IsGood p'
  unfolding finish
  finish_lem decode d d' p other rtt b good l l' =
      update-IsGood d d' p other rtt (decode_payload fl decode b) good l l'

  stored :
      (p : PingDelegate fl) (other : Text) (coord : Coordinate Float) (e : Option Error)
      (n : Node fl)
      → other ≢ p.id
      → e ≡ none
      → (get_cached_coord fl (store fl p other coord (e, n)) other ≡ some coord)
        × (get_cached_coord fl (store fl p other coord (e, n)) p.id
            ≡ some (store fl p other coord (e, n)).coord.coord)
  unfolding get_cached_coord store
  stored p other coord (some e) n ne h = absurd (ground (arith, h))
  stored p other coord none n ne h = (
    ground (
      arith,
      get-put (put p.coord_cache other coord) p.id other n.coord,
      get-put p.coord_cache other other coord,
      text_eq_iff p.id other,
      text_eq_iff other other,
    ),
    ground
        (arith, get-put (put p.coord_cache other coord) p.id p.id n.coord, text_eq_iff p.id p.id),
  )

  decoded :
      (encode : Coordinate Float → Option Text) (decode : Text → Option (Coordinate Float))
      (q : PingDelegate fl) (b : Text)
      → ((c : Coordinate Float) (b : Text) → encode c ≡ some b → decode b ≡ some c)
      → encode q.coord.coord ≡ some b
      → decode_payload fl decode (payload fl encode q) ≡ some q.coord.coord
  unfolding payload
  decoded encode decode q b codec encoded =
      ap (λ o. decode_payload fl decode (coded fl o)) encoded ∙ codec q.coord.coord b encoded

  -- A ping brings over the peer's coordinate: if `q`, of another id, sends its payload to `p`, the codec
  -- decodes what it encodes and the round trip time is in range, then `Finish` returns, `q`'s coordinate is
  -- the one that `p` has cached for it, and the one cached for `p` itself is its own new coordinate. Both
  -- are to be good before and to have the same configuration, and the draws to give a long enough vector.
  pub exchange_lem :
      (encode : Coordinate Float → Option Text) (decode : Text → Option (Coordinate Float))
      (d d' : Draws fl) (p q : PingDelegate fl) (rtt : Duration) (b : Text)
      → ((c : Coordinate Float) (b : Text) → encode c ≡ some b → decode b ≡ some c)
      → encode q.coord.coord ≡ some b
      → IsGood p
      → IsGood q
      → q.id ≢ p.id
      → (fl.is_negative rtt || fl.is_above_max_rtt rtt) ≡ false
      → IsLucky fl d config.dimensionality
      → IsLucky fl d' config.dimensionality
      → (p' : PingDelegate fl) × (finish fl decode d d' p q.id rtt (payload fl encode q) ≡ some p')
        × (get_cached_coord fl p' q.id ≡ some q.coord.coord)
        × (get_cached_coord fl p' p.id ≡ some p'.coord.coord)
  unfolding finish update observe
  exchange_lem encode decode d d' p q rtt b codec encoded good_p good_q ne in_range l l' =
      let o : Observation fl = record {
        node = q.id;
        other = q.coord.coord;
        rtt = rtt;
        relaxing = d;
        nudging = d';
      } in
      let r = observe_lem fl config sane p.coord o good_p.sound l l' in
      let usable = own-IsUsable q.coord good_q.sound in
      let done =
        r.accepts
          (accept fl p.coord q.coord.coord (good_p.sound.fit.coord ∙ sym usable.dim) usable.valid)
          in_range in
      let (peer, own) = stored p q.id q.coord.coord r.error r.after ne done in
      (
        store fl p q.id q.coord.coord (r.error, r.after),
        ap (update fl d d' p q.id rtt) (decoded encode decode q b codec encoded)
            ∙ ap (λ z. z >>= λ s. some (store fl p q.id q.coord.coord s)) r.returns,
        peer,
        own,
      )
