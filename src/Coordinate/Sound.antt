-- ===== src/Coordinate/Sound.antt =====
-- The states that a node of coordinate/node.go reaches: its coordinate stays valid, after each step of `Relax`.
use cserf.Prelude.{
  ℕ, zero, suc, ◌≡◌, ◌⊎◌, refl, sym, ap, subst, ◌∙◌, true, Option, some, nat_eq, length, replicate,
  length-replicate, arith, Bool-cases, Option-cases, inl, inr, Text, text_key, Dict, get, put,
  get-put,
}
use cserf.Coordinate.{Floats, Coordinate, Config, Draws, new_coordinate, all_finite, is_valid_coord}
use cserf.Coordinate.Ring.{LatencyRing, new_latency_ring}
use cserf.Coordinate.Node.{
  Node, add_latency, add_to, push, with_median, relax_by, relax, adjust, adjust_by, center_nudge,
  reset, move,
}
use cserf.Coordinate.Dims.{
  IsRing, new-IsRing, add-Adds, median-some, IsLucky, apply_force-some, distance-some,
  distance_to-some,
}

module _ (fl : Floats) where
  open fl use {Float, Duration}

  -- The configuration's own numbers are finite.
  pub record IsSane (config : Config Float) : Type 0 where
    pub zero : fl.is_finite fl.zero ≡ true
    pub height : fl.is_finite config.height_min ≡ true
    pub error : fl.is_finite config.vivaldi_error_max ≡ true

  -- The dimensions and the rings of a node are those that the configuration asks for.
  pub record IsFit (config : Config Float) (n : Node fl) : Type 0 where
    pub same : n.config ≡ config
    pub coord : length n.coord.euclide ≡ config.dimensionality
    pub origin : length n.origin.euclide ≡ config.dimensionality
    pub diff : IsRing n.latencies_diff
    pub rings : (k : Text) (r : LatencyRing Float) → get n.latencies_map k ≡ some r → IsRing r

  pub record IsSound (config : Config Float) (n : Node fl) : Type 0 where
    pub fit : IsFit config n
    pub valid : is_valid_coord fl n.coord ≡ true

  all_finite-replicate :
      (k : ℕ) → fl.is_finite fl.zero ≡ true → all_finite fl (replicate k fl.zero) ≡ true
  unfolding all_finite
  all_finite-replicate zero h = refl
  all_finite-replicate (suc k) h = rw h (all_finite-replicate k h)

  pub new_coordinate-valid :
      (config : Config Float) → IsSane config → is_valid_coord fl (new_coordinate fl config) ≡ true
  unfolding is_valid_coord new_coordinate
  new_coordinate-valid config sane =
      rw (all_finite-replicate config.dimensionality sane.zero, sane.height, sane.error, sane.zero)
        refl

  pub length-new_coordinate :
      (config : Config Float) → length (new_coordinate fl config).euclide ≡ config.dimensionality
  unfolding new_coordinate
  length-new_coordinate config = length-replicate config.dimensionality fl.zero

  with_median-some :
      (n : Node fl) (r : LatencyRing Float) → (m : Float) × (with_median fl n r ≡ some (n, m))
  with_median-some n r = let (m, e) = median-some fl.zero fl.before r in (m, rw e refl)

  new_or_old :
      (m : Dict Text (LatencyRing Float)) (k j : Text) (r s : LatencyRing Float)
      → get (put m k r) j ≡ some s
      → (r ≡ s) ⊎ (get m j ≡ some s)
  new_or_old m k j r s g = ground (arith, get-put m k j r, g)

  module _ (config : Config Float) where
    same_coord :
        (n : Node fl) (c : Coordinate Float)
        → IsFit config n
        → length c.euclide ≡ config.dimensionality
        → IsFit config (record n { coord = c })
    same_coord n c fit l = record {
      same = fit.same;
      coord = l;
      origin = fit.origin;
      diff = fit.diff;
      rings = fit.rings;
    }

    record Fits (o : Option (Node fl)) : Type 0 where
      after : Node fl
      returns : o ≡ some after
      fit : IsFit config after

    put_ring :
        (n : Node fl) (k : Text) (r : LatencyRing Float)
        → IsFit config n
        → IsRing r
        → IsFit config (record n { latencies_map = put n.latencies_map k r })
    put_ring n k r fit v = record {
      same = fit.same;
      coord = fit.coord;
      origin = fit.origin;
      diff = fit.diff;
      rings = λ j s g. elim (new_or_old n.latencies_map k j r s g) [
        | inl added ↦ subst (λ s. IsRing s) added v
        | inr old ↦ fit.rings j s old
      ];
    }

    add_latency-IsFit :
        (n : Node fl) (k : Text) (rtt : Float)
        → IsFit config n
        → (n' : Node fl) × (m : Float) × (add_latency fl n k rtt ≡ some (n', m)) × IsFit config n'
    unfolding add_latency add_to
    add_latency-IsFit n k rtt fit = elim (Option-cases (get n.latencies_map k)) [
      | inl unknown ↦
          let a =
            add-Adds fl.zero (new_latency_ring n.config.latency_filter_size) rtt
              (new-IsRing n.config.latency_filter_size) in
          let (m, e) = with_median-some n a.after in (n, m, rw (unknown, a.returns) e, fit)
      | inr (r, known) ↦
          let a = add-Adds fl.zero r rtt (fit.rings k r known) in
          let n' = record n { latencies_map = put n.latencies_map k a.after } in
          let (m, e) = with_median-some n' a.after in
          (n', m, rw (known, a.returns) e, put_ring n k a.after fit a.ring)
    ]

    module _ (d : Draws fl) (lucky : IsLucky fl d config.dimensionality) where
      push-Fits :
          (n : Node fl) (from to : Coordinate Float) (force : Float)
          → IsFit config n
          → length from.euclide ≡ config.dimensionality
          → length to.euclide ≡ config.dimensionality
          → Fits (push fl d n from to force)
      unfolding push
      push-Fits n from to force fit lf lt =
          let (c, e, l) =
            apply_force-some fl d from to n.config.height_min force (lf ∙ sym lt)
              (subst (IsLucky fl d) (sym lt) lucky) in
          record {
            after = record n { coord = c };
            returns = rw e refl;
            fit = same_coord n c fit (l ∙ lt);
          }

      relax-Fits :
          (n : Node fl) (from : Coordinate Float) (rtt : Float)
          → IsFit config n
          → length from.euclide ≡ config.dimensionality
          → Fits (relax fl d n from rtt)
      unfolding relax relax_by
      relax-Fits n from rtt fit l =
          let (dist, e) = distance_to-some fl n.coord from (fit.coord ∙ sym l) in
          rw e (push-Fits n from _ _ fit l fit.coord)

      center_nudge-Fits : (n : Node fl) → IsFit config n → Fits (center_nudge fl d n)
      unfolding center_nudge
      center_nudge-Fits n fit =
          let (dist, e) = distance_to-some fl n.origin n.coord (fit.origin ∙ sym fit.coord) in
          rw e (push-Fits n n.origin n.coord _ fit fit.origin fit.coord)

    adjust-Fits :
        (n : Node fl) (other : Coordinate Float) (rtt : Float)
        → IsFit config n
        → length other.euclide ≡ config.dimensionality
        → Fits (adjust fl n other rtt)
    unfolding adjust
    adjust-Fits n other rtt fit l =
        let (dist, e) = distance-some fl n.coord other (fit.coord ∙ sym l) in
        let a = add-Adds fl.zero n.latencies_diff (fl.sub rtt dist) fit.diff in
        elim (Bool-cases (nat_eq n.config.adjustment_window_size 0)) [
          | inl off ↦ record { after = n; returns = rw off refl; fit = fit }
          | inr on ↦ record {
            after = adjust_by fl n a.after;
            returns = rw (on, e, a.returns) refl;
            fit = record {
              same = fit.same;
              coord = fit.coord;
              origin = fit.origin;
              diff = a.ring;
              rings = fit.rings;
            };
          }
        ]

    reset-IsSound : (n : Node fl) → IsSane config → IsFit config n → IsSound config (reset fl n)
    unfolding reset
    reset-IsSound n sane fit = elim (Bool-cases (is_valid_coord fl n.coord)) [
      | inl good ↦ rw good (record { fit = fit; valid = good })
      | inr bad ↦ rw bad (record {
        fit = record {
          same = fit.same;
          coord =
              length-new_coordinate n.config ∙ ap (λ (c : Config Float). c.dimensionality) fit.same;
          origin = fit.origin;
          diff = fit.diff;
          rings = fit.rings;
        };
        valid = new_coordinate-valid n.config (subst IsSane (sym fit.same) sane);
      })
    ]

    pub move-Fits :
        (d d' : Draws fl) (n : Node fl) (k : Text) (other : Coordinate Float) (rtt : Float)
        → IsLucky fl d config.dimensionality
        → IsLucky fl d' config.dimensionality
        → IsSane config
        → IsFit config n
        → length other.euclide ≡ config.dimensionality
        → (n' : Node fl) × (move fl d d' n k other rtt ≡ some n') × IsSound config n'
    unfolding move
    move-Fits d d' n k other rtt lucky lucky' sane fit l =
        let (n1, m, e1, fit1) = add_latency-IsFit n k rtt fit in
        let r = relax-Fits d lucky n1 other m fit1 l in
        let a = adjust-Fits r.after other m r.fit l in
        let c = center_nudge-Fits d' lucky' a.after a.fit in
        (
          reset fl c.after,
          rw (e1, r.returns, a.returns, c.returns) refl,
          reset-IsSound c.after sane c.fit,
        )
