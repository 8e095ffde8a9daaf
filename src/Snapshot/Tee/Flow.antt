-- ===== src/Snapshot/Tee/Flow.antt =====
-- What comes out of the channels around the snapshotter, in every interleaving.
use cserf.Prelude.{
  ◌≤◌, ◌<◌, ◌≡◌, refl, sym, ap, subst, ◌∙◌, List, [], ◌∷◌, ◌++◌, append_assoc, arith, ltb, length,
  length-append, if_lem, if_both, ltb→lt, lt→ltb,
}
use cserf.Messages.{Event}
use cserf.Snapshot.Tee.{Pipe, Place, Step, Run, forward, event_ch_size, new_pipe}

-- The first list is the second with some of its entries left out: order is kept, and nothing doubled.
pub data Sub : List Event → List Event → Type 0 where
  nil : Sub [] []
  keep : (e : Event) {xs ys : List Event} → Sub xs ys → Sub (e ∷ xs) (e ∷ ys)
  skip : (e : Event) {xs ys : List Event} → Sub xs ys → Sub xs (e ∷ ys)

Sub-refl : (xs : List Event) → Sub xs xs
Sub-refl [] = nil
Sub-refl (x ∷ xs) = keep x (Sub-refl xs)

Sub-trans : {xs ys zs : List Event} → Sub xs ys → Sub ys zs → Sub xs zs
Sub-trans s nil = s
Sub-trans s (skip e t) = skip e (Sub-trans s t)
Sub-trans (keep e s) (keep e' t) = keep e (Sub-trans s t)
Sub-trans (skip e s) (keep e' t) = skip e (Sub-trans s t)

Sub-prefix : (xs : List Event) {ys zs : List Event} → Sub ys zs → Sub (xs ++ ys) (xs ++ zs)
Sub-prefix [] s = s
Sub-prefix (x ∷ xs) s = keep x (Sub-prefix xs s)

Sub-snoc : {xs ys : List Event} (e : Event) → Sub xs ys → Sub (xs ++ (e ∷ [])) (ys ++ (e ∷ []))
Sub-snoc e nil = keep e nil
Sub-snoc e (keep x s) = keep x (Sub-snoc e s)
Sub-snoc e (skip x s) = skip x (Sub-snoc e s)

forward-Sub : (ch rest : List Event) (e : Event) → Sub (forward ch e ++ rest) (ch ++ (e ∷ rest))
unfolding forward
forward-Sub ch rest e =
    if_both (λ xs. Sub (xs ++ rest) (ch ++ (e ∷ rest))) (ltb (length ch) event_ch_size)
      (subst (λ xs. Sub xs (ch ++ (e ∷ rest))) (sym (append_assoc ch (e ∷ []) rest))
        (Sub-refl (ch ++ (e ∷ rest))))
      (Sub-prefix ch (skip e (Sub-refl rest)))

forward-room :
    (ch rest : List Event) (e : Event)
    → length ch < event_ch_size
    → forward ch e ++ rest ≡ ch ++ (e ∷ rest)
unfolding forward
forward-room ch rest e h = rw (lt→ltb _ _ h) (append_assoc ch (e ∷ []) rest)

forward-bound :
    (ch : List Event) (e : Event)
    → length ch ≤ event_ch_size
    → length (forward ch e) ≤ event_ch_size
unfolding forward
forward-bound ch e h =
    if_lem (λ (xs : List Event). length xs ≤ event_ch_size) (ltb (length ch) event_ch_size)
      (λ lt. omega (arith, ltb→lt _ _ lt, length-append ch (e ∷ []))) (λ _. h)

-- The event that `teeEvents` has not forwarded to the coalescer yet.
abbrev pub held : Place → List Event
held (Place.holding e) = e ∷ []
held _ = []

-- All that the snapshotter has taken or can still take, in this order; and the coalescer.
abbrev pub to_record : Pipe → List Event
to_record p = p.recorded ++ (p.tee_ch ++ p.in_ch)

abbrev pub to_pass : Pipe → List Event
to_pass p = p.passed ++ (p.out_ch ++ (held p.place ++ p.in_ch))

pub record Flows (p : Pipe) : Type 0 where
  pub recorded : Sub (to_record p) p.sent
  pub passed : Sub (to_pass p) p.sent
  pub tee_bound : length p.tee_ch ≤ event_ch_size
  pub out_bound : length p.out_ch ≤ event_ch_size

snoc_assoc :
    (xs ys zs : List Event) (e : Event)
    → (xs ++ (ys ++ zs)) ++ (e ∷ []) ≡ xs ++ (ys ++ (zs ++ (e ∷ [])))
snoc_assoc xs ys zs e =
    append_assoc xs (ys ++ zs) (e ∷ []) ∙ ap (λ l. xs ++ l) (append_assoc ys zs (e ∷ []))

-- What is taken from the front of a channel goes behind what was taken before.
moved : (xs ys : List Event) (e : Event) → xs ++ (e ∷ ys) ≡ (xs ++ (e ∷ [])) ++ ys
moved xs ys e = sym (append_assoc xs (e ∷ []) ys)

Step-Flows : {p q : Pipe} → Step p q → Flows p → Flows q
Step-Flows {p} (Step.send e room d) f = rw d (record {
  recorded =
      subst (λ l. Sub l (p.sent ++ (e ∷ []))) (snoc_assoc p.recorded p.tee_ch p.in_ch e)
        (Sub-snoc e f.recorded);
  passed =
      subst (λ l. Sub l (p.sent ++ (e ∷ [])))
        (snoc_assoc p.passed p.out_ch (held p.place ++ p.in_ch) e
          ∙ ap (λ l. p.passed ++ (p.out_ch ++ l)) (append_assoc (held p.place) p.in_ch (e ∷ [])))
        (Sub-snoc e f.passed);
  tee_bound = f.tee_bound;
  out_bound = f.out_bound;
})
Step-Flows {p} (Step.take e more pl i d) f = rw d (record {
  recorded = Sub-trans (Sub-prefix p.recorded (forward-Sub p.tee_ch more e)) (rw i at (f.recorded));
  passed = rw (pl, i) at (f.passed);
  tee_bound = forward-bound p.tee_ch e f.tee_bound;
  out_bound = f.out_bound;
})
Step-Flows {p} (Step.give e pl d) f = rw d (record {
  recorded = f.recorded;
  passed = Sub-trans (Sub-prefix p.passed (forward-Sub p.out_ch p.in_ch e)) (rw pl at (f.passed));
  tee_bound = f.tee_bound;
  out_bound = forward-bound p.out_ch e f.out_bound;
})
Step-Flows {p} (Step.stop pl c d) f = rw d (record {
  recorded = f.recorded;
  passed = rw pl at (f.passed);
  tee_bound = f.tee_bound;
  out_bound = f.out_bound;
})
Step-Flows {p} (Step.drain e more pl i d) f = rw d (record {
  recorded = Sub-trans (Sub-prefix p.recorded (forward-Sub p.tee_ch more e)) (rw i at (f.recorded));
  passed =
      Sub-trans
        (Sub-prefix p.passed
          (Sub-prefix p.out_ch (Sub-prefix (held p.place) (skip e (Sub-refl more)))))
        (rw i at (f.passed));
  tee_bound = forward-bound p.tee_ch e f.tee_bound;
  out_bound = f.out_bound;
})
Step-Flows {p} (Step.finish pl i d) f = rw d (record {
  recorded = f.recorded;
  passed = rw pl at (f.passed);
  tee_bound = f.tee_bound;
  out_bound = f.out_bound;
})
Step-Flows {p} (Step.record_one e more t d) f = rw d (record {
  recorded =
      subst (λ l. Sub l p.sent) (moved p.recorded (more ++ p.in_ch) e) (rw t at (f.recorded));
  passed = f.passed;
  tee_bound = omega (arith, f.tee_bound, ap length t);
  out_bound = f.out_bound;
})
Step-Flows {p} (Step.pass_one e more t d) f = rw d (record {
  recorded = f.recorded;
  passed =
      subst (λ l. Sub l p.sent) (moved p.passed (more ++ (held p.place ++ p.in_ch)) e)
        (rw t at (f.passed));
  tee_bound = f.tee_bound;
  out_bound = omega (arith, f.out_bound, ap length t);
})
Step-Flows {p} (Step.shut d) f = rw d (record {
  recorded = f.recorded;
  passed = f.passed;
  tee_bound = f.tee_bound;
  out_bound = f.out_bound;
})

-- However the goroutines interleave: what the snapshotter has recorded, followed by what waits for it, is a
-- part of what was sent, in the order of sending and with no event twice; so is what the coalescer has got,
-- followed by what waits for it. Neither channel holds more than its capacity.
pub run-Flows : {p : Pipe} → Run new_pipe p → Flows p
run-Flows Run.here = record {
  recorded = nil;
  passed = nil;
  tee_bound = omega arith;
  out_bound = omega arith;
}
run-Flows (Run.then_step r st) = Step-Flows st (run-Flows r)

-- The number of events sent never falls.
Step-sent : {p q : Pipe} → Step p q → length p.sent ≤ length q.sent
Step-sent {p} (Step.send e room d) = rw d (omega (arith, length-append p.sent (e ∷ [])))
Step-sent (Step.take e more pl i d) = rw d (omega arith)
Step-sent (Step.give e pl d) = rw d (omega arith)
Step-sent (Step.stop pl c d) = rw d (omega arith)
Step-sent (Step.drain e more pl i d) = rw d (omega arith)
Step-sent (Step.finish pl i d) = rw d (omega arith)
Step-sent (Step.record_one e more t d) = rw d (omega arith)
Step-sent (Step.pass_one e more t d) = rw d (omega arith)
Step-sent (Step.shut d) = rw d (omega arith)

-- Where everything is still to be recorded and less than the channel can hold was sent, there is room.
room_left :
    (xs ch rest sent : List Event) (e : Event)
    → xs ++ (ch ++ (e ∷ rest)) ≡ sent
    → length sent ≤ event_ch_size
    → length ch < event_ch_size
room_left xs ch rest sent e same few =
    omega (arith, length-append xs (ch ++ (e ∷ rest)), length-append ch (e ∷ rest), ap length same)

Step-whole :
    {p q : Pipe}
    → Step p q
    → length p.sent ≤ event_ch_size
    → to_record p ≡ p.sent
    → to_record q ≡ q.sent
Step-whole {p} (Step.send e room d) few w =
    rw d (sym (snoc_assoc p.recorded p.tee_ch p.in_ch e) ∙ ap (λ l. l ++ (e ∷ [])) w)
Step-whole {p} (Step.take e more pl i d) few w = rw d (
    ap (λ l. p.recorded ++ l)
      (forward-room p.tee_ch more e (room_left p.recorded p.tee_ch more p.sent e (rw i at w) few))
    ∙ rw i at w)
Step-whole {p} (Step.drain e more pl i d) few w = rw d (
    ap (λ l. p.recorded ++ l)
      (forward-room p.tee_ch more e (room_left p.recorded p.tee_ch more p.sent e (rw i at w) few))
    ∙ rw i at w)
Step-whole (Step.give e pl d) few w = rw d w
Step-whole (Step.stop pl c d) few w = rw d w
Step-whole (Step.finish pl i d) few w = rw d w
Step-whole {p} (Step.record_one e more t d) few w =
    rw d (sym (moved p.recorded (more ++ p.in_ch) e) ∙ rw t at w)
Step-whole (Step.pass_one e more t d) few w = rw d w
Step-whole (Step.shut d) few w = rw d w

-- As long as no more events were sent than `teeCh` can hold, the snapshotter loses none, however slow it is
-- and however the goroutines interleave, also around a shutdown: what it has recorded, what waits in `teeCh`
-- and what waits in `inCh` are together, in this order, all that was sent.
pub run_whole : {p : Pipe} → Run new_pipe p → length p.sent ≤ event_ch_size → to_record p ≡ p.sent
run_whole Run.here few = refl
run_whole (Run.then_step r st) few =
    let less = Step-sent st in Step-whole st (omega arith) (run_whole r (omega arith))
