-- ===== src/Snapshot/Told.antt =====
-- What the signals of `receiveEvents` tell a snapshotter, for any part of its state that a line in the file
-- leaves alone.
use cserf.Prelude.{
  ℕ, ◌≡◌, ap, ◌∙◌, true, false, Option, none, some, List, [], ◌∷◌, Text, bytes, arith, refl,
}
use cserf.Messages.{Event}
use cserf.Snapshot.{Snapshotter, append_line, compact, record_event}
use cserf.Snapshot.Receive.{Signal, receive_leave, receive_signal, receive_signals}

-- The part after the signals: each event changes it, and after a call of `Leave` nothing does any more.
abbrev pub tell {ℓ} : {A : Type ℓ} → (A → Event → A) → A → List Signal → A
tell after a [] = a
tell after a (Signal.on_leave ∷ gs) = a
tell after a (Signal.on_tick ∷ gs) = tell after a gs
tell after a (Signal.on_event e ∷ gs) = tell after (after a e) gs

append_line-leaving : (s : Snapshotter) (l : Text) → (append_line s l).leaving ≡ s.leaving
unfolding append_line compact
append_line-leaving s l = ground arith

module _ (tcp_addr : Text → ℕ → Text) {A : Type 0} (part : Snapshotter → A) (after : A → Event → A)
    (part-append_line : (s : Snapshotter) (l : Text) → part (append_line s l) ≡ part s)
    (part-leaving : (s : Snapshotter) → part (record s { leaving = true }) ≡ part s)
    (part-event : (s t : Snapshotter) (e : Event)
      → s.leaving ≡ false
      → record_event tcp_addr s e ≡ some t
      → (part t ≡ after (part s) e) × (t.leaving ≡ false)) where
  part-receive_leave : (s : Snapshotter) → part (receive_leave s) ≡ part s
  unfolding receive_leave
  part-receive_leave s =
      part-append_line (record s { leaving = true }) (bytes "leave") ∙ part-leaving s

  leaving-receive_leave : (s : Snapshotter) → (receive_leave s).leaving ≡ true
  unfolding receive_leave
  leaving-receive_leave s = append_line-leaving (record s { leaving = true }) (bytes "leave")

  -- Once it is leaving, nothing is recorded.
  leaving-stays :
      (gs : List Signal) (s s' : Snapshotter)
      → s.leaving ≡ true
      → receive_signals tcp_addr s gs ≡ some s'
      → part s' ≡ part s
  unfolding receive_signals receive_signal record_event
  leaving-stays [] s s' l e = ap part (ground (arith, e))
  leaving-stays (Signal.on_tick ∷ gs) s s' l e = leaving-stays gs s s' l e
  leaving-stays (Signal.on_event x ∷ gs) s s' l e = leaving-stays gs s s' l (ground (arith, l, e))
  leaving-stays (Signal.on_leave ∷ gs) s s' l e =
      leaving-stays gs (receive_leave s) s' (leaving-receive_leave s) e ∙ part-receive_leave s

  after_event :
      (gs : List Signal) (s s' : Snapshotter) (x : Event) (o : Option Snapshotter)
      → record_event tcp_addr s x ≡ o
      → s.leaving ≡ false
      → ((t : Snapshotter)
          → t.leaving ≡ false
          → receive_signals tcp_addr t gs ≡ some s'
          → part s' ≡ tell after (part t) gs)
      → elim o [ none ↦ none | some t ↦ receive_signals tcp_addr t gs ] ≡ some s'
      → part s' ≡ tell after (after (part s) x) gs
  after_event gs s s' x none r l ih e = absurd (ground (arith, e))
  after_event gs s s' x (some t) r l ih e =
      let (told, stays) = part-event s t x l r in ih t stays e ∙ ap (λ a. tell after a gs) told

  -- A snapshotter that is not leaving holds, after any signals, what the signals tell.
  pub receive_signals-tell :
      (gs : List Signal) (s s' : Snapshotter)
      → s.leaving ≡ false
      → receive_signals tcp_addr s gs ≡ some s'
      → part s' ≡ tell after (part s) gs
  unfolding receive_signals receive_signal
  receive_signals-tell [] s s' l e = ap part (ground (arith, e))
  receive_signals-tell (Signal.on_tick ∷ gs) s s' l e = receive_signals-tell gs s s' l e
  receive_signals-tell (Signal.on_leave ∷ gs) s s' l e =
      leaving-stays gs (receive_leave s) s' (leaving-receive_leave s) e ∙ part-receive_leave s
  receive_signals-tell (Signal.on_event x ∷ gs) s s' l e =
      after_event gs s s' x (record_event tcp_addr s x) refl l (λ t. receive_signals-tell gs t s') e
