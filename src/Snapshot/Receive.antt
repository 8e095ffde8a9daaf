-- ===== src/Snapshot/Receive.antt =====
-- The loop of `receiveEvents` in snapshot.go. A tick of the flush timer changes nothing here, where the file and
-- its buffer are one text; the events drained after the shutdown are recorded like the others.
use cserf.Prelude.{ℕ, true, Option, none, some, List, [], ◌∷◌, Text, bytes}
use cserf.Messages.{Event}
use cserf.Snapshot.{Snapshotter, append_line, record_event}

-- What the loop receives: a signal of `leaveCh`, an event of `teeCh`, a tick.
pub data Signal : Type 0 where
  on_leave on_tick : Signal
  on_event : Event → Signal

unfoldable pub receive_leave : Snapshotter → Snapshotter
unfolding append_line
receive_leave s = append_line (record s { leaving = true }) (bytes "leave")

module _ (tcp_addr : Text → ℕ → Text) where
  unfoldable pub receive_signal : Snapshotter → Signal → Option Snapshotter
  unfolding receive_leave record_event
  receive_signal s Signal.on_leave = some (receive_leave s)
  receive_signal s Signal.on_tick = some s
  receive_signal s (Signal.on_event e) = record_event tcp_addr s e

  unfoldable pub receive_signals : Snapshotter → List Signal → Option Snapshotter
  unfolding receive_signal
  receive_signals s [] = some s
  receive_signals s (g ∷ gs) = elim (receive_signal s g) [
    | none ↦ none
    | some s' ↦ receive_signals s' gs
  ]
