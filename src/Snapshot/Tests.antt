-- ===== src/Snapshot/Tests.antt =====
-- The snapshot file on small runs.
use cserf.Prelude.{get, text_key, ℕ, ◌≡◌, arith, none, some, List, [], ◌∷◌, Text, bytes, length}
use cserf.Messages.{EventType, Event, on_member, on_action}
use cserf.Snapshot.{Snapshotter, opened, new_snapshotter}
use cserf.Snapshot.Lines.{IsWord}
use cserf.Snapshot.Faithful.{Same}
use cserf.Snapshot.Receive.{Signal, receive_signals}
use cserf.Snapshot.Known.{known}
use cserf.Snapshot.Restart.{restart_lem}

-- Stands in for `String` of `net.TCPAddr`.
abbrev tcp_addr : Text → ℕ → Text
tcp_addr ip port = bytes "10.0.0.1:7"

tcp_addr-IsWord : (ip : Text) (port : ℕ) → IsWord (tcp_addr ip port)
tcp_addr-IsWord ip port = ground arith

abbrev member : EventType → Event
member t =
    on_member (record {
      type = t;
      member = some (record { id = bytes "n 1"; ip = []; port = 7; tags = [] });
    })

abbrev signals : List Signal
signals =
    Signal.on_event (member EventType.member_join)
    ∷ Signal.on_event (on_action (record { ltime = 12; name = []; payload = none }))
    ∷ Signal.on_event (member EventType.member_failed)
    ∷ Signal.on_leave
    ∷ Signal.on_event (member EventType.member_join)
    ∷ []

restart_lem_example :
    (s r : Snapshotter) × (receive_signals tcp_addr (opened 30 []) signals ≡ some s)
    × (s.offset ≡ length s.log)
    × (new_snapshotter 40 s.log ≡ some r)
    × Same r s
    × (get r.alive_nodes (bytes "n 1") ≡ known tcp_addr (bytes "n 1") none signals)
restart_lem_example =
    restart_lem tcp_addr tcp_addr-IsWord 30 40 signals (bytes "n 1")
      (ground arith, (omega arith, (ground arith, (tt, (ground arith, tt)))))
