-- ===== src/Snapshot/Restart.antt =====
-- What a restart gets back from the file.
use cserf.Prelude.{
  none, ℕ, ◌≡◌, refl, ◌∙◌, true, some, List, [], ◌∷◌, Text, bytes, text_key, get, All, arith,
  length,
}
use cserf.Snapshot.{Snapshotter, handle_line, handle_info, find_prefix, opened, new_snapshotter}
use cserf.Snapshot.Lines.{IsWord}
use cserf.Snapshot.Faithful.{Same, IsFaithful, append_line-IsFaithful}
use cserf.Snapshot.Record.{IsRecordable, Records, record_event-Records}
use cserf.Snapshot.Reopen.{reopen, opened-IsFaithful}
use cserf.Snapshot.Known.{known, receive_signals-known}
use cserf.Snapshot.Receive.{Signal, receive_leave, receive_signal, receive_signals}

abbrev pub IsAcceptable : Signal → Type 0
IsAcceptable (Signal.on_event e) = IsRecordable e
IsAcceptable _ = Unit

receive_leave-IsFaithful : (s : Snapshotter) → IsFaithful s → IsFaithful (receive_leave s)
unfolding receive_leave handle_line find_prefix handle_info
receive_leave-IsFaithful s f =
    append_line-IsFaithful f (record s { leaving = true }) (bytes "leave")
      (record {
        map = f.clean.map;
        entries = f.clean.entries;
        action = f.clean.action;
        query = f.clean.query;
      })
      (ground arith) refl refl
      (λ r same. (r, refl, record { alive = same.alive; action = same.action; query = same.query }))

module _ (tcp_addr : Text → ℕ → Text)
    (words : (ip : Text) (port : ℕ) → IsWord (tcp_addr ip port)) where
  receive_signal-Records :
      (s : Snapshotter) (g : Signal)
      → IsFaithful s
      → IsAcceptable g
      → Records (receive_signal tcp_addr s g)
  unfolding receive_signal
  receive_signal-Records s Signal.on_leave f h = record {
    after = receive_leave s;
    returns = refl;
    faithful = receive_leave-IsFaithful s f;
  }
  receive_signal-Records s Signal.on_tick f h = record { after = s; returns = refl; faithful = f }
  receive_signal-Records s (Signal.on_event e) f h = record_event-Records tcp_addr words s e f h

  receive_signals-Records :
      (gs : List Signal) (s : Snapshotter)
      → IsFaithful s
      → All IsAcceptable gs
      → Records (receive_signals tcp_addr s gs)
  unfolding receive_signals
  receive_signals-Records [] s f h = record { after = s; returns = refl; faithful = f }
  receive_signals-Records (g ∷ gs) s f h =
      let r = receive_signal-Records s g f h.0 in
      let later = receive_signals-Records gs r.after r.faithful h.1 in
      record {
        after = later.after;
        returns = ground (arith, r.returns, later.returns);
        faithful = later.faithful;
      }

  opened-known :
      (min : ℕ) (gs : List Signal) (s : Snapshotter) (id : Text)
      → receive_signals tcp_addr (opened min []) gs ≡ some s
      → get s.alive_nodes id ≡ known tcp_addr id none gs
  unfolding opened get
  opened-known min gs s id e = receive_signals-known tcp_addr id gs (opened min []) s refl e

  -- Whatever events a new snapshotter has received, with calls of `Leave` and compactions in between, it has
  -- not panicked, takes the size of its file for what it is, and a snapshotter that is opened on the file
  -- knows the same alive nodes with the same addresses and the same clocks. A member is alive to it, with the
  -- address of its last join, exactly when no leave and no failure of it came after that join and before the
  -- first call of `Leave`. Every member event has a member, no id holds a line feed, no address a line feed or
  -- a space, and all times are 64-bit ones.
  pub restart_lem :
      (min min' : ℕ) (gs : List Signal) (id : Text)
      → All IsAcceptable gs
      → (s r : Snapshotter) × (receive_signals tcp_addr (opened min []) gs ≡ some s)
        × (s.offset ≡ length s.log)
        × (new_snapshotter min' s.log ≡ some r)
        × Same r s
        × (get r.alive_nodes id ≡ known tcp_addr id none gs)
  restart_lem min min' gs id h =
      let ran = receive_signals-Records gs (opened min []) (opened-IsFaithful min) h in
      let (r, e, same) = reopen min' ran.after ran.faithful in
      (
        ran.after,
        r,
        ran.returns,
        ran.faithful.size,
        e,
        same,
        same.alive id ∙ opened-known min gs ran.after id ran.returns,
      )
