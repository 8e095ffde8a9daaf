-- ===== src/Snapshot/Clocks.antt =====
-- The last times that a snapshotter knows, told from the events alone.
use cserf.Prelude.{ℕ, ◌≡◌, refl, false, Option, none, some, List, Text, leb, arith, if◌then◌else◌}
use cserf.Messages.{MemberNode, EventType, Event, on_query, on_action, on_member, on_members}
use cserf.Snapshot.{
  Snapshotter, append_line, compact, record_action_clock, record_query_clock, record_member_event,
  record_known, record_event,
}
use cserf.Snapshot.Receive.{Signal, receive_signals}
use cserf.Snapshot.Told.{tell, receive_signals-tell}

abbrev after_event : ℕ → Event → ℕ
after_event t (on_action e) = if leb e.ltime t then t else e.ltime
after_event t _ = t

-- The highest time of the actions before the first call of `Leave`.
abbrev pub last_action : List Signal → ℕ
last_action gs = tell after_event 0 gs

clock-append_line :
    (s : Snapshotter) (l : Text) → (append_line s l).last_action_clock ≡ s.last_action_clock
unfolding append_line compact
clock-append_line s l = ground arith

leaving-append_line : (s : Snapshotter) (l : Text) → (append_line s l).leaving ≡ s.leaving
unfolding append_line compact
leaving-append_line s l = ground arith

module _ (tcp_addr : Text → ℕ → Text) where
  clock-member :
      (s t : Snapshotter) (x : EventType) (o : Option MemberNode)
      → s.leaving ≡ false
      → record_member_event tcp_addr s (record { type = x; member = o }) ≡ some t
      → (t.last_action_clock ≡ s.last_action_clock) × (t.leaving ≡ false)
  unfolding record_member_event append_line compact
  clock-member s t EventType.member_join none l e = ground (arith, l, e)
  clock-member s t EventType.member_join (some m) l e = ground (arith, l, e)
  clock-member s t EventType.member_leave none l e = ground (arith, l, e)
  clock-member s t EventType.member_leave (some m) l e = ground (arith, l, e)
  clock-member s t EventType.member_failed none l e = ground (arith, l, e)
  clock-member s t EventType.member_failed (some m) l e = ground (arith, l, e)
  clock-member s t EventType.member_update o l e = ground (arith, l, e)
  clock-member s t EventType.member_reap o l e = ground (arith, l, e)
  clock-member s t EventType.query o l e = ground (arith, l, e)
  clock-member s t EventType.action o l e = ground (arith, l, e)

  clock-known :
      (s t : Snapshotter) (e : Event)
      → s.leaving ≡ false
      → record_known tcp_addr s e ≡ some t
      → (t.last_action_clock ≡ after_event s.last_action_clock e) × (t.leaving ≡ false)
  unfolding record_known record_action_clock record_query_clock append_line compact
  clock-known s t (on_member x) l e = clock-member s t x.type x.member l e
  clock-known s t (on_members x) l e = ground (arith, l, e)
  clock-known s t (on_action x) l e = ground (arith, l, e)
  clock-known s t (on_query x) l e = ground (arith, l, e)

  clock-event :
      (s t : Snapshotter) (e : Event)
      → s.leaving ≡ false
      → record_event tcp_addr s e ≡ some t
      → (t.last_action_clock ≡ after_event s.last_action_clock e) × (t.leaving ≡ false)
  unfolding record_event
  clock-event s t x l e = clock-known s t x l (ground (arith, l, e))

  pub receive_signals-clock :
      (gs : List Signal) (s s' : Snapshotter)
      → s.leaving ≡ false
      → receive_signals tcp_addr s gs ≡ some s'
      → s'.last_action_clock ≡ tell after_event s.last_action_clock gs
  receive_signals-clock =
      receive_signals-tell tcp_addr (λ (s : Snapshotter). s.last_action_clock) after_event
        clock-append_line (λ s. refl) clock-event
