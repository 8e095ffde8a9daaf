-- ===== src/Snapshot/Record.antt =====
-- The recording of an event keeps the file and the state in agreement.
use cserf.Prelude.{
  if_both, ℕ, ◌<◌, ◌≡◌, refl, Bool, true, false, Option, none, some, [], ◌∷◌, Text, text_key, Dict,
  put, remove, get-put, get-remove, put-IsMap, remove-IsMap, All, arith, leb, if◌then◌else◌, u64,
  Bool-cases, inl, inr,
}
use cserf.Messages.{MemberNode, EventType, Event, on_query, on_action, on_member, on_members}
use cserf.Snapshot.{
  Snapshotter, alive_line, not_alive_line, action_clock_line, query_clock_line, record_action_clock,
  record_query_clock, record_alive, record_not_alive, record_member_event, record_known,
  record_event,
}
use cserf.Snapshot.Lines.{
  IsLine, IsWord, alive_line-IsLine, not_alive_line-IsLine, action_clock_line-IsLine,
  query_clock_line-IsLine,
}
use cserf.Snapshot.Replay.{
  handle_alive, handle_not_alive, handle_action_clock, handle_query_clock, IsEntry,
}
use cserf.Snapshot.Faithful.{IsFaithful, append_line-IsFaithful}

put-All :
    (m : Dict Text Text) (id addr : Text)
    → All IsEntry m
    → IsLine id
    → IsWord addr
    → All IsEntry (put m id addr)
unfolding put
put-All [] id addr h i a = ((i, a), tt)
put-All ((j, w) ∷ m) id addr h i a = elim (Bool-cases (text_key.same j id)) [
  | inl found ↦ rw found ((i, a), h.1)
  | inr other ↦ rw other (h.0, put-All m id addr h.1 i a)
]

remove-All : (m : Dict Text Text) (id : Text) → All IsEntry m → All IsEntry (remove m id)
unfolding remove
remove-All [] id h = tt
remove-All ((j, w) ∷ m) id h = elim (Bool-cases (text_key.same j id)) [
  | inl found ↦ rw found (remove-All m id h.1)
  | inr other ↦ rw other (h.0, remove-All m id h.1)
]

module _ {s : Snapshotter} (f : IsFaithful s) where
  record_alive-IsFaithful :
      (id addr : Text) → IsLine id → IsWord addr → IsFaithful (record_alive s id addr)
  record_alive-IsFaithful id addr i a =
      append_line-IsFaithful f (record s { alive_nodes = put s.alive_nodes id addr })
        (alive_line id addr)
        (record {
          map = put-IsMap s.alive_nodes id addr f.clean.map;
          entries = put-All s.alive_nodes id addr f.clean.entries i a;
          action = f.clean.action;
          query = f.clean.query;
        })
        (alive_line-IsLine id addr i a) refl refl
        (λ r same. (
          record r { alive_nodes = put r.alive_nodes id addr },
          handle_alive r id addr a,
          record {
            alive = λ k. ground (
              arith,
              get-put r.alive_nodes id k addr,
              get-put s.alive_nodes id k addr,
              same.alive k,
            );
            action = same.action;
            query = same.query;
          },
        ))

  record_not_alive-IsFaithful : (id : Text) → IsLine id → IsFaithful (record_not_alive s id)
  record_not_alive-IsFaithful id i =
      append_line-IsFaithful f (record s { alive_nodes = remove s.alive_nodes id })
        (not_alive_line id)
        (record {
          map = remove-IsMap s.alive_nodes id f.clean.map;
          entries = remove-All s.alive_nodes id f.clean.entries;
          action = f.clean.action;
          query = f.clean.query;
        })
        (not_alive_line-IsLine id i) refl refl
        (λ r same. (
          record r { alive_nodes = remove r.alive_nodes id },
          handle_not_alive r id,
          record {
            alive = λ k.
                ground (
                  arith,
                  get-remove r.alive_nodes id k,
                  get-remove s.alive_nodes id k,
                  same.alive k,
                );
            action = same.action;
            query = same.query;
          },
        ))

  IsFaithful-skip : (b : Bool) {t : Snapshotter} → IsFaithful t → IsFaithful (if b then s else t)
  IsFaithful-skip true h = f
  IsFaithful-skip false h = h

  record_action_clock-IsFaithful : (t : ℕ) → t < u64 → IsFaithful (record_action_clock s t)
  unfolding record_action_clock
  record_action_clock-IsFaithful t small = IsFaithful-skip (leb t s.last_action_clock) (
      append_line-IsFaithful f (record s { last_action_clock = t }) (action_clock_line t)
        (record {
          map = f.clean.map;
          entries = f.clean.entries;
          action = small;
          query = f.clean.query;
        })
        (action_clock_line-IsLine t) refl refl
        (λ r same. (
          record r { last_action_clock = t },
          handle_action_clock r t small,
          record { alive = same.alive; action = refl; query = same.query },
        )))

  record_query_clock-IsFaithful : (t : ℕ) → t < u64 → IsFaithful (record_query_clock s t)
  unfolding record_query_clock
  record_query_clock-IsFaithful t small = IsFaithful-skip (leb t s.last_query_clock) (
      append_line-IsFaithful f (record s { last_query_clock = t }) (query_clock_line t)
        (record {
          map = f.clean.map;
          entries = f.clean.entries;
          action = f.clean.action;
          query = small;
        })
        (query_clock_line-IsLine t) refl refl
        (λ r same. (
          record r { last_query_clock = t },
          handle_query_clock r t small,
          record { alive = same.alive; action = same.action; query = refl },
        )))

-- A member event has a member, whose id has no line feed; times are 64-bit ones.
abbrev pub IsMember : Option MemberNode → Type 0
IsMember none = ⊥
IsMember (some m) = IsLine m.id

abbrev pub IsRecordable : Event → Type 0
IsRecordable (on_member e) = IsMember e.member
IsRecordable (on_action e) = e.ltime < u64
IsRecordable (on_query e) = e.ltime < u64
IsRecordable (on_members e) = Unit

pub record Records (o : Option Snapshotter) : Type 0 where
  pub after : Snapshotter
  pub returns : o ≡ some after
  pub faithful : IsFaithful after

module _ (tcp_addr : Text → ℕ → Text)
    (words : (ip : Text) (port : ℕ) → IsWord (tcp_addr ip port)) where
  record_member-Records :
      (s : Snapshotter) (t : EventType) (o : Option MemberNode)
      → IsFaithful s
      → IsMember o
      → Records (record_member_event tcp_addr s (record { type = t; member = o }))
  unfolding record_member_event
  record_member-Records s t none f h = absurd h
  record_member-Records s EventType.member_join (some m) f h = record {
    after = record_alive s m.id (tcp_addr m.ip m.port);
    returns = refl;
    faithful = record_alive-IsFaithful f m.id (tcp_addr m.ip m.port) h (words m.ip m.port);
  }
  record_member-Records s EventType.member_leave (some m) f h = record {
    after = record_not_alive s m.id;
    returns = refl;
    faithful = record_not_alive-IsFaithful f m.id h;
  }
  record_member-Records s EventType.member_failed (some m) f h = record {
    after = record_not_alive s m.id;
    returns = refl;
    faithful = record_not_alive-IsFaithful f m.id h;
  }
  record_member-Records s EventType.member_update (some m) f h = record {
    after = s;
    returns = refl;
    faithful = f;
  }
  record_member-Records s EventType.member_reap (some m) f h = record {
    after = s;
    returns = refl;
    faithful = f;
  }
  record_member-Records s EventType.query (some m) f h = record {
    after = s;
    returns = refl;
    faithful = f;
  }
  record_member-Records s EventType.action (some m) f h = record {
    after = s;
    returns = refl;
    faithful = f;
  }

  record_known-Records :
      (s : Snapshotter) (e : Event)
      → IsFaithful s
      → IsRecordable e
      → Records (record_known tcp_addr s e)
  unfolding record_known
  record_known-Records s (on_member e) f h = record_member-Records s e.type e.member f h
  record_known-Records s (on_action e) f h = record {
    after = record_action_clock s e.ltime;
    returns = refl;
    faithful = record_action_clock-IsFaithful f e.ltime h;
  }
  record_known-Records s (on_query e) f h = record {
    after = record_query_clock s e.ltime;
    returns = refl;
    faithful = record_query_clock-IsFaithful f e.ltime h;
  }
  record_known-Records s (on_members e) f h = record { after = s; returns = refl; faithful = f }

  pub record_event-Records :
      (s : Snapshotter) (e : Event)
      → IsFaithful s
      → IsRecordable e
      → Records (record_event tcp_addr s e)
  unfolding record_event
  record_event-Records s e f h =
      if_both Records s.leaving (record { after = s; returns = refl; faithful = f })
        (record_known-Records s e f h)
