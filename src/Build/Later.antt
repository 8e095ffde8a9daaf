-- ===== src/Build/Later.antt =====
-- What a run of actions delivers, on a node with a minimum time for actions.
use cserf.Prelude.{
  ℕ, ◌+◌, ◌≤◌, ◌<◌, ◌≡◌, refl, sym, subst, ◌∙◌, Bool, true, false, Option, none, some, List, [],
  ◌∷◌, ◌++◌, All, All-snoc, arith, ltb, length, u64, if◌then◌else◌,
}
use cserf.Clock.{witness}
use cserf.Buffer.{LItem, is_too_old}
use cserf.Buffer.Agree.{Refines}
use cserf.Messages.{MsgAction, Event, on_action}
use cserf.Serf.{Serf}
use cserf.Serf.Net.{take_action, to_action_event}
use cserf.Serf.Net.Action.{take_action_lem, verdict, is_known, decide}

-- An event that is not an action of the time `last` or before.
abbrev pub IsLater : ℕ → Event → Type 0
IsLater last (on_action e) = last < e.ltime
IsLater last _ = Unit

-- `handleAction` for one action after the other.
unfoldable pub take_actions : Serf → List MsgAction → Option Serf
take_actions s [] = some s
take_actions s (a ∷ msgs) = elim (take_action s a) [ none ↦ none | some s' ↦ take_actions s' msgs ]

abbrev pub IsSmall : MsgAction → Type 0
IsSmall a = a.ltime + 1 < u64

-- What a run of actions leaves: the buffer agrees with a history, and only later actions are delivered.
pub record Later (last : ℕ) (o : Option Serf) : Type 0 where
  pub after : Serf
  pub returns : o ≡ some after
  pub events : All (IsLater last) after.events

-- An action that is accepted is not below the minimum time.
decide-later :
    (size min clock : ℕ) (seen : List LItem) (a : MsgAction)
    → (decide size min clock seen a).0 ≡ true
    → min ≤ a.ltime
unfolding decide
decide-later size min clock seen a h = ground (arith, h)

if_events :
    (last : ℕ) (b : Bool) (es : List Event) (a : MsgAction)
    → All (IsLater last) es
    → (b ≡ true → last < a.ltime)
    → All (IsLater last) (if b then es ++ (to_action_event a ∷ []) else es)
if_events last true es a h k = All-snoc (IsLater last) es (to_action_event a) h (k refl)
if_events last false es a h k = h

pub take_actions-Later :
    (last : ℕ) (msgs : List MsgAction) (s : Serf) (seen : List LItem)
    → s.action.action_min_time ≡ last + 1
    → Refines s.action.clock s.action.buffers seen
    → All (IsLater last) s.events
    → All IsSmall msgs
    → Later last (take_actions s msgs)
unfolding take_actions
take_actions-Later last [] s seen min r es h = record { after = s; returns = refl; events = es }
take_actions-Later last (a ∷ msgs) s seen min r es h =
    let t = take_action_lem s seen a r h.0 in
    let rest =
      take_actions-Later last msgs t.after (verdict s seen a).1 (t.min_time ∙ min) t.refines
        (subst (All (IsLater last)) (sym t.events) (
          if_events last (verdict s seen a).0 s.events a es (λ ok. omega (
            arith,
            min,
            decide-later (length s.action.buffers) s.action.action_min_time s.action.clock seen a
                ok,
          ))))
        h.1 in
    record {
      after = rest.after;
      returns = ground (arith, t.returns, rest.returns);
      events = rest.events;
    }

-- A node that has seen no action, with a minimum time.
pub record IsFresh (last : ℕ) (s : Serf) : Type 0 where
  pub min_time : s.action.action_min_time ≡ last + 1
  pub clock : s.action.clock ≡ 1
  pub refines : Refines s.action.clock s.action.buffers []
  pub events : s.events ≡ []

decide-first :
    (size last : ℕ) (a : MsgAction)
    → 0 < size
    → IsSmall a
    → (decide size (last + 1) 1 [] a).0 ≡ ltb last a.ltime
unfolding decide is_known witness is_too_old
decide-first size last a pos small = ground arith

pub first_events :
    (last : ℕ) (s : Serf) (a : MsgAction) (events : List Event)
    → IsFresh last s
    → IsSmall a
    → events ≡ (if (verdict s [] a).0 then s.events ++ (to_action_event a ∷ []) else s.events)
    → events ≡ (if ltb last a.ltime then to_action_event a ∷ [] else [])
first_events last s a events f small e = ground (
  arith,
  e,
  f.events,
  f.clock,
  f.min_time,
  decide-first (length s.action.buffers) last a f.refines.nonempty small,
)
