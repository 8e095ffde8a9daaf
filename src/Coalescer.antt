-- ===== src/Coalescer.antt =====
-- coalescer.go: member events are collected, and flushed as one event for each type.
-- A result `none` is a run-time panic. `deep_equal` is `reflect.DeepEqual` on nodes.
pub mod Flush
pub mod Repeat
mod Tests
use cserf.Prelude.{
  ℕ, Bool, true, false, Option, none, some, List, [], ◌∷◌, ◌++◌, Text, text_eq, text_key, Dict, get,
  put, if◌then◌else◌,
}
use cserf.Messages.{
  MemberNode, EventType, type_eq, type_key, MemberEvent, CoalescedMemberEvent, Event, on_query,
  on_action, on_member, on_members, event_type,
}

-- A `MemberEvent` whose member is not nil.
pub record Change : Type 0 where
  pub type : EventType
  pub node : MemberNode

pub record Coalescer : Type 0 where
  pub new_events : Dict Text Change
  pub old_events : Dict Text Change
  pub out : List Event

unfoldable pub is_member_event : EventType → Bool
is_member_event EventType.query = false
is_member_event EventType.action = false
is_member_event _ = true

abbrev pub Groups : Type 0
Groups = Dict EventType CoalescedMemberEvent

-- One round of the first loop of `flush`, on an event that has changed. The first event of a type
-- starts its group, and is not put into the old events.
unfoldable pub group :
    Text
    → Change
    → Option CoalescedMemberEvent
    → Groups × Dict Text Change
    → Groups × Dict Text Change
group id e none (groups, old) =
    (put groups e.type (record { type = e.type; members = e.node ∷ [] }), old)
group id e (some g) (groups, old) =
    (put groups e.type (record g { members = g.members ++ (e.node ∷ []) }), put old id e)

-- The second loop.
unfoldable pub emit : Groups → List Event
emit [] = []
emit ((t, g) ∷ gs) = on_members g ∷ emit gs

module _ (deep_equal : MemberNode → MemberNode → Bool) where
  -- `(*MemberEvent).Equal`
  unfoldable pub equal : Change → Option Change → Bool
  equal m none = false
  equal m (some other) =
      if type_eq m.type other.type
      then (if text_eq m.node.id other.node.id
          then (if type_eq m.type EventType.member_update
              then deep_equal m.node other.node
              else true)
          else false)
      else false

  unfoldable pub flush_round : Text → Change → Groups × Dict Text Change → Groups × Dict Text Change
  unfolding equal group
  flush_round id e (groups, old) =
      if equal e (get old id) then (groups, old) else group id e (get groups e.type) (groups, old)

  unfoldable pub flush_rounds :
      Dict Text Change → Groups × Dict Text Change → Groups × Dict Text Change
  flush_rounds [] s = s
  flush_rounds ((id, e) ∷ news) s = flush_rounds news (flush_round id e s)

  unfoldable pub flush : Coalescer → Coalescer
  unfolding flush_rounds emit
  flush c =
      let (groups, old) = flush_rounds c.new_events ([], c.old_events) in
      record { new_events = []; old_events = old; out = c.out ++ emit groups }

-- What the loop of `coalesce` does with one event that comes in. An event that has a member's type
-- and is no `MemberEvent` fails the type assertion.
unfoldable pub receive : Coalescer → Event → Option Coalescer
receive c (on_query e) = some (record c { out = c.out ++ (on_query e ∷ []) })
receive c (on_action e) = some (record c { out = c.out ++ (on_action e ∷ []) })
receive c (on_member e) =
    if is_member_event e.type
    then (elim e.member [
      | none ↦ some c
      | some n ↦
          some
            (record c { new_events = put c.new_events n.id (record { type = e.type; node = n }) })
    ])
    else some (record c { out = c.out ++ (on_member e ∷ []) })
receive c (on_members e) =
    if is_member_event e.type then none else some (record c { out = c.out ++ (on_members e ∷ []) })

-- The clean ticker.
unfoldable pub clean : Coalescer → Coalescer
clean c = record c { old_events = [] }
