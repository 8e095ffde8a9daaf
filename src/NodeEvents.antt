-- ===== src/NodeEvents.antt =====
-- node_events.go: what the memberlist reports of a node becomes a member event, and the lists of inactive
-- members follow.
pub mod Follow
mod Tests
use cserf.Prelude.{ℕ, Bool, true, false, Option, none, some, if◌then◌else◌}
use cserf.Messages.{MemberNode, EventType, MemberEvent}
use cserf.Inactive.{InactiveNodes, add_fail, add_left, handle_alive}

-- The kinds of node event that the source names; any other is unknown to it.
pub data NodeEventType : Type 0 where
  node_join node_update node_leave : NodeEventType
  other_event : ℕ → NodeEventType

-- Whether the memberlist has the node in the state `StateLeft` is the last argument.
unfoldable pub handle_node_leave_event :
    InactiveNodes → ℕ → MemberNode → Bool → EventType × InactiveNodes
handle_node_leave_event i now n has_left =
    if has_left
    then (EventType.member_leave, add_left i now n)
    else (EventType.member_failed, add_fail i now n)

abbrev pub event_of : MemberNode → EventType × InactiveNodes → Option MemberEvent × InactiveNodes
event_of n (t, i) = (some (record { type = t; member = some n }), i)

-- `handleNodeEvent`; `none` is an error.
unfoldable pub handle_node_event :
    InactiveNodes → ℕ → NodeEventType → MemberNode → Bool → Option MemberEvent × InactiveNodes
unfolding handle_node_leave_event
handle_node_event i now node_join n has_left =
    event_of n (EventType.member_join, handle_alive i n.id)
handle_node_event i now node_update n has_left =
    event_of n (EventType.member_update, handle_alive i n.id)
handle_node_event i now node_leave n has_left =
    event_of n (handle_node_leave_event i now n has_left)
handle_node_event i now (other_event k) n has_left = (none, i)
