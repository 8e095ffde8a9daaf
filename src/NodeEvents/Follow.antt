-- ===== src/NodeEvents/Follow.antt =====
-- The lists of inactive members after any node events.
use cserf.Prelude.{ℕ, Bool, true, false, List, [], ◌∷◌}
use cserf.Messages.{MemberNode}
use cserf.Inactive.{InactiveNodes, handle_alive, reap}
use cserf.Inactive.Index.{
  IsConsistent, add_fail-IsConsistent, add_left-IsConsistent, add_left_batch-IsConsistent,
  handle_alive_lem,
}
use cserf.Inactive
use cserf.Inactive.Reap.{reap_lem}
use cserf.NodeEvents.{
  NodeEventType, node_join, node_update, node_leave, other_event, handle_node_event,
}

-- Everything that changes the lists, but the removal of a node that was reconnected.
pub data Change : Type 0 where
  event : ℕ → NodeEventType → MemberNode → Bool → Change
  batch : ℕ → List MemberNode → Change
  reaps : ℕ → Change

unfoldable pub change : InactiveNodes → Change → InactiveNodes
change i (event now t n has_left) = (handle_node_event i now t n has_left).1
change i (batch now ns) = Inactive.add_left_batch i now ns
change i (reaps now) = (reap i now).1

event-IsConsistent :
    (i : InactiveNodes) (now : ℕ) (t : NodeEventType) (n : MemberNode) (has_left : Bool)
    → IsConsistent i
    → IsConsistent (handle_node_event i now t n has_left).1
unfolding handle_node_event
event-IsConsistent i now node_join n has_left v = (handle_alive_lem i n.id v).consistent
event-IsConsistent i now node_update n has_left v = (handle_alive_lem i n.id v).consistent
event-IsConsistent i now node_leave n true v = add_left-IsConsistent i now n v
event-IsConsistent i now node_leave n false v = add_fail-IsConsistent i now n v
event-IsConsistent i now (other_event k) n has_left v = v

unfoldable pub changes : InactiveNodes → List Change → InactiveNodes
unfolding change
changes i [] = i
changes i (c ∷ cs) = changes (change i c) cs

-- Whatever node events, batches of leaving nodes and reaps come, in any order and at any times, the lists
-- of failed and of left members agree with their maps afterwards if they did before.
pub changes-IsConsistent :
    (cs : List Change) (i : InactiveNodes) → IsConsistent i → IsConsistent (changes i cs)
unfolding changes
changes-IsConsistent [] i v = v
changes-IsConsistent (event now t n has_left ∷ cs) i v =
    changes-IsConsistent cs _ (event-IsConsistent i now t n has_left v)
changes-IsConsistent (batch now ns ∷ cs) i v =
    changes-IsConsistent cs _ (add_left_batch-IsConsistent i now ns v)
changes-IsConsistent (reaps now ∷ cs) i v = changes-IsConsistent cs _ (reap_lem i now v).0
