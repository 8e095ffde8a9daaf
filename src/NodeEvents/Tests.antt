-- ===== src/NodeEvents/Tests.antt =====
-- Node events on a small run.
use cserf.Prelude.{false, List, [], ◌∷◌, bytes}
use cserf.Messages.{MemberNode}
use cserf.Inactive.{InactiveNodes}
use cserf.Inactive.Index.{IsConsistent, IsIndexed-nil}
use cserf.NodeEvents.{node_join, node_leave}
use cserf.NodeEvents.Follow.{Change, event, batch, reaps, changes, changes-IsConsistent}

abbrev node : MemberNode
node = record { id = bytes "a"; ip = []; port = 0; tags = [] }

abbrev nobody : InactiveNodes
nobody = record {
  failed_timeout = 9;
  failed = [];
  failed_map = [];
  left_timeout = 9;
  left = [];
  left_map = [];
}

nobody-IsConsistent : IsConsistent nobody
nobody-IsConsistent = record { failed = IsIndexed-nil; left = IsIndexed-nil }

abbrev history : List Change
history =
    event 3 node_leave node false
    ∷ event 4 node_join node false
    ∷ batch 5 (node ∷ [])
    ∷ reaps 20
    ∷ []

changes-IsConsistent_example : IsConsistent (changes nobody history)
changes-IsConsistent_example = changes-IsConsistent history nobody nobody-IsConsistent
