-- ===== src/Inactive/Batch.antt =====
-- `addLeftBatch` at a node that is marked already.
use cserf.Prelude.{ℕ, ◌≡◌, true, List, [], ◌∷◌, ◌++◌, arith}
use cserf.Messages.{MemberNode}
use cserf.Inactive.{InactiveNodes, is_marked, add_left, add_left_batch}

-- Once a node of the batch has left already, all nodes behind it are dropped, known or not.
pub add_left_batch_stops :
    (ns : List MemberNode) (i : InactiveNodes) (now : ℕ) (n : MemberNode) (rest : List MemberNode)
    → is_marked (add_left_batch i now ns).left_map n.id ≡ true
    → add_left_batch i now (ns ++ (n ∷ rest)) ≡ add_left_batch i now ns
unfolding add_left_batch
add_left_batch_stops [] i now n rest h = rw h
add_left_batch_stops (x ∷ ns) i now n rest h =
    ground (arith, add_left_batch_stops ns (add_left i now x) now n rest)
