-- ===== src/Inactive.antt =====
-- inactive.go: the failed and the left members, each kept in a list with a map of its ids.
pub mod Count
pub mod Index
pub mod Reap
pub mod Batch
mod Tests
use cserf.Prelude.{
  ℕ, zero, suc, ◌+◌, ◌-◌, ◌%◌, Bool, true, false, Option, none, some, List, [], ◌∷◌, ◌++◌, map,
  Text, text_eq, text_key, Dict, get, put, remove, nat_eq, leb, length, get_elem?, set, take,
  if◌then◌else◌,
}
use cserf.Messages.{MemberNode}

-- `InActiveNode`: `time` is when it became inactive.
pub record InactiveNode : Type 0 where
  pub node : MemberNode
  pub time : ℕ

abbrev pub id_of : InactiveNode → Text
id_of n = n.node.id

pub record InactiveNodes : Type 0 where
  pub failed_timeout : ℕ
  pub failed : List InactiveNode
  pub failed_map : Dict Text Bool
  pub left_timeout : ℕ
  pub left : List InactiveNode
  pub left_map : Dict Text Bool

unfoldable pub new_inactive_nodes : ℕ → ℕ → InactiveNodes
new_inactive_nodes failed_timeout left_timeout = record {
  failed_timeout = failed_timeout;
  failed = [];
  failed_map = [];
  left_timeout = left_timeout;
  left = [];
  left_map = [];
}

-- `m[id]` on a map of Booleans.
abbrev pub or_false : Option Bool → Bool
or_false none = false
or_false (some b) = b

abbrev pub is_marked : Dict Text Bool → Text → Bool
is_marked m id = or_false (get m id)

unfoldable pub add_fail : InactiveNodes → ℕ → MemberNode → InactiveNodes
add_fail i now n = if is_marked i.failed_map n.id then i else record i {
  failed = i.failed ++ (record { node = n; time = now } ∷ []);
  failed_map = put i.failed_map n.id true;
}

unfoldable pub add_left : InactiveNodes → ℕ → MemberNode → InactiveNodes
add_left i now n = if is_marked i.left_map n.id then i else record i {
  left = i.left ++ (record { node = n; time = now } ∷ []);
  left_map = put i.left_map n.id true;
}

-- `addLeftBatch`: the loop returns at a node that is marked. `now` is the same for the batch.
unfoldable pub add_left_batch : InactiveNodes → ℕ → List MemberNode → InactiveNodes
add_left_batch i now [] = i
add_left_batch i now (n ∷ ns) =
    let rest = add_left_batch (add_left i now n) now ns in
    if is_marked i.left_map n.id then i else rest

unfoldable pub get_left_nodes : InactiveNodes → List MemberNode
get_left_nodes i = map (λ n. n.node) i.left

-- The search loop of `removeFromList`: the length of the list if the id is not found.
unfoldable pub find_index : Text → List InactiveNode → ℕ
find_index id [] = 0
find_index id (n ∷ ns) = if text_eq (id_of n) id then 0 else suc (find_index id ns)

unfoldable pub swap : List InactiveNode → ℕ → ℕ → List InactiveNode
swap xs i j = elim (get_elem? xs i) [
  | none ↦ xs
  | some a ↦ elim (get_elem? xs j) [ none ↦ xs | some b ↦ set (set xs i b) j a ]
]

-- `removeFromList`: the node is swapped with the last one, and the last one is cut off.
unfoldable pub remove_from_list : List InactiveNode → Text → List InactiveNode
unfolding find_index swap
remove_from_list nodes id =
    if nat_eq (find_index id nodes) (length nodes)
    then nodes
    else take (length nodes - 1) (swap nodes (find_index id nodes) (length nodes - 1))

unfoldable pub remove_failed : InactiveNodes → Text → InactiveNodes
remove_failed i id =
    if is_marked i.failed_map id
    then record i { failed = remove_from_list i.failed id; failed_map = remove i.failed_map id }
    else i

unfoldable pub remove_left : InactiveNodes → Text → InactiveNodes
remove_left i id =
    if is_marked i.left_map id
    then record i { left = remove_from_list i.left id; left_map = remove i.left_map id }
    else i

unfoldable pub handle_alive : InactiveNodes → Text → InactiveNodes
handle_alive i id = remove_left (remove_failed i id) id

unfoldable pub is_expired : ℕ → ℕ → InactiveNode → Bool
is_expired now timeout n = leb timeout (now - n.time)

-- The first loop of `removeTimeouts`.
unfoldable pub expired_nodes : ℕ → ℕ → List InactiveNode → List MemberNode
unfolding is_expired
expired_nodes now timeout [] = []
expired_nodes now timeout (n ∷ ns) =
    let rest = expired_nodes now timeout ns in
    if is_expired now timeout n then n.node ∷ rest else rest

-- The second loop.
unfoldable pub remove_each :
    List InactiveNode → Dict Text Bool → List MemberNode → List InactiveNode × Dict Text Bool
remove_each nodes m [] = (nodes, m)
remove_each nodes m (n ∷ ns) = remove_each (remove_from_list nodes n.id) (remove m n.id) ns

abbrev pub Removal : Type 0
Removal = List MemberNode × List InactiveNode × Dict Text Bool

-- `removeTimeouts`, which returns the removed nodes; a zero timeout removes none.
unfoldable pub remove_timeouts : ℕ → List InactiveNode → Dict Text Bool → ℕ → Removal
unfolding expired_nodes remove_each
remove_timeouts now nodes m timeout =
    let gone = expired_nodes now timeout nodes in
    let (nodes', m') = remove_each nodes m gone in
    if nat_eq timeout 0 then ([], nodes, m) else (gone, nodes', m')

unfoldable pub reap : InactiveNodes → ℕ → List MemberNode × InactiveNodes
reap i now =
    let (gone_f, failed', failed_map') =
      remove_timeouts now i.failed i.failed_map i.failed_timeout in
    let (gone_l, left', left_map') = remove_timeouts now i.left i.left_map i.left_timeout in
    (
      gone_f ++ gone_l,
      record i { failed = failed'; failed_map = failed_map'; left = left'; left_map = left_map' },
    )

-- `pickRandomFailed`: `raw` is the random number.
unfoldable pub pick_random_failed : InactiveNodes → ℕ → Option MemberNode
pick_random_failed i raw = elim (get_elem? i.failed (raw % length i.failed)) [
  | none ↦ none
  | some n ↦ some n.node
]
