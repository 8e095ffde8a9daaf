-- ===== src/Serf/Relay.antt =====
-- query.go: answering a query, and relaying the answer through other nodes.
pub mod Picks
use cserf.Prelude.{
  ℕ, zero, suc, ◌+◌, ◌*◌, ◌%◌, Bool, true, false, ◌||◌, Option, none, some, List, [], ◌∷◌, ◌++◌,
  Text, text_eq, nat_eq, ltb, length, get_elem?, if◌then◌else◌, u32,
}
use cserf.Messages.{MsgQueryResponse, MsgRelay, MemberNode, QueryEvent}
use cserf.Serf.{Serf, Env, Addr, Error}

-- `randIntN` of utils.go, at the raw random number `raw`.
unfoldable pub rand_int_n : ℕ → ℕ → ℕ
rand_int_n raw n = if nat_eq n 0 then 0 else raw % (n % u32)

-- The inner loop of `pickRelayNodes`: whether a node of this id is picked already.
unfoldable pub is_picked : Text → List MemberNode → Bool
is_picked id [] = false
is_picked id (p ∷ ps) = if text_eq id p.id then true else is_picked id ps

-- One round of the outer loop, at the node that was drawn. An index out of range would panic; it
-- cannot be drawn, and the round is then left out.
unfoldable pub pick_one : Text → Text → Option MemberNode → List MemberNode → List MemberNode
pick_one self dest none picked = picked
pick_one self dest (some node) picked =
    if text_eq node.id self || text_eq node.id dest
    then picked
    else if is_picked node.id picked
    then picked
    else picked ++ (node ∷ [])

-- The outer loop, with the rounds that are left; `i` counts the rounds done.
unfoldable pub pick_rounds :
    (ℕ → ℕ) → List MemberNode → Text → Text → ℕ → ℕ → ℕ → List MemberNode → List MemberNode
pick_rounds draw nodes self dest num zero i picked = picked
pick_rounds draw nodes self dest num (suc rounds) i picked =
    if ltb (length picked) num
    then pick_rounds draw nodes self dest num rounds (i + 1)
        (pick_one self dest (get_elem? nodes (rand_int_n (draw i) (length nodes))) picked)
    else picked

unfoldable pub pick_relay_nodes : (ℕ → ℕ) → List MemberNode → Text → ℕ → Text → List MemberNode
pick_relay_nodes draw nodes self num dest =
    pick_rounds draw nodes self dest num (3 * length nodes) 0 []

abbrev pub node_addr : MemberNode → Addr
node_addr n = record { ip = n.ip; port = n.port }

-- The sends to the picked nodes; their errors are ignored.
unfoldable pub send_all : List MemberNode → Text → List (Addr × Text)
send_all [] msg = []
send_all (n ∷ ns) msg = (node_addr n, msg) ∷ send_all ns msg

unfoldable pub relay : Env → Serf → ℕ → Text → Text → ℕ → Text → Option Error × Serf
relay env s num_relay msg dest_ip dest_port dest_id =
    if nat_eq num_relay 0
    then (none, s)
    else if ltb env.num_active (num_relay + 2)
    then (none, s)
    else elim (env.encode_relay (record { msg = msg; dest_ip = dest_ip; dest_port = dest_port })) [
      | none ↦ (some Error.encode_error, s)
      | some encoded ↦ (
        none,
        record s {
          sent =
              s.sent
              ++ send_all (pick_relay_nodes env.draw env.active_nodes s.id num_relay dest_id)
                  encoded;
        },
      )
    ]

-- `respondToQueryEvent` after the deadline check and the encoding.
unfoldable pub send_answer : Env → Serf → QueryEvent → Text → Option Error × Serf
unfolding relay
send_answer env s q msg =
    let addr = let a : Addr = record { ip = q.source_ip; port = q.source_port } in a in
    let s' = record s { sent = s.sent ++ ((addr, msg) ∷ []) } in
    if ltb s.query_response_size_limit (length msg)
    then (some Error.query_resp_limit_exceed, s)
    else if env.send_fails addr msg
    then (some Error.send_error, s')
    else relay env s' q.num_relays msg q.source_ip q.source_port q.node_id

unfoldable pub respond_to_query_event : Env → Serf → QueryEvent → Option Text → Option Error × Serf
unfolding send_answer
respond_to_query_event env s q output =
    if env.is_past q.deadline
    then (some Error.query_deadline_exceed, s)
    else elim (env.encode_response
        (record { ltime = q.ltime; id = q.id; from = s.id; payload = output })) [
          | none ↦ (some Error.encode_error, s)
          | some msg ↦ send_answer env s q msg
        ]
