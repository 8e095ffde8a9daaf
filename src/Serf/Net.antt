-- ===== src/Serf/Net.antt =====
-- net_handlers.go: what a node does with a message from the network.
-- A result `none` is a run-time panic.
pub mod Action
pub mod Accept
pub mod Safety
use cserf.Prelude.{
  ℕ, Bool, true, false, Option, none, some, List, [], ◌∷◌, ◌++◌, Text, bytes, text_eq, nat_eq, ltb,
  length, drop, if◌then◌else◌,
}
use cserf.Clock
use cserf.Messages.{
  MsgAction, MsgQuery, FilterTag, ActionEvent, QueryEvent, Event, on_action, on_query,
}
use cserf.Managers.{ActionManager, QueryManager, add_action, add_query, invoke_response_handler}
use cserf.Serf.{Serf, Env, Addr, Error, get_tag}
use cserf.Serf.Relay.{respond_to_query_event}

-- `msgType`, the first byte of a message.
abbrev pub msg_query_type : ℕ
msg_query_type = 0

abbrev pub msg_query_resp_type : ℕ
msg_query_resp_type = 1

abbrev pub msg_relay_type : ℕ
msg_relay_type = 2

abbrev pub msg_action_type : ℕ
msg_action_type = 3

-- The loop over `ForNodes`.
unfoldable pub is_listed : Text → List Text → Bool
is_listed id [] = false
is_listed id (n ∷ ns) = if text_eq n id then true else is_listed id ns

abbrev pub is_match : Option Bool → Bool
is_match none = false
is_match (some b) = b

-- The loop over `FilterTags`: an expression that is no regular expression matches nothing.
unfoldable pub tags_match : Env → Serf → List FilterTag → Bool
tags_match env s [] = true
tags_match env s (f ∷ fs) =
    if is_match (env.matches f.expr (get_tag s f.name)) then tags_match env s fs else false

abbrev pub is_empty {ℓ} : {A : Type ℓ} → List A → Bool
is_empty [] = true
is_empty (x ∷ xs) = false

unfoldable pub is_query_accepted : Env → Serf → MsgQuery → Bool
unfolding is_listed tags_match
is_query_accepted env s q =
    if is_empty q.for_nodes then tags_match env s q.filter_tags else is_listed s.id q.for_nodes

abbrev pub to_action_event : MsgAction → Event
to_action_event a = on_action (record { ltime = a.ltime; name = a.name; payload = a.payload })

abbrev pub to_query_event : Env → MsgQuery → QueryEvent
to_query_event env q = record {
  name = q.name;
  ltime = q.ltime;
  id = q.id;
  source_ip = q.source_ip;
  source_port = q.source_port;
  node_id = q.node_id;
  num_relays = q.num_relays;
  payload = q.payload;
  deadline = env.deadline q.timeout;
}

abbrev pub reach_query_name : Text
reach_query_name = bytes "reach"

abbrev pub witness_action : Serf → ℕ → Serf
witness_action s t = record s {
  action = record s.action { clock = Clock.witness s.action.clock t };
}

abbrev pub witness_query : Serf → ℕ → Serf
witness_query s t = record s { query = record s.query { clock = Clock.witness s.query.clock t } }

-- The end of `handleAction`, for what `addToBuffer` returned.
unfoldable pub deliver_action : Serf → MsgAction → Option (Bool × ActionManager) → Option Serf
deliver_action s a none = none
deliver_action s a (some (false, m)) = some (record s { action = m })
deliver_action s a (some (true, m)) = some (record s {
  action = m;
  action_broadcasts = s.action_broadcasts ++ (a ∷ []);
  events = s.events ++ (to_action_event a ∷ []);
})

-- `handleAction` at a decoded message; a failure to decode is only logged.
unfoldable pub take_action : Serf → MsgAction → Option Serf
unfolding deliver_action
take_action s a =
    let s' = witness_action s a.ltime in
    if ltb a.ltime s.action.action_min_time
    then some s'
    else deliver_action s' a (add_action s'.action a)

unfoldable pub handle_action : Env → Serf → Text → Option Serf
handle_action env s msg = take_action s (env.decode_action (drop 1 msg)).1

-- The end of `handleQuery`, for a query that was not seen before and is broadcast.
unfoldable pub answer_query : Env → Serf → MsgQuery → Serf
answer_query env s q =
    if is_query_accepted env s q
    then (if text_eq q.name reach_query_name
        then (respond_to_query_event env s (to_query_event env q) none).1
        else record s { events = s.events ++ (on_query (to_query_event env q) ∷ []) })
    else s

unfoldable pub deliver_query : Env → Serf → MsgQuery → Option (Bool × QueryManager) → Option Serf
unfolding answer_query
deliver_query env s q none = none
deliver_query env s q (some (false, m)) = some (record s { query = m })
deliver_query env s q (some (true, m)) =
    some (
      answer_query env (record s { query = m; query_broadcasts = s.query_broadcasts ++ (q ∷ []) })
        q)

unfoldable pub take_query : Env → Serf → MsgQuery → Option Serf
unfolding deliver_query
take_query env s q =
    let s' = witness_query s q.ltime in deliver_query env s' q (add_query s'.query q)

-- `handleQuery`: a message that cannot be decoded is dropped.
unfoldable pub handle_query : Env → Serf → Text → Option Serf
handle_query env s msg =
    let (ok, q) = env.decode_query (drop 1 msg) in if ok then take_query env s q else some s

unfoldable pub handle_query_response : Env → Serf → Text → Option Serf
handle_query_response env s msg =
    let (ok, r) = env.decode_response (drop 1 msg) in
    if ok
    then (elim (invoke_response_handler s.query r env.response_taken) [
      | none ↦ none
      | some m ↦ some (record s { query = m })
    ])
    else some s

-- `handleRelay`: a failure to decode is only logged, and so is one to send.
unfoldable pub handle_relay : Env → Serf → Text → Serf
handle_relay env s msg =
    let r = (env.decode_relay (drop 1 msg)).1 in
    let addr = let a : Addr = record { ip = r.dest_ip; port = r.dest_port } in a in
    record s { sent = s.sent ++ ((addr, r.msg) ∷ []) }

-- `handleMsg`: an empty message is logged, and then its first byte is read all the same.
unfoldable pub handle_msg : Env → Serf → Text → Option Serf
handle_msg env s [] = none
handle_msg env s (t ∷ rest) =
    if nat_eq t msg_query_type
    then handle_query env s (t ∷ rest)
    else if nat_eq t msg_query_resp_type
    then handle_query_response env s (t ∷ rest)
    else if nat_eq t msg_relay_type
    then some (handle_relay env s (t ∷ rest))
    else if nat_eq t msg_action_type
    then handle_action env s (t ∷ rest)
    else some s
