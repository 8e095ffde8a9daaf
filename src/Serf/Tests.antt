-- ===== src/Serf/Tests.antt =====
-- A node on small runs. The environment stands in for the codec and the memberlist by simple functions.
use cserf.Prelude.{
  ℕ, ◌+◌, ◌≡◌, ◌≢◌, ◌↔◌, ◌⊎◌, refl, arith, Bool, true, false, none, some, List, [], ◌∷◌, ◌++◌, All,
  replicate, bytes, Text,
}
use cserf.Buffer.Agree.{new_refines, Refines}
use cserf.Messages.{MsgAction, MsgQuery, MemberNode}
use cserf.Managers.{ActionManager, new_query_manager}
use cserf.Managers.Handlers.{new_query_manager-IsTimed}
use cserf.Serf.{Serf, Env}
use cserf.Serf.Net.{handle_msg, to_action_event, is_query_accepted}
use cserf.Serf.Net.Action.{Takes, take_action_lem}
use cserf.Serf.Net.Accept.{IsIn, Passes, is_query_accepted_iff}
use cserf.Serf.Net.Safety.{IsWell, IsInRange, Safe, handle_msg-Safe}
use cserf.Serf.Calls.{call_action, new_action}
use cserf.Serf.Calls.Local.{IsSendable, call_action_lem}
use cserf.Serf.Relay.{pick_relay_nodes}
use cserf.Serf.Relay.Picks.{IsPick, pick_relay_nodes-IsPick}

abbrev action : ℕ → MsgAction
action t = record { ltime = t; name = bytes "deploy"; payload = none }

abbrev query : MsgQuery
query = record {
  name = bytes "load";
  ltime = 3;
  id = 9;
  source_ip = [];
  source_port = 0;
  node_id = bytes "b";
  for_nodes = bytes "a" ∷ [];
  filter_tags = [];
  num_relays = 0;
  payload = none;
  timeout = 5;
}

-- The second byte of an action's message is its time.
abbrev decode : Text → Bool × MsgAction
decode [] = (false, action 0)
decode (t ∷ rest) = (true, action t)

abbrev env : Env
env = record {
  decode_action = decode;
  decode_query = λ m. (true, query);
  decode_response = λ m. (true, record { ltime = 3; id = 9; from = bytes "c"; payload = none });
  decode_relay = λ m. (true, record { msg = m; dest_ip = []; dest_port = 1 });
  encode_action = λ a. some (3 ∷ a.ltime ∷ []);
  encode_query = λ q. some (0 ∷ []);
  encode_response = λ r. some (1 ∷ []);
  encode_relay = λ r. some (2 ∷ r.msg);
  matches = λ e v. some true;
  deadline = λ t. t;
  is_past = λ t. false;
  response_taken = true;
  random_id = 4;
  draw = λ i. i;
  send_fails = λ a m. false;
  num_active = 3;
  active_nodes = [];
  advertise = none;
  default_query_timeout = 60;
}

abbrev actions : ℕ → ActionManager
actions min = record { action_min_time = min; clock = 1; buffers = replicate 4 none }

abbrev serf : ℕ → Serf
serf min = record {
  id = bytes "a";
  tags = [];
  action_size_limit = 100;
  query_size_limit = 100;
  query_response_size_limit = 100;
  action = actions min;
  query = new_query_manager 4;
  events = [];
  action_broadcasts = [];
  query_broadcasts = [];
  sent = [];
}

actions_refines : Refines 1 (replicate 4 none) []
actions_refines = new_refines 1 4 (omega arith)

queries_refines : Refines (new_query_manager 4).clock (new_query_manager 4).buffers []
unfolding new_query_manager
queries_refines = new_refines 1 4 (omega arith)

serf-IsWell : (min : ℕ) → IsWell (serf min)
serf-IsWell min = record {
  action_seen = [];
  action = actions_refines;
  query_seen = [];
  query = queries_refines;
  timed = new_query_manager-IsTimed 4;
}

message-IsInRange : IsInRange env (3 ∷ 8 ∷ [])
message-IsInRange = record { action = omega arith; query = omega arith }

handle_msg-Safe_example : Safe (handle_msg env (serf 0) (3 ∷ 8 ∷ []))
handle_msg-Safe_example =
    handle_msg-Safe env (serf 0) (3 ∷ 8 ∷ []) (serf-IsWell 0) message-IsInRange (λ e. cc)

take_action_lem_example : Takes (serf 0) [] (action 8)
take_action_lem_example = take_action_lem (serf 0) [] (action 8) actions_refines (omega arith)

sendable : (min : ℕ) → IsSendable env (serf min) (bytes "deploy") none
sendable min = record {
  encoded = 3 ∷ 1 ∷ [];
  encodes = refl;
  decodes = refl;
  payload_fits = omega arith;
  encoded_fits = omega arith;
}

call_action_lem_example :
    (s : Serf) × (call_action env (serf 0) (bytes "deploy") none ≡ some (none, s))
    × (s.events ≡ [] ++ (to_action_event (new_action (serf 0) (bytes "deploy") none) ∷ []))
    × (s.action_broadcasts ≡ [] ++ (new_action (serf 0) (bytes "deploy") none ∷ []))
    × (s.action.clock ≡ 1 + 1)
call_action_lem_example =
    call_action_lem env (serf 0) [] (bytes "deploy") none actions_refines (omega arith) (sendable 0)
      (omega arith)

is_query_accepted_iff_example : (is_query_accepted env (serf 0) query ≡ true) ↔ (
    ((query.for_nodes ≢ []) × IsIn (bytes "a") query.for_nodes)
    ⊎ ((query.for_nodes ≡ []) × All (Passes env (serf 0)) query.filter_tags))
is_query_accepted_iff_example = is_query_accepted_iff env (serf 0) query

abbrev node : Text → MemberNode
node id = record { id = id; ip = []; port = 0; tags = [] }

abbrev nodes : List MemberNode
nodes = node (bytes "a") ∷ node (bytes "b") ∷ node (bytes "c") ∷ node (bytes "d") ∷ []

pick_relay_nodes-IsPick_example :
    IsPick nodes
      (bytes "a")
      (bytes "b")
      2
      (pick_relay_nodes (λ i. i) nodes (bytes "a") 2 (bytes "b"))
pick_relay_nodes-IsPick_example = pick_relay_nodes-IsPick (λ i. i) nodes (bytes "a") 2 (bytes "b")
