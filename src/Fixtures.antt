-- ===== src/Fixtures.antt =====
-- A node and an environment for tests: simple functions stand in for the codec and the memberlist.
use cserf.Prelude.{
  ℕ, Bool, true, false, Option, none, some, [], ◌∷◌, bytes, Text, replicate, nat_eq, if◌then◌else◌,
}
use cserf.Buffer.{slice_bytes}
use cserf.Messages.{MsgAction, MsgQuery}
use cserf.Managers.{new_query_manager}
use cserf.Serf.{Serf, Env}

-- A codec for actions without a name: a time, and a byte that tells nil from a payload.
abbrev pub encode : MsgAction → Option Text
encode a = elim a.name [
  | [] ↦ elim a.payload [ none ↦ some (3 ∷ a.ltime ∷ 0 ∷ []) | some p ↦ some (3 ∷ a.ltime ∷ 1 ∷ p) ]
  | _ ↦ none
]

abbrev pub unnamed : ℕ → Option Text → MsgAction
unnamed t payload = record { ltime = t; name = []; payload = payload }

abbrev pub decode : Text → Bool × MsgAction
decode [] = (false, unnamed 0 none)
decode (t ∷ []) = (false, unnamed t none)
decode (t ∷ k ∷ p) = (true, unnamed t (if nat_eq k 0 then none else some p))

abbrev pub query : MsgQuery
query = record {
  name = [];
  ltime = 3;
  id = 9;
  source_ip = [];
  source_port = 0;
  node_id = [];
  for_nodes = [];
  filter_tags = [];
  num_relays = 0;
  payload = none;
  timeout = 5;
}

abbrev pub env : Env
env = record {
  decode_action = decode;
  decode_query = λ m. (true, query);
  decode_response = λ m. (true, record { ltime = 3; id = 9; from = []; payload = none });
  decode_relay = λ m. (true, record { msg = m; dest_ip = []; dest_port = 1 });
  encode_action = encode;
  encode_query = λ q. some (0 ∷ []);
  encode_response = λ r. some (1 ∷ slice_bytes r.payload);
  encode_relay = λ r. some (2 ∷ r.msg);
  matches = λ e v. some true;
  deadline = λ t. t;
  is_past = λ t. false;
  response_taken = true;
  random_id = 4;
  draw = λ i. i;
  send_fails = λ a m. false;
  num_active = 3;
  active_nodes = [];
  advertise = none;
  default_query_timeout = 60;
}

abbrev pub serf : Serf
serf = record {
  id = bytes "a";
  tags = [];
  action_size_limit = 100;
  query_size_limit = 100;
  query_response_size_limit = 100;
  action = record { action_min_time = 0; clock = 1; buffers = replicate 4 none };
  query = new_query_manager 4;
  events = [];
  action_broadcasts = [];
  query_broadcasts = [];
  sent = [];
}
