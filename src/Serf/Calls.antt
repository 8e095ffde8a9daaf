-- ===== src/Serf/Calls.antt =====
-- The calls that start an action or a query: `(*Serf).Action` of action.go and `(*Serf).Query` of
-- query.go. A result `none` is a run-time panic.
pub mod Local
pub mod Oversize
pub mod Reach
mod Tests
use cserf.Prelude.{ℕ, Option, none, some, List, [], ◌∷◌, Text, nat_eq, ltb, length, if◌then◌else◌}
use cserf.Buffer.{slice_bytes}
use cserf.Messages.{MsgAction, MsgQuery, FilterTag}
use cserf.Managers.{set_response_handler}
use cserf.Serf.{Serf, Env, Addr, Error}
use cserf.Serf.Net.{handle_action, handle_query}

abbrev pub fail : Serf → Error → Option (Option Error × Serf)
fail s e = some (some e, s)

-- The local handler's run, after which the call returns no error.
abbrev pub returning : Option Serf → Option (Option Error × Serf)
returning none = none
returning (some s) = some (none, s)

abbrev pub new_action : Serf → Text → Option Text → MsgAction
new_action s name payload = record { ltime = s.action.clock; name = name; payload = payload }

unfoldable pub call_action : Env → Serf → Text → Option Text → Option (Option Error × Serf)
call_action env s name payload =
    if ltb s.action_size_limit (length (slice_bytes payload))
    then fail s Error.action_size_limit_exceed
    else elim (env.encode_action (new_action s name payload)) [
      | none ↦ fail s Error.encode_error
      | some encoded ↦
          if ltb s.action_size_limit (length encoded)
          then fail s Error.action_size_limit_exceed
          else returning (handle_action env s encoded)
    ]

pub record QueryParam : Type 0 where
  pub name : Text
  pub for_nodes : List Text
  pub filter_tags : List FilterTag
  pub timeout : ℕ
  pub num_relays : ℕ
  pub payload : Option Text

unfoldable pub default_query_params : Env → QueryParam
default_query_params env = record {
  name = [];
  for_nodes = [];
  filter_tags = [];
  timeout = env.default_query_timeout;
  num_relays = 0;
  payload = none;
}

-- A nil pointer stands for the default parameters, a zero timeout for the default one.
unfoldable pub fill_params : Env → Option QueryParam → QueryParam
unfolding default_query_params
fill_params env none = default_query_params env
fill_params env (some p) =
    if nat_eq p.timeout 0 then record p { timeout = env.default_query_timeout } else p

abbrev pub new_query : Env → Serf → Addr → QueryParam → MsgQuery
new_query env s addr p = record {
  name = p.name;
  ltime = s.query.clock;
  id = env.random_id;
  source_ip = addr.ip;
  source_port = addr.port;
  node_id = s.id;
  for_nodes = p.for_nodes;
  filter_tags = p.filter_tags;
  num_relays = p.num_relays;
  payload = p.payload;
  timeout = p.timeout;
}

-- From the registration of the response handler on: it is kept whatever happens next.
unfoldable pub send_query : Env → Serf → ℕ → MsgQuery → Option (Option Error × Serf)
send_query env s ch q =
    let s' = record s { query = set_response_handler s.query q.ltime q.id ch } in
    elim (env.encode_query q) [
      | none ↦ fail s' Error.encode_error
      | some msg ↦
          if ltb s.query_size_limit (length msg)
          then fail s' Error.query_size_limit_exceed
          else returning (handle_query env s' msg)
    ]

-- `ch` is the number of the caller's channel.
unfoldable pub call_query : Env → Serf → ℕ → Option QueryParam → Option (Option Error × Serf)
unfolding fill_params send_query
call_query env s ch params =
    let p = fill_params env params in
    if ltb s.query_size_limit (length (slice_bytes p.payload))
    then fail s Error.query_size_limit_exceed
    else elim env.advertise [
      | none ↦ fail s Error.no_address
      | some addr ↦ send_query env s ch (new_query env s addr p)
    ]
