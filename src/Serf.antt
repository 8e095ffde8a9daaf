-- ===== src/Serf.antt =====
-- The state of a node that its message handlers share (`Serf` of serf.go), and what they take from
-- outside the repository.
pub mod Relay
pub mod Net
pub mod Calls
mod Tests
use cserf.Prelude.{ℕ, Bool, Option, none, some, List, Text, Dict, get, text_key}
use cserf.Managers.{ActionManager, QueryManager}
use cserf.Messages.{MsgAction, MsgQuery, MsgQueryResponse, MsgRelay, MemberNode, Event, FilterTag}

pub record Addr : Type 0 where
  pub ip : Text
  pub port : ℕ

-- The errors that the modelled functions return; what other packages report is one of the last three.
pub data Error : Type 0 where
  action_size_limit_exceed : Error
  query_size_limit_exceed : Error
  query_deadline_exceed : Error
  query_resp_limit_exceed : Error
  encode_error : Error
  send_error : Error
  no_address : Error

-- `events` is what has been sent to `inEventCh`, `sent` the user messages handed to the memberlist
-- (whether its send succeeds or not), and
-- the two queues what has been handed to the broadcast queues, oldest first.
pub record Serf : Type 0 where
  pub id : Text
  pub tags : Dict Text Text
  pub action_size_limit : ℕ
  pub query_size_limit : ℕ
  pub query_response_size_limit : ℕ
  pub action : ActionManager
  pub query : QueryManager
  pub events : List Event
  pub action_broadcasts : List MsgAction
  pub query_broadcasts : List MsgQuery
  pub sent : List (Addr × Text)

-- What one call takes from the codec, the clock of the machine, the random source, the memberlist and
-- the regular expressions. A decoder returns whether it succeeded and what it left in the variable. An
-- encoder's bytes begin with the type byte. `draw i` is the `i`-th value of `rand.Uint32`.
pub record Env : Type 0 where
  pub decode_action : Text → Bool × MsgAction
  pub decode_query : Text → Bool × MsgQuery
  pub decode_response : Text → Bool × MsgQueryResponse
  pub decode_relay : Text → Bool × MsgRelay
  pub encode_action : MsgAction → Option Text
  pub encode_query : MsgQuery → Option Text
  pub encode_response : MsgQueryResponse → Option Text
  pub encode_relay : MsgRelay → Option Text
  pub matches : Text → Text → Option Bool
  pub deadline : ℕ → ℕ
  pub is_past : ℕ → Bool
  pub response_taken : Bool
  pub random_id : ℕ
  pub draw : ℕ → ℕ
  pub send_fails : Addr → Text → Bool
  pub num_active : ℕ
  pub active_nodes : List MemberNode
  pub advertise : Option Addr
  pub default_query_timeout : ℕ

-- `m[k]` on a map of strings: a missing key gives the empty string.
abbrev pub or_empty : Option Text → Text
or_empty none = List.[]
or_empty (some v) = v

-- `getTag`
unfoldable pub get_tag : Serf → Text → Text
get_tag s name = or_empty (get s.tags name)
