-- ===== src/Managers.antt =====
-- `ActionManager` of action.go and `QueryManager` of query.go: a clock, a buffer, and for queries the
-- handlers of the responses with the timers that close them.
-- A result `none` is a run-time panic. The channels are numbered; those closed are listed.
pub mod Handlers
pub mod Responses
mod Tests
use cserf.Prelude.{
  ℕ, Bool, true, false, Option, none, some, List, [], ◌∷◌, ◌++◌, Text, Dict, get, put, remove,
  nat_key, text_key, nat_eq, replicate, if◌then◌else◌,
}
use cserf.Buffer.{LItem, LGroupItem, LBuffer, add_item}
use cserf.Messages.{MsgAction, MsgQuery, MsgQueryResponse, QueryResponse}

pub record ActionManager : Type 0 where
  pub action_min_time : ℕ
  pub clock : ℕ
  pub buffers : LBuffer

unfoldable pub new_action_manager : ℕ → ActionManager
new_action_manager size = record { action_min_time = 0; clock = 1; buffers = replicate size none }

abbrev pub action_item : MsgAction → LItem
action_item msg = record { ltime = msg.ltime; id = 0; payload = msg.payload }

unfoldable pub add_action : ActionManager → MsgAction → Option (Bool × ActionManager)
add_action m msg = elim (add_item m.buffers m.clock (action_item msg)) [
  | none ↦ none
  | some (r, b) ↦ some (r, record m { buffers = b })
]

unfoldable pub set_action_min_time : ActionManager → ℕ → ActionManager
set_action_min_time m t = record m { action_min_time = t }

-- `QueryResponseHandler`; `received` is a set.
pub record ResponseHandler : Type 0 where
  pub id : ℕ
  pub chan : ℕ
  pub received : Dict Text (Unit {0})

-- `timers` are the times whose `time.AfterFunc` has not fired yet; `closed` and `delivered` are what
-- has happened to the response channels.
pub record QueryManager : Type 0 where
  pub clock : ℕ
  pub buffers : LBuffer
  pub handlers : Dict ℕ ResponseHandler
  pub timers : List ℕ
  pub closed : List ℕ
  pub delivered : List (ℕ × QueryResponse)

unfoldable pub new_query_manager : ℕ → QueryManager
new_query_manager size = record {
  clock = 1;
  buffers = replicate size none;
  handlers = [];
  timers = [];
  closed = [];
  delivered = [];
}

abbrev pub query_item : MsgQuery → LItem
query_item msg = record { ltime = msg.ltime; id = msg.id; payload = none }

unfoldable pub add_query : QueryManager → MsgQuery → Option (Bool × QueryManager)
add_query m msg = elim (add_item m.buffers m.clock (query_item msg)) [
  | none ↦ none
  | some (r, b) ↦ some (r, record m { buffers = b })
]

-- `setResponseHandler`: the timer is started first.
unfoldable pub set_response_handler : QueryManager → ℕ → ℕ → ℕ → QueryManager
set_response_handler m ltime id ch = record m {
  timers = ltime ∷ m.timers;
  handlers = put m.handlers ltime (record { id = id; chan = ch; received = [] });
}

abbrev pub mem_ℕ : ℕ → List ℕ → Bool
mem_ℕ x [] = false
mem_ℕ x (y ∷ ys) = if nat_eq y x then true else mem_ℕ x ys

-- One timer fewer for this time.
unfoldable pub drop_timer : ℕ → List ℕ → List ℕ
drop_timer t [] = []
drop_timer t (x ∷ xs) = if nat_eq x t then xs else x ∷ drop_timer t xs

-- The body of `time.AfterFunc`: a missing handler is a nil pointer, and a channel that is closed
-- already cannot be closed again.
unfoldable pub close_handler : QueryManager → ℕ → Option ResponseHandler → Option QueryManager
close_handler m ltime none = none
close_handler m ltime (some h) =
    if mem_ℕ h.chan m.closed
    then none
    else some (record m {
      closed = h.chan ∷ m.closed;
      handlers = remove m.handlers ltime;
      timers = drop_timer ltime m.timers;
    })

unfoldable pub fire : QueryManager → ℕ → Option QueryManager
unfolding close_handler
fire m ltime = close_handler m ltime (get m.handlers ltime)

-- The send of `invokeResponseHandler`: it panics on a closed channel, and is given up when nobody
-- receives within 5 ms (`taken` is false).
unfoldable pub send_response :
    QueryManager → ResponseHandler → MsgQueryResponse → Bool → Option QueryManager
send_response m h r taken =
    let marked = record m {
      handlers = put m.handlers r.ltime (record h { received = put h.received r.from tt });
    } in
    if mem_ℕ h.chan m.closed
    then none
    else if taken
    then some (record marked {
      delivered = m.delivered ++ ((h.chan, record { from = r.from; payload = r.payload }) ∷ []);
    })
    else some marked

abbrev pub is_some {ℓ} : {A : Type ℓ} → Option A → Bool
is_some none = false
is_some (some a) = true

unfoldable pub invoke_found :
    QueryManager → Option ResponseHandler → MsgQueryResponse → Bool → Option QueryManager
unfolding send_response
invoke_found m none r taken = some m
invoke_found m (some h) r taken =
    if nat_eq h.id r.id
    then (if is_some (get h.received r.from) then some m else send_response m h r taken)
    else some m

unfoldable pub invoke_response_handler :
    QueryManager → MsgQueryResponse → Bool → Option QueryManager
unfolding invoke_found
invoke_response_handler m r taken = invoke_found m (get m.handlers r.ltime) r taken
