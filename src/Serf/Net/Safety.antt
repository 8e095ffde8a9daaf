-- ===== src/Serf/Net/Safety.antt =====
-- Panics in the message handlers, and what a well-formed node is.
use cserf.Prelude.{
  if_both, ℕ, ◌+◌, ◌<◌, ◌≡◌, ◌≢◌, refl, Bool, true, false, Option, none, some, List, [], ◌∷◌, ◌++◌,
  Text, nat_eq, length, drop, arith, u64, Bool-cases, inl, inr, get, nat_key,
}
use cserf.Clock
use cserf.Clock.{lt-witness, le-witness}
use cserf.Buffer.{LItem}
use cserf.Buffer.History
use cserf.Buffer.Agree.{Refines}
use cserf.Buffer.Refine.{Adds, add_item-Adds}
use cserf.Buffer.Delivery.{advance_refines}
use cserf.Messages.{MsgAction, MsgQuery, QueryEvent}
use cserf.Managers.{QueryManager, add_query, query_item, invoke_response_handler}
use cserf.Managers.Handlers.{IsTimed}
use cserf.Managers.Responses.{Invokes, invoke_found-Invokes}
use cserf.Serf.{Serf, Env}
use cserf.Serf.Relay.{respond_to_query_event}
use cserf.Serf.Net.{
  handle_msg, handle_query, handle_query_response, handle_relay, handle_action, take_query,
  deliver_query, answer_query, witness_query, to_query_event, take_action, msg_query_type,
  msg_query_resp_type, msg_relay_type, msg_action_type,
}
use cserf.Serf.Net.Action.{take_action_lem, verdict}

-- Both buffers agree with a history, and the timers of the response handlers are in order.
pub record IsWell (s : Serf) : Type 0 where
  pub action_seen : List LItem
  pub action : Refines s.action.clock s.action.buffers action_seen
  pub query_seen : List LItem
  pub query : Refines s.query.clock s.query.buffers query_seen
  pub timed : IsTimed s.query

-- The Lamport times that the decoder may find in a message are not the last of the 64-bit ones.
pub record IsInRange (env : Env) (msg : Text) : Type 0 where
  pub action : (env.decode_action (drop 1 msg)).1.ltime + 1 < u64
  pub query : (env.decode_query (drop 1 msg)).1.ltime + 1 < u64

-- Answering a query touches neither manager.
respond_keeps :
    (env : Env) (s : Serf) (q : QueryEvent) (output : Option Text)
    → ((respond_to_query_event env s q output).1.action ≡ s.action)
      × ((respond_to_query_event env s q output).1.query ≡ s.query)
unfolding respond_to_query_event
respond_keeps env s q output = (ground arith, ground arith)

answer_keeps :
    (env : Env) (s : Serf) (q : MsgQuery)
    → ((answer_query env s q).action ≡ s.action) × ((answer_query env s q).query ≡ s.query)
unfolding answer_query
answer_keeps env s q =
    let k = respond_keeps env s (to_query_event env q) none in
    (ground (arith, k.0), ground (arith, k.1))

-- The result of a handler: it returns a well-formed node.
pub record Safe (o : Option Serf) : Type 0 where
  pub after : Serf
  pub returns : o ≡ some after
  pub well : IsWell after

-- Well-formedness speaks of the two managers alone.
IsWell-managers : (s s' : Serf) → s'.action ≡ s.action → s'.query ≡ s.query → IsWell s → IsWell s'
IsWell-managers s s' ea eq w = record {
  action_seen = w.action_seen;
  action = rw ea w.action;
  query_seen = w.query_seen;
  query = rw eq w.query;
  timed = rw eq w.timed;
}

module _ (env : Env) (s : Serf) (w : IsWell s) where
  pub take_action-Safe : (a : MsgAction) → a.ltime + 1 < u64 → Safe (take_action s a)
  take_action-Safe a small =
      let t = take_action_lem s w.action_seen a w.action small in
      record {
        after = t.after;
        returns = t.returns;
        well = record {
          action_seen = (verdict s w.action_seen a).1;
          action = t.refines;
          query_seen = w.query_seen;
          query = rw t.query w.query;
          timed = rw t.query w.timed;
        };
      }

  module _ (q : MsgQuery) (small : q.ltime + 1 < u64) where
    query-Adds :
        Adds (Clock.witness s.query.clock q.ltime) s.query.buffers w.query_seen (query_item q)
    query-Adds =
        add_item-Adds
          (advance_refines (Clock.witness s.query.clock q.ltime) w.query
            (le-witness s.query.clock q.ltime small))
          (query_item q) (lt-witness s.query.clock q.ltime small)

    -- The manager after the query was offered to its buffer.
    offered : QueryManager
    offered = record (witness_query s q.ltime).query { buffers = query-Adds.after }

    offered-IsWell : (s' : Serf) → s'.action ≡ s.action → s'.query ≡ offered → IsWell s'
    unfolding offered
    offered-IsWell s' ea eq = record {
      action_seen = w.action_seen;
      action = rw ea w.action;
      query_seen =
          (History.add_item (length s.query.buffers) w.query_seen
            (Clock.witness s.query.clock q.ltime) (query_item q)).1;
      query = rw eq query-Adds.refines;
      timed = rw eq (record {
        handled = w.timed.handled;
        open_chan = w.timed.open_chan;
        own_chan = w.timed.own_chan;
      });
    }

    add_query-offered :
        add_query (witness_query s q.ltime).query q
        ≡ some (
          (History.add_item
              (length s.query.buffers)
              w.query_seen
              (Clock.witness s.query.clock q.ltime)
              (query_item q)).0,
          offered,
        )
    unfolding add_query offered
    add_query-offered = ground (arith, query-Adds.returns)

    deliver_query-Safe :
        (b : Bool) → Safe (deliver_query env (witness_query s q.ltime) q (some (b, offered)))
    unfolding deliver_query
    deliver_query-Safe false = record {
      after = record s { query = offered };
      returns = refl;
      well = offered-IsWell (record s { query = offered }) refl refl;
    }
    deliver_query-Safe true = record {
      after = answer_query env told q;
      returns = refl;
      well =
          offered-IsWell (answer_query env told q) (answer_keeps env told q).0
            (answer_keeps env told q).1;
    }
      where
        told : Serf
        told = record s { query = offered; query_broadcasts = s.query_broadcasts ++ (q ∷ []) }

    take_query-Safe : Safe (take_query env s q)
    unfolding take_query
    take_query-Safe = rw add_query-offered (deliver_query-Safe _)

  handle_query-Safe :
      (msg : Text)
      → (env.decode_query (drop 1 msg)).1.ltime + 1 < u64
      → Safe (handle_query env s msg)
  unfolding handle_query
  handle_query-Safe msg small = elim (Bool-cases (env.decode_query (drop 1 msg)).0) [
    | inl done ↦ rw done (take_query-Safe (env.decode_query (drop 1 msg)).1 small)
    | inr failed ↦ rw failed (record { after = s; returns = refl; well = w })
  ]

  handle_query_response-Safe : (msg : Text) → Safe (handle_query_response env s msg)
  unfolding handle_query_response invoke_response_handler
  handle_query_response-Safe msg = elim (Bool-cases (env.decode_response (drop 1 msg)).0) [
    | inl done ↦ record {
      after = record s { query = i.after };
      returns = ground (arith, done, i.returns);
      well = record {
        action_seen = w.action_seen;
        action = w.action;
        query_seen = w.query_seen;
        query = rw (i.clock, i.buffers) w.query;
        timed = i.timed;
      };
    }
    | inr failed ↦ rw failed (record { after = s; returns = refl; well = w })
  ]
    where
      i :
          Invokes s.query w.timed
            (env.decode_response (drop 1 msg)).1
            env.response_taken
            (get s.query.handlers (env.decode_response (drop 1 msg)).1.ltime)
      i =
          invoke_found-Invokes s.query w.timed (env.decode_response (drop 1 msg)).1
            env.response_taken _ refl

  handle_relay-Safe : (msg : Text) → Safe (some (handle_relay env s msg))
  unfolding handle_relay
  handle_relay-Safe msg = record {
    after = handle_relay env s msg;
    returns = refl;
    well = IsWell-managers s (handle_relay env s msg) (ground arith) (ground arith) w;
  }

  handle_cons-Safe :
      (t : ℕ) (rest : Text) → IsInRange env (t ∷ rest) → Safe (handle_msg env s (t ∷ rest))
  unfolding handle_msg handle_action
  handle_cons-Safe t rest small =
      if_both Safe (nat_eq t msg_query_type) (handle_query-Safe (t ∷ rest) small.query) (
        if_both Safe (nat_eq t msg_query_resp_type) (handle_query_response-Safe (t ∷ rest)) (
          if_both Safe (nat_eq t msg_relay_type) (handle_relay-Safe (t ∷ rest)) (
            if_both Safe (nat_eq t msg_action_type)
              (take_action-Safe (env.decode_action rest).1 small.action)
              (record { after = s; returns = refl; well = w }))))

-- A well-formed node returns from `handleMsg` at every message that is not empty, whatever the message
-- holds and whatever the codec makes of it, and is well-formed then. The Lamport times in the message are
-- below the last 64-bit one.
pub handle_msg-Safe :
    (env : Env) (s : Serf) (msg : Text)
    → IsWell s
    → IsInRange env msg
    → msg ≢ []
    → Safe (handle_msg env s msg)
handle_msg-Safe env s [] w small ne = absurd (ne refl)
handle_msg-Safe env s (t ∷ rest) w small ne = handle_cons-Safe env s w t rest small
