-- ===== src/Managers/Responses.antt =====
-- Responses to queries, as their handlers take them.
use cserf.Prelude.{
  ℕ, ◌≡◌, ◌≢◌, All, Option-cases, get-remove, Bool-cases, inl, inr, refl, Bool, true, false, Option,
  none, some, List, [], ◌∷◌, ◌++◌, Text, get, put, nat_key, text_key, get-put, nat_eq,
  if◌then◌else◌, arith, text_eq_refl,
}
use cserf.Messages.{MsgQueryResponse, QueryResponse}
use cserf.Managers.Handlers.{IsTimed}
use cserf.Managers.{
  ResponseHandler, QueryManager, is_some, invoke_response_handler, invoke_found, send_response,
  fire, close_handler, set_response_handler,
}

-- A handler that ignores a response: there is none, it waits for another query, or it has had one
-- from this sender.
abbrev ignores : Option ResponseHandler → ℕ → Text → Bool
ignores none id from = true
ignores (some h) id from = if nat_eq h.id id then is_some (get h.received from) else true

ignored :
    (m : QueryManager) (o : Option ResponseHandler) (r : MsgQueryResponse) (taken : Bool)
    → ignores o r.id r.from ≡ true
    → invoke_found m o r taken ≡ some m
unfolding invoke_found
ignored m none r taken h = refl
ignored m (some k) r taken h = ground arith

-- After a response its handler ignores the next one of the same sender.
ignores-after :
    (m m' : QueryManager) (o : Option ResponseHandler) (r : MsgQueryResponse) (taken : Bool)
    → get m.handlers r.ltime ≡ o
    → invoke_found m o r taken ≡ some m'
    → ignores (get m'.handlers r.ltime) r.id r.from ≡ true
unfolding invoke_found
ignores-after m m' none r taken found e = ground arith
ignores-after m m' (some h) r taken found e = ground (
  arith,
  get-put m.handlers r.ltime r.ltime (record h { received = put h.received r.from tt }),
  get-put h.received r.from r.from tt,
  text_eq_refl r.from,
)

-- What happens at a query manager while responses come in: a response, a timer, or another query.
pub data Turn : Type 0 where
  answer : MsgQueryResponse → Bool → Turn
  timer : ℕ → Turn
  ask : ℕ → ℕ → ℕ → Turn

unfoldable pub take_turn : QueryManager → Turn → Option QueryManager
take_turn m (answer r taken) = invoke_response_handler m r taken
take_turn m (timer ltime) = fire m ltime
take_turn m (ask ltime id ch) = some (set_response_handler m ltime id ch)

unfoldable pub take_turns : QueryManager → List Turn → Option QueryManager
unfolding take_turn
take_turns m [] = some m
take_turns m (x ∷ xs) = elim (take_turn m x) [ none ↦ none | some m' ↦ take_turns m' xs ]

-- The turn does not ask the query with this time and id once more.
abbrev pub IsOther : ℕ → ℕ → Turn → Type 0
IsOther ltime id (ask t i ch) = (t ≡ ltime) → i ≢ id
IsOther ltime id _ = Unit

found-ignores :
    (m m' : QueryManager) (o : Option ResponseHandler) (r : MsgQueryResponse) (taken : Bool)
    (ltime id : ℕ) (from : Text)
    → get m.handlers r.ltime ≡ o
    → ignores (get m.handlers ltime) id from ≡ true
    → invoke_found m o r taken ≡ some m'
    → ignores (get m'.handlers ltime) id from ≡ true
unfolding invoke_found send_response
found-ignores m m' none r taken ltime id from found h e = ground arith
found-ignores m m' (some k) r taken ltime id from found h e = ground (
  arith,
  get-put m.handlers r.ltime ltime (record k { received = put k.received r.from tt }),
  get-put k.received r.from from tt,
)

turn-ignores :
    (m m' : QueryManager) (x : Turn) (ltime id : ℕ) (from : Text)
    → IsOther ltime id x
    → ignores (get m.handlers ltime) id from ≡ true
    → take_turn m x ≡ some m'
    → ignores (get m'.handlers ltime) id from ≡ true
unfolding take_turn invoke_response_handler fire close_handler set_response_handler
turn-ignores m m' (answer r taken) ltime id from _ h e =
    found-ignores m m' (get m.handlers r.ltime) r taken ltime id from refl h e
turn-ignores m m' (timer t) ltime id from _ h e = ground (arith, get-remove m.handlers t ltime)
turn-ignores m m' (ask t i ch) ltime id from other h e =
    ground (arith, get-put m.handlers t ltime (record { id = i; chan = ch; received = [] }), other)

turns-ignores :
    (m m' : QueryManager) (xs : List Turn) (ltime id : ℕ) (from : Text)
    → All (IsOther ltime id) xs
    → ignores (get m.handlers ltime) id from ≡ true
    → take_turns m xs ≡ some m'
    → ignores (get m'.handlers ltime) id from ≡ true
unfolding take_turns
turns-ignores m m' [] ltime id from others h e = ground arith
turns-ignores m m' (x ∷ xs) ltime id from others h e = elim (Option-cases (take_turn m x)) [
  | inl panic ↦ absurd (ground (arith, panic))
  | inr (k, one) ↦
      turns-ignores k m' xs ltime id from others.1 (turn-ignores m k x ltime id from others.0 h one)
        (ground (arith, one))
]

-- A response is passed on at most once per sender and query: after a response that did not panic, and whatever
-- responses of any senders, timers and other queries come then, another response of the same sender to the same
-- query changes nothing, whatever its payload, and whether the first was taken or given up. The condition is that
-- no later query has both the same time and the same id.
pub invoke_once :
    (m m' m'' : QueryManager) (r : MsgQueryResponse) (xs : List Turn) (payload' : Option Text)
    (taken taken' : Bool)
    → invoke_response_handler m r taken ≡ some m'
    → All (IsOther r.ltime r.id) xs
    → take_turns m' xs ≡ some m''
    → invoke_response_handler m'' (record r { payload = payload' }) taken' ≡ some m''
unfolding invoke_response_handler
invoke_once m m' m'' r xs payload' taken taken' e others later =
    ignored m'' (get m''.handlers r.ltime) (record r { payload = payload' }) taken'
      (turns-ignores m' m'' xs r.ltime r.id r.from others
        (ignores-after m m' (get m.handlers r.ltime) r taken refl e) later)

-- A response neither closes a channel nor forgets a handler: it does not panic, and keeps the timers
-- in order.
module _ (m : QueryManager) (v : IsTimed m) (r : MsgQueryResponse) (taken : Bool) where
  abbrev marking : ResponseHandler → ResponseHandler
  marking h = record h { received = put h.received r.from tt }

  mark-IsTimed :
      (h : ResponseHandler)
      → get m.handlers r.ltime ≡ some h
      → IsTimed (record m { handlers = put m.handlers r.ltime (marking h) })
  mark-IsTimed h e = record {
    handled = λ u. ground (arith, get-put m.handlers r.ltime u (marking h), v.handled u);
    open_chan = λ u k ek.
        ground (
          arith,
          get-put m.handlers r.ltime u (marking h),
          v.open_chan u k,
          v.open_chan r.ltime h e,
        );
    own_chan = λ u w k l ek el same. ground (
      arith,
      get-put m.handlers r.ltime u (marking h),
      get-put m.handlers r.ltime w (marking h),
      v.own_chan u w k l,
      v.own_chan r.ltime w h l e,
      v.own_chan u r.ltime k h,
    );
  }

  delivered-IsTimed :
      {m' : QueryManager} (ds : List (ℕ × QueryResponse))
      → IsTimed m'
      → IsTimed (record m' { delivered = ds })
  delivered-IsTimed ds t = record {
    handled = t.handled;
    open_chan = t.open_chan;
    own_chan = t.own_chan;
  }

  marked : ResponseHandler → Bool → QueryManager
  marked h true = record m {
    handlers = put m.handlers r.ltime (marking h);
    delivered = m.delivered ++ ((h.chan, record { from = r.from; payload = r.payload }) ∷ []);
  }
  marked h false = record m { handlers = put m.handlers r.ltime (marking h) }

  marked-IsTimed :
      (h : ResponseHandler) (b : Bool)
      → get m.handlers r.ltime ≡ some h
      → IsTimed (marked h b) × ((marked h b).clock ≡ m.clock) × ((marked h b).buffers ≡ m.buffers)
  unfolding marked
  marked-IsTimed h true e = (delivered-IsTimed _ (mark-IsTimed h e), refl, refl)
  marked-IsTimed h false e = (mark-IsTimed h e, refl, refl)

  invoke_found-marked :
      (h : ResponseHandler)
      → get m.handlers r.ltime ≡ some h
      → ignores (some h) r.id r.from ≡ false
      → invoke_found m (some h) r taken ≡ some (marked h taken)
  unfolding invoke_found marked
  invoke_found-marked h e new = ground (arith, v.open_chan r.ltime h e)

  -- What the node's query manager is after a response.
  pub record Invokes (o : Option ResponseHandler) : Type 0 where
    pub after : QueryManager
    pub returns : invoke_found m o r taken ≡ some after
    pub timed : IsTimed after
    pub clock : after.clock ≡ m.clock
    pub buffers : after.buffers ≡ m.buffers

  ignored-Invokes : (o : Option ResponseHandler) → ignores o r.id r.from ≡ true → Invokes o
  ignored-Invokes o old = record {
    after = m;
    returns = ignored m o r taken old;
    timed = v;
    clock = refl;
    buffers = refl;
  }

  pub invoke_found-Invokes : (o : Option ResponseHandler) → get m.handlers r.ltime ≡ o → Invokes o
  invoke_found-Invokes none e = ignored-Invokes none refl
  invoke_found-Invokes (some h) e = elim (Bool-cases (ignores (some h) r.id r.from)) [
    | inl old ↦ ignored-Invokes (some h) old
    | inr new ↦ record {
      after = marked h taken;
      returns = invoke_found-marked h e new;
      timed = (marked-IsTimed h taken e).0;
      clock = (marked-IsTimed h taken e).1;
      buffers = (marked-IsTimed h taken e).2;
    }
  ]
