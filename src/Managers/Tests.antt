-- ===== src/Managers/Tests.antt =====
-- The response handlers on small runs.
use cserf.Prelude.{
  ℕ, ◌+◌, ◌≡◌, ◌≢◌, refl, arith, true, false, none, some, [], ◌∷◌, length, List, get, put, remove,
  nat_key, text_key, bytes,
}
use cserf.Messages.{MsgQueryResponse}
use cserf.Managers.{
  ResponseHandler, QueryManager, new_query_manager, set_response_handler, fire,
  invoke_response_handler, invoke_found, send_response, close_handler, drop_timer,
}
use cserf.Managers.Handlers.{
  IsTimed, fire_lem, set_response_handler-IsTimed, new_query_manager-IsTimed,
}
use cserf.Managers.Responses.{Turn, answer, timer, ask, take_turn, take_turns, invoke_once}

abbrev idle : QueryManager
idle = record { clock = 1; buffers = []; handlers = []; timers = []; closed = []; delivered = [] }

idle-IsTimed : IsTimed idle
unfolding new_query_manager
idle-IsTimed = new_query_manager-IsTimed 0

abbrev waiting : QueryManager
waiting = set_response_handler idle 4 7 1

no_channel : (ch u : ℕ) (h : ResponseHandler) → get idle.handlers u ≡ some h → h.chan ≢ ch
unfolding get
no_channel ch u h e p = ground arith

waiting-IsTimed : IsTimed waiting
unfolding get
waiting-IsTimed = set_response_handler-IsTimed idle 4 7 1 idle-IsTimed refl refl (no_channel 1)

fire_lem_example :
    (m : QueryManager) × (fire waiting 4 ≡ some m)
    × IsTimed m
    × (get m.handlers 4 ≡ none)
    × (length m.closed ≡ 0 + 1)
unfolding set_response_handler
fire_lem_example = fire_lem waiting 4 waiting-IsTimed (omega arith)

abbrev response : MsgQueryResponse
response = record { ltime = 4; id = 7; from = bytes "b"; payload = none }

abbrev after_response : QueryManager
after_response = record waiting {
  handlers = (4, record { id = 7; chan = 1; received = (bytes "b", tt) ∷ [] }) ∷ [];
  delivered = (1, record { from = bytes "b"; payload = none }) ∷ [];
}

response_taken : invoke_response_handler waiting response true ≡ some after_response
unfolding invoke_response_handler invoke_found send_response set_response_handler get put
response_taken = refl

-- A response of another sender to the same query, and a second query with its timer.
abbrev between : List Turn
between =
    answer (record { ltime = 4; id = 7; from = bytes "c"; payload = none }) true
    ∷ ask 5 8 2
    ∷ timer 5
    ∷ []

abbrev after_both : QueryManager
after_both = record after_response {
  handlers =
      (4, record { id = 7; chan = 1; received = (bytes "b", tt) ∷ (bytes "c", tt) ∷ [] }) ∷ [];
  closed = 2 ∷ [];
  delivered =
      (1, record { from = bytes "b"; payload = none })
      ∷ (1, record { from = bytes "c"; payload = none })
      ∷ [];
}

between_taken : take_turns after_response between ≡ some after_both
unfolding take_turns take_turn invoke_response_handler invoke_found send_response fire close_handler
    set_response_handler drop_timer get put remove
between_taken = refl

invoke_once_example :
    invoke_response_handler after_both (record response { payload = some (bytes "x") }) false
    ≡ some after_both
invoke_once_example =
    invoke_once waiting after_response after_both response between (some (bytes "x")) true false
      response_taken (tt, ((λ e. omega (arith, e)), (tt, tt))) between_taken
