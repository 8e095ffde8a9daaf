-- ===== src/Serf/Calls/Oversize.antt =====
-- Queries whose encoding is too large.
use cserf.Prelude.{
  ℕ, ◌+◌, ◌≤◌, ◌<◌, ◌≡◌, refl, Option, none, some, Text, length, arith, get, nat_key,
}
use cserf.Buffer.{slice_bytes}
use cserf.Managers.{set_response_handler}
use cserf.Managers.Handlers.{count, fire_twice, fire_again}
use cserf.Serf.{Serf, Env, Addr, Error}
use cserf.Serf.Calls.{call_query, send_query, fill_params, new_query, QueryParam}

-- The payload is within the limit, and the encoded query is not.
pub record IsOversize (env : Env) (s : Serf) (params : Option QueryParam) : Type 0 where
  pub addr : Addr
  pub has_addr : env.advertise ≡ some addr
  pub payload_fits : length (slice_bytes (fill_params env params).payload) ≤ s.query_size_limit
  pub msg : Text
  pub encodes : env.encode_query (new_query env s addr (fill_params env params)) ≡ some msg
  pub too_large : s.query_size_limit < length msg

-- The node after the call: the handler stays registered, and its timer runs.
unfoldable pub registered : Env → Serf → ℕ → Serf
registered env s ch = record s {
  query = set_response_handler s.query s.query.clock env.random_id ch;
}

refused :
    (env : Env) (s : Serf) (ch : ℕ) (params : Option QueryParam)
    → IsOversize env s params
    → call_query env s ch params ≡ some (some Error.query_size_limit_exceed, registered env s ch)
unfolding call_query send_query registered
refused env s ch params big =
    ground (arith, big.has_addr, big.payload_fits, big.encodes, big.too_large)

-- Two queries in a row, each too large once it is encoded, leave a node that panics: both calls return the
-- error, but each has registered its handler under the same time and started a timer, and the second of the
-- two timers to fire finds no handler.
pub call_query_oversize :
    (env env' : Env) (s : Serf) (ch ch' : ℕ) (params params' : Option QueryParam)
    → IsOversize env s params
    → IsOversize env' (registered env s ch) params'
    → (s1 : Serf) × (s2 : Serf) × (call_query env s ch params
        ≡ some (some Error.query_size_limit_exceed, s1))
      × (call_query env' s1 ch' params' ≡ some (some Error.query_size_limit_exceed, s2))
      × (count s.query.clock s2.query.timers ≡ count s.query.clock s.query.timers + 2)
      × (fire_twice s2.query s.query.clock ≡ none)
unfolding registered set_response_handler
call_query_oversize env env' s ch ch' params params' big big' = (
  registered env s ch,
  registered env' (registered env s ch) ch',
  refused env s ch params big,
  refused env' (registered env s ch) ch' params' big',
  ground arith,
  fire_again (registered env' (registered env s ch) ch').query s.query.clock
      (get (registered env' (registered env s ch) ch').query.handlers s.query.clock) refl,
)
