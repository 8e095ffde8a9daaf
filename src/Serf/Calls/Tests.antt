-- ===== src/Serf/Calls/Tests.antt =====
-- Two queries that are too large.
use cserf.Prelude.{◌+◌, ◌≡◌, refl, none, some, [], arith, replicate}
use cserf.Serf.{Serf, Env, Error}
use cserf.Serf.Calls.{call_query, fill_params, default_query_params}
use cserf.Serf.Calls.Oversize.{IsOversize, registered, call_query_oversize}
use cserf.Managers.Handlers.{count, fire_twice}
use cserf.Fixtures

-- The encoded query has 101 bytes.
abbrev env : Env
env = record Fixtures.env {
  advertise = some (record { ip = []; port = 1 });
  encode_query = λ q. some (replicate 101 0);
}

abbrev serf : Serf
serf = Fixtures.serf

oversize : (s : Serf) → s.query_size_limit ≡ 100 → IsOversize env s none
unfolding fill_params default_query_params
oversize s limit = record {
  addr = record { ip = []; port = 1 };
  has_addr = refl;
  payload_fits = omega arith;
  msg = replicate 101 0;
  encodes = refl;
  too_large = omega (arith, limit);
}

same_limit : (registered env serf 1).query_size_limit ≡ 100
unfolding registered
same_limit = refl

call_query_oversize_example :
    (s1 : Serf) × (s2 : Serf) × (call_query env serf 1 none
      ≡ some (some Error.query_size_limit_exceed, s1))
    × (call_query env s1 2 none ≡ some (some Error.query_size_limit_exceed, s2))
    × (count serf.query.clock s2.query.timers ≡ count serf.query.clock serf.query.timers + 2)
    × (fire_twice s2.query serf.query.clock ≡ none)
call_query_oversize_example =
    call_query_oversize env env serf 1 2 none none (oversize serf refl)
      (oversize (registered env serf 1) same_limit)
