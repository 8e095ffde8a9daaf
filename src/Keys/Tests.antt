-- ===== src/Keys/Tests.antt =====
-- Key queries on small runs.
use cserf.Prelude.{
  ℕ, zero, suc, ◌≤◌, ◌<◌, ◌≡◌, refl, arith, true, false, none, some, List, [], ◌∷◌, ◌++◌, bytes,
  Text,
}
use cserf.Messages.{QueryEvent, QueryResponse}
use cserf.Serf.{Serf}
use cserf.Serf.Relay.{respond_to_query_event, send_answer, relay}
use cserf.Fixtures.{env, serf}
use cserf.Keys.{KeyEnv, KeyResponse, KeyQueryResponse, cut, is_limit, try_send, send_key_response}
use cserf.Keys.Truncate.{try_send_longest}

abbrev join_keys : List Text → Text
join_keys [] = []
join_keys (k ∷ ks) = k ++ join_keys ks

abbrev key_env : KeyEnv
key_env = record {
  encryption_enabled = true;
  encode = λ r. some (4 ∷ join_keys r.keys);
  encode_base64 = λ t. t;
  get_primary_key = λ ks. [];
  add_key = λ ks k. some (k ∷ ks);
  use_key = λ ks k. some ks;
  remove_key = λ ks k. some ks;
  keyring_error = [];
  write_fails = λ ks. false;
  write_error = [];
}

abbrev node : Serf
node = record serf { query_response_size_limit = 3 }

abbrev list_query : QueryEvent
list_query = record {
  name = bytes "list-key";
  ltime = 3;
  id = 1;
  source_ip = [];
  source_port = 0;
  node_id = [];
  num_relays = 0;
  payload = none;
  deadline = 9;
}

abbrev three_keys : KeyResponse
three_keys = record {
  success = true;
  err = [];
  keys = bytes "a" ∷ bytes "b" ∷ bytes "c" ∷ [];
  primary_key = [];
}

too_long :
    (i : ℕ)
    → 1 < i
    → i ≤ 3
    → is_limit (send_key_response env key_env node list_query (cut three_keys 3 i)).0 ≡ true
unfolding send_key_response cut respond_to_query_event send_answer
too_long zero lt le = absurd (omega arith)
too_long (suc zero) lt le = absurd (omega arith)
too_long (suc (suc zero)) lt le = refl
too_long (suc (suc (suc zero))) lt le = refl
too_long (suc (suc (suc (suc n)))) lt le = absurd (omega arith)

one_fits : is_limit (send_key_response env key_env node list_query (cut three_keys 3 1)).0 ≡ false
unfolding send_key_response cut respond_to_query_event send_answer relay
one_fits = refl

try_send_longest_example :
    try_send env key_env node list_query three_keys 3 3
    ≡ (send_key_response env key_env node list_query (cut three_keys 3 1)).1
try_send_longest_example =
    try_send_longest env key_env node list_query 3 1 three_keys 3 (omega arith) (omega arith)
      (omega arith) too_long one_fits

abbrev nothing : KeyQueryResponse
nothing = record {
  num_node = 1;
  num_resp = 0;
  num_err = 0;
  err_from = [];
  primary_key_count = [];
  key_count = [];
}

abbrev responses : List QueryResponse
responses =
    record { from = bytes "b"; payload = none }
    ∷ record { from = bytes "c"; payload = some (4 ∷ []) }
    ∷ []
