-- ===== src/Serf/Calls/Reach.antt =====
-- The calls that wait for all responses: `ReachQuery` of query.go and `KeyQuery` of key_query.go. What the
-- response channel delivers until it is closed is a parameter.
use cserf.Prelude.{
  ℕ, zero, suc, ◌+◌, ◌≤◌, ◌≡◌, sym, ◌∙◌, Option, none, some, List, [], ◌∷◌, ◌++◌, append_assoc,
  append-nil, map, take, Text, bytes, nat_eq, if◌then◌else◌, arith, true, false,
}
use cserf.Messages.{QueryResponse}
use cserf.Serf.{Serf, Env, Error}
use cserf.Serf.Calls.{call_query, default_query_params}
use cserf.Keys.{
  KeyQueryResponse, KeyResponse, is_key_command, key_command_to_query_name, collect_key_response,
}

pub record ReachResponse : Type 0 where
  pub num_node : ℕ
  pub num_resp : ℕ
  pub acked : List Text

-- The loop of `collectReachResponse`.
unfoldable pub collect_reach_response : ReachResponse → List QueryResponse → ReachResponse
collect_reach_response r [] = r
collect_reach_response r (a ∷ more) =
    let rest =
      collect_reach_response
        (record r { num_resp = r.num_resp + 1; acked = r.acked ++ (a.from ∷ []) }) more in
    if nat_eq r.num_resp r.num_node then r else rest

-- What a call returns: an error, or what was collected.
pub data Collected (A : Type 0) : Type 0 where
  not_started : Collected A
  failed : Error → Collected A
  collected : A → Collected A

abbrev pub collecting : {A : Type 0} → A → Option Error × Serf → Collected A × Serf
collecting a (some e, s) = (Collected.failed e, s)
collecting a (none, s) = (Collected.collected a, s)

abbrev pub or_panic : {A B : Type 0} → (A → B) → Option A → Option B
or_panic f none = none
or_panic f (some a) = some (f a)

-- `ReachQuery`
unfoldable pub reach_query :
    Env → Serf → ℕ → List QueryResponse → Option (Collected ReachResponse × Serf)
unfolding collect_reach_response
reach_query env s ch responses =
    let r =
      collect_reach_response (record { num_node = env.num_active; num_resp = 0; acked = [] })
        responses in
    or_panic (collecting r)
      (call_query env s ch (some (record (default_query_params env) { name = bytes "reach" })))

-- `KeyQuery`; `decode_base64` is the decoder of the key.
unfoldable pub key_query :
    (Text → Option KeyResponse)
    → (Text → Option Text)
    → Env
    → Serf
    → ℕ
    → Text
    → Text
    → List QueryResponse
    → Option (Collected KeyQueryResponse × Serf)
key_query decode decode_base64 env s ch command key responses =
    if is_key_command command
    then (elim (decode_base64 key) [
      | none ↦ some (Collected.not_started, s)
      | some payload ↦
          let r =
            collect_key_response decode
              (record {
                num_node = env.num_active;
                num_resp = 0;
                num_err = 0;
                err_from = [];
                primary_key_count = [];
                key_count = [];
              })
              responses in
          or_panic (collecting r) (
            call_query env s ch (
              some (record (default_query_params env) {
                name = key_command_to_query_name command;
                payload = some payload;
              })))
    ])
    else some (Collected.not_started, s)

collect_from :
    (n k total : ℕ) (acked : List Text) (rs : List QueryResponse)
    → total ≡ n + k
    → let r =
        collect_reach_response (record { num_node = total; num_resp = k; acked = acked }) rs in
      (r.acked ≡ acked ++ take n (map (λ a. a.from) rs)) × (r.num_resp ≤ total)
unfolding collect_reach_response
collect_from zero k total acked [] e = (sym (append-nil acked), omega (arith, e))
collect_from zero k total acked (a ∷ rs) e =
    let full : nat_eq k total ≡ true = ground (arith, e) in
    rw full (sym (append-nil acked), omega (arith, e))
collect_from (suc n) k total acked [] e = (sym (append-nil acked), omega (arith, e))
collect_from (suc n) k total acked (a ∷ rs) e =
    let more : nat_eq k total ≡ false = ground (arith, e) in
    let (acks, few) = collect_from n (k + 1) total (acked ++ (a.from ∷ [])) rs (omega (arith, e)) in
    rw more (acks ∙ append_assoc acked (a.from ∷ []) (take n (map (λ a. a.from) rs)), few)

-- The responses are taken in order, as many as there were active nodes at the start, and no more.
pub collect_reach_response_lem :
    (total : ℕ) (rs : List QueryResponse)
    → let r = collect_reach_response (record { num_node = total; num_resp = 0; acked = [] }) rs in
      (r.acked ≡ take total (map (λ a. a.from) rs)) × (r.num_resp ≤ total)
collect_reach_response_lem total rs = collect_from total 0 total [] rs (omega arith)
