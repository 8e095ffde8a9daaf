-- ===== src/Rpc/Handlers.antt =====
-- rpc/server/server.go: `Key`, `Action`, `Reach` and `Leave`, which pass a call on to the node. How an error is
-- printed is a parameter.
use native.Mathlib.Nat.{mod-eq_of_lt}
use cserf.Prelude.{ℕ, ◌%◌, ◌^◌, ◌<◌, ◌≡◌, ap₂, Bool, Option, none, some, List, Text}
use cserf.Messages.{QueryResponse}
use cserf.Keys.{KeyQueryResponse, KeyResponse}
use cserf.Serf.{Serf, Env, Error}
use cserf.Serf.Calls.{call_action}
use cserf.Serf.Calls.Reach.{ReachResponse, Collected, reach_query, key_query, or_panic}
use cserf.Lifecycle.{Life, LeaveError, leave}
use cserf.Commands.{Reply}
use cserf.Rpc.Requests.{to_pb_key_response}

-- `pb.ReachResponse`, whose numbers have 32 bits.
unfoldable pub to_pb_reach_response : ReachResponse → ReachResponse
to_pb_reach_response r = record {
  num_node = r.num_node % 2 ^ 32;
  num_resp = r.num_resp % 2 ^ 32;
  acked = r.acked;
}

abbrev pub error_or_unit : {E : Type 0} → (E → Text) → Option E → Reply Unit
error_or_unit show none = Reply.answered tt
error_or_unit show (some e) = Reply.failed (show e)

unfoldable pub serve_leave : (LeaveError → Text) → Bool → Life → Reply Unit × Life
unfolding leave
serve_leave show fails l = let (e, l') = leave fails l in (error_or_unit show e, l')

module _ (show : Error → Text) where
  -- `Action` returns a nil message when there is no error.
  unfoldable pub serve_action : Env → Serf → Text → Option Text → Option (Reply Unit × Serf)
  unfolding call_action
  serve_action env s name payload =
      or_panic (λ r. (error_or_unit show (r.0), r.1)) (call_action env s name payload)

  -- `unstarted` is the error of a call that sent no query.
  abbrev pub collected_or_error : {A : Type 0} → Text → (A → A) → Collected A → Reply A
  collected_or_error unstarted to_pb Collected.not_started = Reply.failed unstarted
  collected_or_error unstarted to_pb (Collected.failed e) = Reply.failed (show e)
  collected_or_error unstarted to_pb (Collected.collected a) = Reply.answered (to_pb a)

  unfoldable pub serve_reach :
      Text → Env → Serf → ℕ → List QueryResponse → Option (Reply ReachResponse × Serf)
  unfolding reach_query to_pb_reach_response
  serve_reach unstarted env s ch responses =
      or_panic (λ r. (collected_or_error unstarted to_pb_reach_response (r.0), r.1))
        (reach_query env s ch responses)

  unfoldable pub serve_key :
      Text
      → (Text → Option KeyResponse)
      → (Text → Option Text)
      → Env
      → Serf
      → ℕ
      → Text
      → Text
      → List QueryResponse
      → Option (Reply KeyQueryResponse × Serf)
  unfolding key_query to_pb_key_response
  serve_key unstarted decode decode_base64 env s ch command key responses =
      or_panic (λ r. (collected_or_error unstarted to_pb_key_response (r.0), r.1))
        (key_query decode decode_base64 env s ch command key responses)

-- No number is cut in a cluster of fewer than 2 ^ 32 nodes.
to_pb_reach_response_lem :
    (r : ReachResponse) → r.num_node < 2 ^ 32 → r.num_resp < 2 ^ 32 → to_pb_reach_response r ≡ r
unfolding to_pb_reach_response
to_pb_reach_response_lem r h k =
    ap₂ (λ n m. let p : ReachResponse = record { num_node = n; num_resp = m; acked = r.acked } in p)
      (mod-eq_of_lt {n = r.num_node} {m = 2 ^ 32} h) (mod-eq_of_lt {n = r.num_resp} {m = 2 ^ 32} k)
