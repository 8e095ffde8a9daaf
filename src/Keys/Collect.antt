-- ===== src/Keys/Collect.antt =====
-- The counts of the responses to a key query.
use cserf.Prelude.{
  if_lem, if_both, ◌+◌, ◌≤◌, ◌≡◌, refl, Option, none, some, List, [], ◌∷◌, Text, nat_eq, arith,
}
use cserf.Buffer.{slice_bytes}
use cserf.Messages.{QueryResponse}
use cserf.Keys.{
  KeyQueryResponse, KeyResponse, add_error, add_response, counted, read_payload,
  collect_key_response, msg_key_resp_type,
}

-- No more responses than nodes, and no more errors than responses.
pub record IsCounted (kr : KeyQueryResponse) : Type 0 where
  pub few : kr.num_resp ≤ kr.num_node
  pub errors : kr.num_err ≤ kr.num_resp

-- A round adds at most one error to a response that is counted.
pub record Reads (kr kr' : KeyQueryResponse) : Type 0 where
  pub nodes : kr'.num_node ≡ kr.num_node
  pub resp : kr'.num_resp ≡ kr.num_resp
  pub err : kr'.num_err ≤ kr.num_err + 1

module _ (decode : Text → Option KeyResponse) where
  add_error-Reads : (kr : KeyQueryResponse) (from what : Text) → Reads kr (add_error kr from what)
  unfolding add_error
  add_error-Reads kr from what = record { nodes = refl; resp = refl; err = omega arith }

  add_response-Reads :
      (kr : KeyQueryResponse) (from : Text) (r : KeyResponse) → Reads kr (add_response kr from r)
  unfolding add_response
  add_response-Reads kr from r = record { nodes = refl; resp = refl; err = ground arith }

  decoded-Reads :
      (kr : KeyQueryResponse) (from : Text) (what : Text) (o : Option KeyResponse)
      → Reads kr (elim o [ none ↦ add_error kr from what | some r ↦ add_response kr from r ])
  decoded-Reads kr from what none = add_error-Reads kr from what
  decoded-Reads kr from what (some r) = add_response-Reads kr from r

  read_payload-Reads :
      (kr : KeyQueryResponse) (from p : Text) → Reads kr (read_payload decode kr from p)
  unfolding read_payload
  read_payload-Reads kr from [] = add_error-Reads kr from _
  read_payload-Reads kr from (t ∷ rest) =
      if_both (Reads kr) (nat_eq t msg_key_resp_type) (decoded-Reads kr from _ (decode rest))
        (add_error-Reads kr from _)

  -- However many responses a key query gets, from counts in order on: it counts at most one for each node,
  -- and at most one error for each response.
  pub collect_key_response-IsCounted :
      (rs : List QueryResponse) (kr : KeyQueryResponse)
      → IsCounted kr
      → IsCounted (collect_key_response decode kr rs)
  unfolding collect_key_response
  collect_key_response-IsCounted [] kr v = v
  collect_key_response-IsCounted (r ∷ rs) kr v =
      let next = read_payload-Reads (counted kr) r.from (slice_bytes r.payload) in
      if_lem IsCounted (nat_eq kr.num_resp kr.num_node) (λ _. v)
        (λ e. collect_key_response-IsCounted rs _ (record {
          few = ground (arith, next.nodes, next.resp, v.few, e);
          errors = omega (arith, next.resp, next.err, v.errors);
        }))
