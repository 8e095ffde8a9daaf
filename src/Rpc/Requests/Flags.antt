-- ===== src/Rpc/Requests/Flags.antt =====
-- The parameters of a query, from the command line to the node.
use native.Mathlib.Nat.{mod-eq_of_lt}
use cserf.Prelude.{
  ℕ, ◌%◌, ◌^◌, ◌≤◌, ◌≡◌, refl, ap, ap₂, subst, Bool-cases, inl, inr, ◌∙◌, some, List, [], ◌∷◌, Text,
  ltb, arith, text_key,
}
use cserf.Messages.{FilterTag}
use cserf.Serf.Calls.{QueryParam}
use cserf.Rpc.Requests.{
  PbQueryParam, to_nodes, to_filter_tags, to_query_params, query_command, copy_tags,
  query_param_from_pb,
}

copy_tags_lem : (ts : List FilterTag) → copy_tags ts ≡ ts
unfolding copy_tags
copy_tags_lem [] = refl
copy_tags_lem (t ∷ ts) = ap (λ z. t ∷ z) (copy_tags_lem ts)

relay_fits : (relay : ℕ) → relay ≤ 255 → (relay % 2 ^ 32) % 2 ^ 8 ≡ relay
relay_fits relay h =
    ap (λ n. n % 2 ^ 8) (mod-eq_of_lt {n = relay} {m = 2 ^ 32} (omega arith))
    ∙ mod-eq_of_lt {n = relay} {m = 2 ^ 8} (omega arith)

-- The parameters that the flags name.
abbrev pub wanted : Text → Text → Text → ℕ → ℕ → Text → QueryParam
wanted name nodes tags timeout relay payload = record {
  name = name;
  for_nodes = to_nodes nodes;
  filter_tags = to_filter_tags tags;
  timeout = timeout;
  num_relays = relay;
  payload = some payload;
}

passed_on :
    (name nodes tags : Text) (timeout relay : ℕ) (payload : Text)
    → relay ≤ 255
    → query_param_from_pb (to_query_params name nodes tags timeout relay payload)
      ≡ wanted name nodes tags timeout relay payload
unfolding query_param_from_pb to_query_params
passed_on name nodes tags timeout relay payload h =
    ap₂
      (λ ts n.
        let q : QueryParam = record {
          name = name;
          for_nodes = to_nodes nodes;
          filter_tags = ts;
          timeout = timeout;
          num_relays = n;
          payload = some payload;
        } in
        q)
      (copy_tags_lem (to_filter_tags tags)) (relay_fits relay h)

-- A query that the command accepts reaches the node with the parameters that were given: no number of relays
-- is cut, and the names of nodes and the tags are those in the flags.
pub query_param_lem :
    (name nodes tags : Text) (timeout relay : ℕ) (payload : Text) (p : PbQueryParam)
    → query_command name nodes tags timeout relay payload ≡ some p
    → query_param_from_pb p ≡ wanted name nodes tags timeout relay payload
unfolding query_command
query_param_lem [] nodes tags timeout relay payload p e = absurd (ground (arith, e))
query_param_lem (c ∷ name) nodes tags timeout relay payload p e =
    elim (Bool-cases (ltb 255 relay)) [
      | inl over ↦ absurd (ground (arith, e, over))
      | inr fits ↦
          let same : to_query_params (c ∷ name) nodes tags timeout relay payload ≡ p =
            ground (arith, e, fits) in
          subst (λ p. query_param_from_pb p ≡ wanted (c ∷ name) nodes tags timeout relay payload)
            same (passed_on (c ∷ name) nodes tags timeout relay payload (ground (arith, fits)))
    ]
