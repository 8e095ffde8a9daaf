-- ===== src/Serf/Net/Accept.antt =====
-- Which queries a node answers.
use cserf.Prelude.{
  ◌≡◌, ◌≢◌, ◌↔◌, ◌⊎◌, inl, inr, refl, true, some, List, [], ◌∷◌, Text, text_eq, text_eq_iff, All,
  arith, if◌then◌else◌, Bool-cases,
}
use cserf.Messages.{MsgQuery, FilterTag}
use cserf.Serf.{Serf, Env, get_tag}
use cserf.Serf.Net.{is_listed, tags_match, is_query_accepted, is_empty}

-- A node's place in a list of ids.
abbrev pub IsIn : Text → List Text → Type 0
IsIn id [] = ⊥
IsIn id (n ∷ ns) = (n ≡ id) ⊎ IsIn id ns

is_listed_iff : (id : Text) (ns : List Text) → (is_listed id ns ≡ true) ↔ IsIn id ns
unfolding is_listed
is_listed_iff id [] = (λ e. cc, λ h. absurd h)
is_listed_iff id (n ∷ ns) = (to (is_listed_iff id ns).0, from (is_listed_iff id ns).1)
  where
    to :
        (is_listed id ns ≡ true → IsIn id ns)
        → (if text_eq n id then true else is_listed id ns) ≡ true
        → (n ≡ id) ⊎ IsIn id ns
    to rest e = elim (Bool-cases (text_eq n id)) [
      | inl same ↦ inl ((text_eq_iff n id).0 same)
      | inr other ↦ inr (rest (rw other at e))
    ]

    from :
        (IsIn id ns → is_listed id ns ≡ true)
        → (n ≡ id) ⊎ IsIn id ns
        → (if text_eq n id then true else is_listed id ns) ≡ true
    from rest (inl e) = rw ((text_eq_iff n id).1 e)
    from rest (inr h) = ground (arith, rest h)

-- The tag's value matches the filter's expression, which is a regular expression.
abbrev pub Passes : Env → Serf → FilterTag → Type 0
Passes env s f = env.matches f.expr (get_tag s f.name) ≡ some true

tags_match_iff :
    (env : Env) (s : Serf) (fs : List FilterTag)
    → (tags_match env s fs ≡ true) ↔ All (Passes env s) fs
unfolding tags_match
tags_match_iff env s [] = (λ e. tt, λ h. refl)
tags_match_iff env s (f ∷ fs) = (
  λ e. (ground arith, (tags_match_iff env s fs).0 (ground arith)),
  λ h. ground (arith, h.0, (tags_match_iff env s fs).1 h.1),
)

-- Acceptance, by whether the query names nodes.
abbrev Accepts : Env → Serf → List Text → List FilterTag → Type 0
Accepts env s ns fs = ((ns ≢ []) × IsIn s.id ns) ⊎ ((ns ≡ []) × All (Passes env s) fs)

Accepts-iff :
    (env : Env) (s : Serf) (ns : List Text) (fs : List FilterTag)
    → ((if is_empty ns then tags_match env s fs else is_listed s.id ns) ≡ true)
      ↔ Accepts env s ns fs
Accepts-iff env s [] fs = (λ e. inr (refl, (tags_match_iff env s fs).0 e), from)
  where
    from : Accepts env s [] fs → tags_match env s fs ≡ true
    from (inl h) = absurd (h.0 refl)
    from (inr h) = (tags_match_iff env s fs).1 h.1
Accepts-iff env s (n ∷ ns) fs = (λ e. inl (λ p. cc, (is_listed_iff s.id (n ∷ ns)).0 e), from)
  where
    from : Accepts env s (n ∷ ns) fs → is_listed s.id (n ∷ ns) ≡ true
    from (inl h) = (is_listed_iff s.id (n ∷ ns)).1 h.1
    from (inr h) = cc (h.0)

-- A query that names nodes is accepted by exactly those nodes, whatever its tag filters say; one that
-- names none is accepted exactly where every tag filter matches.
pub is_query_accepted_iff :
    (env : Env) (s : Serf) (q : MsgQuery)
    → (is_query_accepted env s q ≡ true) ↔ (
        ((q.for_nodes ≢ []) × IsIn s.id q.for_nodes)
        ⊎ ((q.for_nodes ≡ []) × All (Passes env s) q.filter_tags))
unfolding is_query_accepted
is_query_accepted_iff env s q = Accepts-iff env s q.for_nodes q.filter_tags
