-- ===== src/Rpc/Info/Listed.antt =====
-- The members that a request without filters gets.
use cserf.Prelude.{◌≡◌, refl, ap, ◌∙◌, Bool, Option, some, List, [], ◌∷◌, map, Text, Dict, text_key}
use cserf.Rpc.{
  Member, to_regex_filters, to_status_filters, match_tag, match_status, keep_members, members,
}
use cserf.Rpc.Info.{NodeState, to_member, to_members}

abbrev member_id : Member → Text
member_id m = m.id

abbrev node_id : NodeState → Text
node_id n = n.id

-- No node is left out because its tags cannot be decoded: the members are the nodes, in their order.
to_members_lem :
    (codec : Text → Option (Dict Text Text)) (ns : List NodeState)
    → map member_id (to_members codec ns) ≡ map node_id ns
unfolding to_members to_member
to_members_lem codec [] = refl
to_members_lem codec (n ∷ ns) = ap (λ z. n.id ∷ z) (to_members_lem codec ns)

keep_all : (ms : List Member) → keep_members [] [] ms ≡ ms
unfolding keep_members match_tag match_status
keep_all [] = refl
keep_all (m ∷ ms) = ap (λ z. m ∷ z) (keep_all ms)

-- A request without filters is answered with all nodes of the memberlist, in its order, whatever their tags.
pub members-all :
    (compile : Text → Option (Text → Bool)) (codec : Text → Option (Dict Text Text))
    (ns : List NodeState) (ms : List Member)
    → members compile (to_members codec ns) [] [] ≡ some ms
    → map member_id ms ≡ map node_id ns
unfolding members to_regex_filters to_status_filters
members-all compile codec ns ms e =
    ap (map member_id) (cc (e, keep_all (to_members codec ns))) ∙ to_members_lem codec ns
