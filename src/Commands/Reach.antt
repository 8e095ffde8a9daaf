-- ===== src/Commands/Reach.antt =====
-- What the reachability test reports, with the members that the server lists for it.
use cserf.Prelude.{
  ◌≡◌, refl, Bool, true, false, not, ◌&&◌, Option, none, some, List, [], ◌∷◌, ◌++◌, map, Text,
  bytes, text_eq, text_key, Dict, get, put, get-put, if◌then◌else◌, arith,
}
use cserf.Rpc.{
  StateType, Member, is_active, match_filter, match_any, match_status, match_tag, keep_members,
  to_regex_filters, is_valid_status_filter, check_filters, to_status_filters, members,
}
use cserf.Serf.Calls.Reach.{ReachResponse}
use cserf.Commands.{
  Line, Marshalled, Ran, Reply, info, error, result, with_client, connected, closed,
}
use cserf.Commands.Members.{
  to_pb_member, to_reply, acked_map, missing_line, missing_lines, count_lines, reach_body,
  reach_command,
}

abbrev pub acks : List Text → Text → Bool
acks [] id = false
acks (i ∷ ids) id = if text_eq i id then true else acks ids id

get-acked_map :
    (ids : List Text) (m : Dict {0, 0} Text Unit) (id : Text)
    → get (acked_map m ids) id ≡ (if acks ids id then some tt else get m id)
unfolding acked_map
get-acked_map [] m id = refl
get-acked_map (i ∷ ids) m id = ground (arith, get-acked_map ids (put m i tt) id, get-put m i id tt)

-- One line for each active member that did not answer, in the order of the list.
abbrev pub unreached : List Text → List Member → List Line
unreached ids [] = []
unreached ids (m ∷ ms) =
    if is_active m.state && not (acks ids m.id)
    then error (bytes "missing: " ++ (m.id ++ (bytes ", " ++ m.addr))) ∷ unreached ids ms
    else unreached ids ms

abbrev only_active : List Text
only_active = bytes "active" ∷ []

match_status-active : (s : StateType) → match_status s only_active ≡ is_active s
unfolding match_status match_any match_filter
match_status-active s = ground arith

members_active :
    (compile : Text → Option (Text → Bool)) (ms : List Member)
    → members compile ms [] (bytes "active") ≡ some (keep_members [] only_active ms)
unfolding members to_regex_filters to_status_filters check_filters is_valid_status_filter
members_active compile ms = refl

missing_lines_lem :
    (show : StateType → Text) (ids : List Text) (ms : List Member)
    → missing_lines (acked_map [] ids) (map (to_pb_member show) (keep_members [] only_active ms))
      ≡ unreached ids ms
unfolding missing_lines keep_members match_tag to_pb_member missing_line get
missing_lines_lem show ids [] = refl
missing_lines_lem show ids (m ∷ ms) =
    ground
      (arith, match_status-active m.state, get-acked_map ids [] m.id, missing_lines_lem show ids ms)

-- The reachability test of a client that is connected, when the server lists its members and the query was
-- answered: after the counts it prints one line for each active member that the query got no answer from, in the
-- order of the server's list, and none for another.
pub reach_command_lem :
    (to_json : Text → Marshalled) (took : Text) (show : StateType → Text) (bad : Text)
    (compile : Text → Option (Text → Bool)) (ms : List Member) (r : ReachResponse)
    → reach_command to_json took none
        (λ fs s. to_reply show bad (members compile ms fs s))
        (Reply.answered r)
      ≡ Ran.returned (
          connected
          ∷ ((info (bytes "running reachability test ...")
                ∷ result (bytes "took") (some (to_json took))
                ∷ (count_lines to_json r ++ unreached r.acked ms))
              ++ (closed ∷ [])))
unfolding reach_command reach_body to_reply with_client
reach_command_lem to_json took show bad compile ms r =
    rw (members_active compile ms, missing_lines_lem show r.acked ms) refl
