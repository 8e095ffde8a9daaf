-- ===== src/Commands/Tests.antt =====
-- A server with two members, one of which did not answer.
use cserf.Prelude.{◌≡◌, ◌⊎◌, refl, none, some, List, [], ◌∷◌, ◌++◌, Text, bytes, Option, Bool}
use cserf.Rpc.{StateType, Member, TagFilter, members}
use cserf.Serf.Calls.Reach.{ReachResponse}
use cserf.Commands.{Marshalled, Ran, Reply, info, error, result, connected, closed, action_command}
use cserf.Commands.Members.{to_reply, count_lines, reach_command, to_tag_filters, parsed, invalid}
use cserf.Commands.Reach.{unreached, reach_command_lem}
use cserf.Commands.Payload.{action_command_panics}

abbrev member : Text → StateType → Member
member id state = record {
  id = id;
  addr = bytes "10.0.0.1:7946";
  tags = [];
  state = state;
  lives = 1;
}

abbrev listed : List Member
listed =
    member (bytes "a") (StateType.other_state 0)
    ∷ member (bytes "b") StateType.state_dead
    ∷ member (bytes "c") (StateType.other_state 1)
    ∷ []

abbrev answers : ReachResponse
answers = record { num_node = 2; num_resp = 1; acked = bytes "c" ∷ [] }

abbrev to_json : Text → Marshalled
to_json t = Marshalled.json t

abbrev show : StateType → Text
show s = bytes "state"

abbrev compile : Text → Option (Text → Bool)
compile e = none

reach_command_lem_example :
    reach_command to_json
      (bytes "1s")
      none
      (λ fs s. to_reply show (bytes "bad") (members compile listed fs s))
      (Reply.answered answers)
    ≡ Ran.returned (
        connected
        ∷ ((info (bytes "running reachability test ...")
              ∷ result (bytes "took") (some (to_json (bytes "1s")))
              ∷ (count_lines to_json answers ++ unreached (answers.acked) listed))
            ++ (closed ∷ [])))
reach_command_lem_example =
    reach_command_lem to_json (bytes "1s") show (bytes "bad") compile listed answers

only_first_missing :
    unreached (answers.acked) listed ≡ error (bytes "missing: a, 10.0.0.1:7946") ∷ []
unfolding error cserf.Rpc.is_active
only_first_missing = refl

-- Without its members the test panics.
unlisted :
    reach_command to_json
      (bytes "1s")
      none
      (λ fs s. Reply.failed (bytes "down"))
      (Reply.answered answers)
    ≡ Ran.panicked (
        connected
        ∷ ((error (bytes "down")
              ∷ info (bytes "running reachability test ...")
              ∷ result (bytes "took") (some (to_json (bytes "1s")))
              ∷ count_lines to_json answers)
            ++ (closed ∷ [])))
unfolding reach_command
unlisted = refl

abbrev accepting : Text → Text → Reply Unit
accepting name payload = Reply.answered tt

action_command_panics_example :
    (action_command none accepting (bytes "deploy" ∷ []) ≡ Ran.panicked [])
    ⊎ ((p : Text)
        → action_command none accepting (bytes "deploy" ∷ p ∷ [])
          ≡ action_command none accepting (bytes "deploy" ∷ []))
action_command_panics_example = action_command_panics none accepting (bytes "deploy")

deploy_panics : action_command none accepting (bytes "deploy" ∷ []) ≡ Ran.panicked []
unfolding action_command
deploy_panics = refl

two_filters :
    to_tag_filters (bytes "role=web,role=db")
    ≡ parsed (
        record { key = bytes "role"; expr = bytes "web" }
        ∷ record { key = bytes "role"; expr = bytes "db" }
        ∷ [])
unfolding to_tag_filters
two_filters = refl

no_filter : to_tag_filters (bytes "role") ≡ invalid (bytes "invalid tag filter role")
unfolding to_tag_filters
no_filter = refl
