-- ===== src/Rpc/Requests/Print.antt =====
-- How rpc/server/server.go prints the events that a monitor gets.
use cserf.Prelude.{Option, none, some, List, [], ◌∷◌, ◌++◌, Text, bytes, Dict}
use cserf.Buffer.{slice_bytes}
use cserf.Decimal.{print_u64}
use cserf.Messages.{
  MemberNode, Event, on_query, on_action, on_member, on_members, QueryEvent, ActionEvent,
  CoalescedMemberEvent, event_name,
}
use cserf.Tags.{tag_map_to_string, decode_tags}

-- How events are printed: the codec of the tags, and how addresses are.
pub record Printer : Type 0 where
  pub codec : Text → Option (Dict Text Text)
  pub udp_address : MemberNode → Text
  pub show_ip : Text → Text
  pub join_host_port : Text → Text → Text

abbrev pub tags_or_empty : Option (Dict Text Text) → Text
tags_or_empty none = []
tags_or_empty (some m) = tag_map_to_string m

unfoldable pub node_to_string : Printer → MemberNode → Text
unfolding decode_tags tag_map_to_string
node_to_string pr n =
    n.id
    ++ (bytes " - "
        ++ (pr.udp_address n ++ (bytes " - " ++ tags_or_empty (decode_tags pr.codec n.tags))))

-- The loop of `memberEventToString`.
unfoldable pub nodes_to_string : Printer → List MemberNode → Text
unfolding node_to_string
nodes_to_string pr [] = []
nodes_to_string pr (n ∷ ns) = bytes "    " ++ (node_to_string pr n ++ (44 ∷ nodes_to_string pr ns))

unfoldable pub member_event_to_string : Printer → CoalescedMemberEvent → Text
unfolding nodes_to_string event_name
member_event_to_string pr e =
    123
    ∷ 10
    ∷ (bytes "  event-type: "
        ++ (event_name e.type
            ++ (10
                ∷ (bytes "  members:"
                    ++ (10 ∷ (nodes_to_string pr e.members ++ (10 ∷ 125 ∷ [])))))))

unfoldable pub action_event_to_string : ActionEvent → Text
action_event_to_string e =
    bytes "action "
    ++ (print_u64 e.ltime ++ (bytes " - " ++ (e.name ++ (bytes " - " ++ slice_bytes e.payload))))

unfoldable pub query_event_to_string : Printer → QueryEvent → Text
query_event_to_string pr e =
    bytes "query - "
    ++ (print_u64 e.ltime
        ++ (bytes " - "
            ++ (print_u64 e.id
                ++ (bytes " - "
                    ++ (e.name
                        ++ (bytes " - "
                            ++ (slice_bytes e.payload
                                ++ (10
                                    ∷ (bytes "from: "
                                        ++ (pr.join_host_port (pr.show_ip e.source_ip)
                                              (print_u64 e.source_port)
                                            ++ (bytes " - " ++ e.node_id)))))))))))

unfoldable pub event_to_string : Printer → Event → Text
unfolding member_event_to_string action_event_to_string query_event_to_string
event_to_string pr (on_members e) = member_event_to_string pr e
event_to_string pr (on_action e) = action_event_to_string e
event_to_string pr (on_query e) = query_event_to_string pr e
event_to_string pr (on_member e) = bytes "unknow-event"
