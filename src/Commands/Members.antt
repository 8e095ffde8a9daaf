-- ===== src/Commands/Members.antt =====
-- cmd/members.go, cmd/reach.go and `toPbMember` of rpc/server/server.go: the commands that ask for members.
use cserf.Prelude.{
  ℕ, ◌%◌, ◌^◌, Option, none, some, List, [], ◌∷◌, ◌++◌, map, Text, bytes, text_key, Dict, get, put,
  split, ltb, if◌then◌else◌,
}
use cserf.Decimal.{print_u64}
use cserf.Tags.{tag_map_to_string}
use cserf.Rpc.{StateType, Member, TagFilter}
use cserf.Serf.Calls.Reach.{ReachResponse}
use cserf.Commands.{Line, Marshalled, Ran, Reply, info, error, result, with_client, shown, refused}

-- `pb.Member`
pub record PbMember : Type 0 where
  pub id : Text
  pub addr : Text
  pub tags : Text
  pub state : Text
  pub lives : ℕ

-- `show_state` is the `String` of a state of the memberlist.
unfoldable pub to_pb_member : (StateType → Text) → Member → PbMember
unfolding tag_map_to_string
to_pb_member show_state n = record {
  id = n.id;
  addr = n.addr;
  tags = tag_map_to_string n.tags;
  state = show_state n.state;
  lives = n.lives % 2 ^ 32;
}

-- `(*Server).Members` answers with what `members` keeps, each member converted.
unfoldable pub to_reply : (StateType → Text) → Text → Option (List Member) → Reply (List PbMember)
unfolding to_pb_member
to_reply show_state e none = Reply.failed e
to_reply show_state e (some ms) = Reply.answered (map (to_pb_member show_state) ms)

abbrev pub key_and_expr : List Text → Option TagFilter
key_and_expr (k ∷ e ∷ []) = some (record { key = k; expr = e })
key_and_expr _ = none

-- The loops of `toTagFilters`: the error names the part that is no pair.
pub data Parsed : Type 0 where
  invalid : Text → Parsed
  parsed : List TagFilter → Parsed

abbrev pub add_filter : Text → Option TagFilter → Parsed → Parsed
add_filter s none rest = Parsed.invalid (bytes "invalid tag filter " ++ s)
add_filter s (some f) (Parsed.invalid e) = Parsed.invalid e
add_filter s (some f) (Parsed.parsed fs) = Parsed.parsed (f ∷ fs)

unfoldable pub parse_filters : List Text → Parsed
unfolding split
parse_filters [] = Parsed.parsed []
parse_filters (s ∷ ss) = add_filter s (key_and_expr (split 61 [] s)) (parse_filters ss)

unfoldable pub to_tag_filters : Text → Parsed
unfolding parse_filters split
to_tag_filters [] = Parsed.parsed []
to_tag_filters (c ∷ s) = parse_filters (split 44 [] (c ∷ s))

unfoldable pub members_command :
    (List PbMember → Marshalled)
    → Option Text
    → (List TagFilter → Text → Reply (List PbMember))
    → Text
    → Text
    → Ran
unfolding error result with_client to_tag_filters
members_command to_json client members filter_str status_filter =
    with_client client (elim (to_tag_filters filter_str) [
      | Parsed.invalid e ↦ refused e
      | Parsed.parsed fs ↦
          shown (λ ms. result (bytes "members") (some (to_json ms))) (members fs status_filter)
    ])

-- The map of the nodes that answered.
unfoldable pub acked_map : Dict {0, 0} Text Unit → List Text → Dict {0, 0} Text Unit
acked_map m [] = m
acked_map m (id ∷ ids) = acked_map (put m id tt) ids

unfoldable pub missing_line : PbMember → Line
unfolding error
missing_line n = error (bytes "missing: " ++ (n.id ++ (bytes ", " ++ n.addr)))

-- The last loop of `ReachCommand`.
unfoldable pub missing_lines : Dict {0, 0} Text Unit → List PbMember → List Line
unfolding missing_line
missing_lines m [] = []
missing_lines m (n ∷ ns) =
    let rest = missing_lines m ns in
    elim (get m n.id) [ none ↦ missing_line n ∷ rest | some _ ↦ rest ]

abbrev pub out_of : ReachResponse → Text
out_of r = print_u64 r.num_resp ++ (47 ∷ print_u64 r.num_node)

unfoldable pub count_lines : (Text → Marshalled) → ReachResponse → List Line
unfolding error result
count_lines to_json r =
    result (bytes "response counts") (some (to_json (out_of r)))
    ∷ (if ltb r.num_resp r.num_node
        then error (bytes "too few responses: " ++ out_of r) ∷ []
        else [])

-- `ReachCommand` from the call of `Members`; `took` is the time of the call of `Reach`. After an error of
-- `Members` the command goes on, and the members that it then reads are nil.
unfoldable pub reach_body :
    (Text → Marshalled) → Text → Reply (List PbMember) → Reply ReachResponse → Ran
unfolding info error result count_lines missing_lines acked_map
reach_body to_json took actives reach =
    let start : List Line =
      (elim actives [ Reply.failed e ↦ error e ∷ [] | Reply.answered _ ↦ [] ])
      ++ (info (bytes "running reachability test ...")
          ∷ result (bytes "took") (some (to_json took))
          ∷ []) in
    elim reach [
      | Reply.failed e ↦ Ran.returned (start ++ (error e ∷ []))
      | Reply.answered r ↦ elim actives [
        | Reply.failed e ↦ Ran.panicked (start ++ count_lines to_json r)
        | Reply.answered ms ↦
            Ran.returned
              (start ++ (count_lines to_json r ++ missing_lines (acked_map [] r.acked) ms))
      ]
    ]

unfoldable pub reach_command :
    (Text → Marshalled)
    → Text
    → Option Text
    → (List TagFilter → Text → Reply (List PbMember))
    → Reply ReachResponse
    → Ran
unfolding with_client reach_body
reach_command to_json took client members reach =
    with_client client (reach_body to_json took (members [] (bytes "active")) reach)

-- `InfoCommand`: the error of the call is dropped, and the message is then nil.
unfoldable pub info_command : {A : Type 0} → (Option A → Marshalled) → Option Text → Reply A → Ran
unfolding result with_client
info_command to_json client reply = with_client client (
    Ran.returned (
      result (bytes "info")
        (some (to_json (elim reply [ Reply.failed e ↦ none | Reply.answered a ↦ some a ])))
      ∷ []))
