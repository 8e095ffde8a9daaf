-- ===== src/Rpc/Requests.antt =====
-- rpc/server/server.go and cmd/query.go: the requests of the command line and how the server passes them on.
-- gRPC, bcrypt and the printing of addresses are parameters.
pub mod Rtt
pub mod Flags
pub mod Print
mod Tests
use cserf.Prelude.{
  ℕ, suc, ◌+◌, ◌%◌, ◌^◌, ◌>>=◌, Bool, true, false, Option, none, some, List, [], ◌∷◌, ◌++◌, Text,
  bytes, text_eq, text_key, Dict, get, put, split, ltb, if◌then◌else◌,
}
use cserf.Buffer.{slice_bytes}
use cserf.Decimal.{print_u64}
use cserf.Messages.{
  FilterTag, QueryResponse, MemberNode, Event, on_query, on_action, on_member, on_members,
  QueryEvent, ActionEvent, CoalescedMemberEvent, event_name,
}
use cserf.Serf.{Error}
use cserf.Serf.Calls.{QueryParam}
use cserf.Keys.{KeyQueryResponse}
use cserf.Tags.{
  TagEnv, TagState, TagError, set_tags, unset_tag_keys, tag_map_to_string, to_tag_map, decode_tags,
}
use cserf.Coordinate.{Floats, Coordinate, distance_to}
use cserf.Ping.{PingDelegate, get_cached_coord}
use cserf.Rpc.Streams.{strip_newline}

-- What `authInterceptor` returns: an error, or the handler's reply.
pub data Reply (A : Type 0) : Type 0 where
  missing_metadata invalid_authkey : Reply A
  handled : A → Reply A

abbrev pub first_of : Option (List Text) → Option Text
first_of none = none
first_of (some []) = none
first_of (some (k ∷ ks)) = some k

-- `compare` is `ComparePwdAndHash`, and `meta` the metadata of the request, if it has any.
unfoldable pub auth_interceptor :
    {A : Type 0} → (Text → Text → Bool) → Text → Option (Dict Text (List Text)) → A → Reply A
auth_interceptor compare hash none reply = Reply.missing_metadata
auth_interceptor compare hash (some meta) reply = elim (first_of (get meta (bytes "authkey"))) [
  | none ↦ Reply.invalid_authkey
  | some key ↦ if compare key hash then Reply.handled reply else Reply.invalid_authkey
]

-- `pb.QueryParam`; the timeout is a number of nanoseconds.
pub record PbQueryParam : Type 0 where
  pub name : Text
  pub for_nodes : List Text
  pub filter_tags : List FilterTag
  pub timeout : ℕ
  pub num_relays : ℕ
  pub payload : Option Text

-- `ToNodes` of cmd/utils/utils.go.
unfoldable pub to_nodes : Text → List Text
unfolding split
to_nodes [] = []
to_nodes (c ∷ s) = split 44 [] (c ∷ s)

-- The loop of `toFilterTags` of cmd/query.go.
unfoldable pub filters_of : Dict Text Text → List FilterTag
filters_of [] = []
filters_of ((k, v) ∷ m) = record { name = k; expr = v } ∷ filters_of m

unfoldable pub to_filter_tags : Text → List FilterTag
unfolding filters_of
to_filter_tags s = filters_of (to_tag_map s)

-- `toQueryParams`
unfoldable pub to_query_params : Text → Text → Text → ℕ → ℕ → Text → PbQueryParam
unfolding to_nodes to_filter_tags
to_query_params name nodes tags timeout relay payload = record {
  name = name;
  for_nodes = to_nodes nodes;
  filter_tags = to_filter_tags tags;
  timeout = timeout;
  num_relays = relay % 2 ^ 32;
  payload = some payload;
}

-- The checks of `QueryCommand` before the request: `none` is an error.
unfoldable pub query_command : Text → Text → Text → ℕ → ℕ → Text → Option PbQueryParam
unfolding to_query_params
query_command [] nodes tags timeout relay payload = none
query_command (c ∷ name) nodes tags timeout relay payload =
    if ltb 255 relay
    then none
    else some (to_query_params (c ∷ name) nodes tags timeout relay payload)

-- The loop of `QueryParamFromPb`.
unfoldable pub copy_tags : List FilterTag → List FilterTag
copy_tags [] = []
copy_tags (t ∷ ts) = record { name = t.name; expr = t.expr } ∷ copy_tags ts

unfoldable pub query_param_from_pb : PbQueryParam → QueryParam
unfolding copy_tags
query_param_from_pb p = record {
  name = p.name;
  for_nodes = p.for_nodes;
  filter_tags = copy_tags p.filter_tags;
  timeout = p.timeout;
  num_relays = p.num_relays % 2 ^ 8;
  payload = p.payload;
}

abbrev response_line : QueryResponse → Text
response_line r =
    bytes "response from " ++ (r.from ++ (bytes ": " ++ strip_newline (slice_bytes r.payload)))

-- The lines that `(*Server).Query` streams, after `n` responses.
unfoldable pub response_lines : ℕ → List QueryResponse → List Text
response_lines n [] = (bytes "total number of responses: " ++ print_u64 n) ∷ []
response_lines n (r ∷ rs) = response_line r ∷ response_lines (n + 1) rs

-- `(*Server).Query`: the error of the query is dropped, and then nobody closes the channel that it waits on,
-- which the result `none` stands for.
unfoldable pub serve_query : Option Error → List QueryResponse → Option (List Text)
unfolding response_lines
serve_query (some e) rs = none
serve_query none rs = some (response_lines 0 rs)

-- `pb.KeyResponse`, whose numbers have 32 bits.
unfoldable pub narrow : Dict Text ℕ → Dict Text ℕ
narrow [] = []
narrow ((k, n) ∷ m) = (k, n % 2 ^ 32) ∷ narrow m

unfoldable pub to_pb_key_response : KeyQueryResponse → KeyQueryResponse
unfolding narrow
to_pb_key_response r = record {
  num_node = r.num_node % 2 ^ 32;
  num_resp = r.num_resp % 2 ^ 32;
  num_err = r.num_err % 2 ^ 32;
  err_from = r.err_from;
  primary_key_count = narrow r.primary_key_count;
  key_count = narrow r.key_count;
}

pub data TagResult : Type 0 where
  tag_error : TagError → TagResult
  invalid_tag_command : TagResult
  tags_done : TagResult

abbrev pub tag_result : Option TagError × TagState → TagResult × TagState
tag_result (some e, s) = (TagResult.tag_error e, s)
tag_result (none, s) = (TagResult.tags_done, s)

-- `(*Server).Tag`
unfoldable pub serve_tag :
    TagEnv → TagState → Text → Dict Text Text → List Text → TagResult × TagState
unfolding set_tags unset_tag_keys
serve_tag env s command tags keys =
    if text_eq command (bytes "update")
    then tag_result (set_tags env s tags)
    else if text_eq command (bytes "unset")
    then tag_result (unset_tag_keys env s keys)
    else (TagResult.invalid_tag_command, s)

-- What `(*Server).Rtt` returns; `dimension_panic` is the panic of `DistanceTo`.
pub data RttResult (D : Type 0) : Type 0 where
  no_coord : Text → RttResult D
  rtt : D → RttResult D
  dimension_panic : RttResult D

module _ (fl : Floats) where
  open fl use {Float, Duration}

  abbrev pub or_own : Text → Text → Text
  or_own own [] = own
  or_own own (c ∷ id) = c ∷ id

  abbrev pub to_rtt : Option Duration → RttResult Duration
  to_rtt none = RttResult.dimension_panic
  to_rtt (some d) = RttResult.rtt d

  unfoldable pub rtt_between :
      Text → Text → Option (Coordinate Float) → Option (Coordinate Float) → RttResult Duration
  unfolding distance_to
  rtt_between first second none b = RttResult.no_coord first
  rtt_between first second (some a) none = RttResult.no_coord second
  rtt_between first second (some a) (some b) = to_rtt (distance_to fl a b)

  unfoldable pub serve_rtt : PingDelegate fl → Text → Text → RttResult Duration
  unfolding get_cached_coord rtt_between
  serve_rtt p first second =
      rtt_between first (or_own p.id second) (get_cached_coord fl p first)
        (get_cached_coord fl p (or_own p.id second))
