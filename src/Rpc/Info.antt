-- ===== src/Rpc/Info.antt =====
-- serf.go: `Members`, `LocalMember` and `Stats`, and `Info` of rpc/server/server.go. What the memberlist says
-- of its nodes is a parameter.
pub mod Listed
use cserf.Prelude.{
  ℕ, Bool, true, false, Option, none, some, List, [], ◌∷◌, Text, bytes, text_key, Dict, put, length,
  if◌then◌else◌,
}
use cserf.Decimal.{print_u64}
use cserf.Inactive.{InactiveNodes}
use cserf.Serf.{Serf}
use cserf.Tags.{decode_tags}
use cserf.Coordinate.{Floats}
use cserf.Ping.{PingDelegate}
use cserf.Rpc.{StateType, Member}
use cserf.Commands.Members.{PbMember, to_pb_member}

-- A node of the memberlist; `addr` is its address as it is printed.
pub record NodeState : Type 0 where
  pub id : Text
  pub addr : Text
  pub tags : Text
  pub state : StateType
  pub lives : ℕ

pub record Memberlist : Type 0 where
  pub nodes : List NodeState
  pub local_node : NodeState
  pub num_active : ℕ
  pub health : ℕ
  pub encryption_enabled : Bool

-- Tags that cannot be decoded are logged, and the map is then nil.
abbrev pub or_nil : Option (Dict Text Text) → Dict Text Text
or_nil none = []
or_nil (some m) = m

unfoldable pub to_member : (Text → Option (Dict Text Text)) → NodeState → Member
unfolding decode_tags
to_member codec n = record {
  id = n.id;
  addr = n.addr;
  tags = or_nil (decode_tags codec n.tags);
  state = n.state;
  lives = n.lives;
}

-- `(*Serf).Members`
unfoldable pub to_members : (Text → Option (Dict Text Text)) → List NodeState → List Member
unfolding to_member
to_members codec [] = []
to_members codec (n ∷ ns) = to_member codec n ∷ to_members codec ns

unfoldable pub local_member : (Text → Option (Dict Text Text)) → Memberlist → Member
unfolding to_member
local_member codec ml = to_member codec ml.local_node

unfoldable pub num_failed : InactiveNodes → ℕ
num_failed i = length i.failed

unfoldable pub num_left : InactiveNodes → ℕ
num_left i = length i.left

abbrev show_bool : Bool → Text
show_bool b = if b then bytes "true" else bytes "false"

unfoldable pub put_all : Dict Text Text → List (Text × Text) → Dict Text Text
put_all m [] = m
put_all m ((k, v) ∷ kvs) = put_all (put m k v) kvs

module _ (fl : Floats) where
  unfoldable pub stats : Memberlist → InactiveNodes → Serf → PingDelegate fl → Dict Text Text
  unfolding put_all num_failed num_left print_u64
  stats ml i s p = put_all [] (
      (bytes "active", print_u64 ml.num_active)
      ∷ (bytes "failed", print_u64 (num_failed i))
      ∷ (bytes "left", print_u64 (num_left i))
      ∷ (bytes "health_score", print_u64 ml.health)
      ∷ (bytes "action_time", print_u64 s.action.clock)
      ∷ (bytes "query_time", print_u64 s.query.clock)
      ∷ (bytes "action_queued", print_u64 (length s.action_broadcasts))
      ∷ (bytes "query_queued", print_u64 (length s.query_broadcasts))
      ∷ (bytes "coordinate_resets", print_u64 p.coord.num_resets)
      ∷ (bytes "encrypted", show_bool ml.encryption_enabled)
      ∷ [])

  unfoldable pub serve_info :
      (StateType → Text)
      → (Text → Option (Dict Text Text))
      → Memberlist
      → InactiveNodes
      → Serf
      → PingDelegate fl
      → PbMember × Dict Text Text
  unfolding to_pb_member local_member stats
  serve_info show codec ml i s p = (to_pb_member show (local_member codec ml), stats ml i s p)
