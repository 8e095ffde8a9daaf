-- ===== src/Sync.antt =====
-- user_state_delegate.go: the state that two nodes exchange when one joins the other, and from time to time.
-- A result `none` is a run-time panic.
pub mod Replay
pub mod Merging
mod Tests
use cserf.Prelude.{
  ℕ, ◌-◌, Bool, true, false, ◌&&◌, Option, none, some, List, [], ◌∷◌, map, Text, text_key, Dict,
  get, put, remove, nat_eq, ltb, drop, if◌then◌else◌,
}
use cserf.Clock
use cserf.Buffer.{LItem, LGroupItem, LBuffer}
use cserf.Messages.{MsgAction, MemberNode}
use cserf.Managers.{set_action_min_time}
use cserf.Inactive.{InactiveNodes, is_marked, get_left_nodes, add_left}
use cserf.Serf.{Serf, Env}
use cserf.Serf.Net.{handle_action, witness_action, witness_query}

-- A group as it is sent: the pointers to its items, of which a decoded message may hold nil ones.
pub record SentGroup : Type 0 where
  pub items : List (Option LItem)
  pub ltime : ℕ

-- `messageUserState`; a pointer is `none` if it is nil.
pub record MessageUserState : Type 0 where
  pub from : Text
  pub action_ltime : ℕ
  pub action_buffer : List SentGroup
  pub query_ltime : ℕ
  pub left_nodes : List (Option MemberNode)

-- `userStateDelegate`, with the node that its callbacks change.
pub record UserState : Type 0 where
  pub addr : Text
  pub serf : Serf
  pub inactive : InactiveNodes
  pub joining : Dict Text Bool
  pub ignore_act_on_join : Dict Text Bool

abbrev pub is_join : UserState → Text → Bool
is_join u addr = is_marked u.joining addr

abbrev pub is_ignore_act_on_join : UserState → Text → Bool
is_ignore_act_on_join u addr = is_marked u.ignore_act_on_join addr

unfoldable pub set_join : UserState → Text → UserState
set_join u addr = record u { joining = put u.joining addr true }

unfoldable pub unset_join : UserState → Text → UserState
unset_join u addr = record u { joining = remove u.joining addr }

unfoldable pub set_ignore_act_on_join : UserState → Text → Bool → UserState
set_ignore_act_on_join u addr ignore = record u {
  ignore_act_on_join = put u.ignore_act_on_join addr ignore;
}

unfoldable pub unset_ignore_act_join : UserState → Text → UserState
unset_ignore_act_join u addr = record u { ignore_act_on_join = remove u.ignore_act_on_join addr }

-- The copies that `getBuffer` makes: an empty slot gives a group of no items and time 0, ids are left out.
abbrev pub copy_item : LItem → LItem
copy_item i = record { ltime = i.ltime; id = 0; payload = i.payload }

abbrev pub copy_slot : Option LGroupItem → SentGroup
copy_slot none = record { items = []; ltime = 0 }
copy_slot (some g) = record { items = map (λ i. some (copy_item i)) g.items; ltime = g.ltime }

unfoldable pub get_buffer : LBuffer → List SentGroup
get_buffer b = map copy_slot b

-- `LocalState` before the encoding.
unfoldable pub local_state : UserState → MessageUserState
unfolding get_buffer
local_state u = record {
  from = u.addr;
  action_ltime = u.serf.action.clock;
  action_buffer = get_buffer u.serf.action.buffers;
  query_ltime = u.serf.query.clock;
  left_nodes = map some (get_left_nodes u.inactive);
}

abbrev pub replayed_action : ℕ → Option Text → MsgAction
replayed_action t payload = record { ltime = t; name = []; payload = payload }

-- The inner loop of `Merge`. The Boolean says whether the encoding failed, upon which `Merge` returns. A nil
-- item has no payload to read.
unfoldable pub replay_items : Env → ℕ → List (Option LItem) → Serf → Option (Bool × Serf)
replay_items env t [] s = some (false, s)
replay_items env t (none ∷ is) s = none
replay_items env t (some i ∷ is) s = elim (env.encode_action (replayed_action t i.payload)) [
  | none ↦ some (true, s)
  | some m ↦ elim (handle_action env s m) [ none ↦ none | some s' ↦ replay_items env t is s' ]
]

unfoldable pub replay_groups : Env → List SentGroup → Serf → Option (Bool × Serf)
unfolding replay_items
replay_groups env [] s = some (false, s)
replay_groups env (g ∷ gs) s = elim (replay_items env g.ltime g.items s) [
  | none ↦ none
  | some (true, s') ↦ some (true, s')
  | some (false, s') ↦ replay_groups env gs s'
]

-- The two `Witness` calls.
abbrev pub witness_before : Serf → ℕ → Serf
witness_before s t = if ltb 0 t then witness_action s (t - 1) else s

abbrev pub witness_query_before : Serf → ℕ → Serf
witness_query_before s t = if ltb 0 t then witness_query s (t - 1) else s

abbrev pub raise_min_time : Serf → ℕ → Serf
raise_min_time s t =
    if ltb s.action.action_min_time t
    then record s { action = set_action_min_time s.action t }
    else s

-- The node before the actions are replayed.
unfoldable pub prepare : UserState → MessageUserState → Serf
prepare u msg =
    let s = witness_query_before (witness_before u.serf msg.action_ltime) msg.query_ltime in
    if is_join u msg.from && is_ignore_act_on_join u msg.from
    then raise_min_time s msg.action_ltime
    else s

-- `addLeftBatch` at the pointers of a message: a nil node has no id to read.
unfoldable pub add_left_pointers :
    InactiveNodes → ℕ → List (Option MemberNode) → Option InactiveNodes
add_left_pointers i now [] = some i
add_left_pointers i now (none ∷ ns) = none
add_left_pointers i now (some n ∷ ns) =
    let rest = add_left_pointers (add_left i now n) now ns in
    if is_marked i.left_map n.id then some i else rest

abbrev pub with_inactive : UserState → Option InactiveNodes → Option UserState
with_inactive u none = none
with_inactive u (some i) = some (record u { inactive = i })

-- The end of `Merge`, for what the replay came to.
unfoldable pub finish :
    UserState → ℕ → List (Option MemberNode) → Option (Bool × Serf) → Option UserState
unfolding add_left_pointers
finish u now nodes none = none
finish u now nodes (some (true, s)) = some (record u { serf = s })
finish u now nodes (some (false, s)) =
    with_inactive (record u { serf = s }) (add_left_pointers u.inactive now nodes)

-- `Merge` at a decoded message.
unfoldable pub merge_state : Env → ℕ → UserState → MessageUserState → Option UserState
unfolding prepare replay_groups finish unset_join unset_ignore_act_join
merge_state env now u msg =
    finish (unset_ignore_act_join (unset_join u msg.from) msg.from) now msg.left_nodes
      (replay_groups env msg.action_buffer (prepare u msg))

abbrev pub msg_usr_state_type : ℕ
msg_usr_state_type = 6

-- `Merge`. `decode_state` is the decoder, `none` its error.
unfoldable pub merge :
    Env → (Text → Option MessageUserState) → ℕ → UserState → Text → Option UserState
merge env decode_state now u [] = some u
merge env decode_state now u (t ∷ rest) =
    if nat_eq t msg_usr_state_type
    then (elim (decode_state rest) [ none ↦ some u | some msg ↦ merge_state env now u msg ])
    else some u
