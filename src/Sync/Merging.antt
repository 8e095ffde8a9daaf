-- ===== src/Sync/Merging.antt =====
-- What the state exchange does to a node.
use cserf.Prelude.{
  if_both, if_lem, ℕ, ◌+◌, ◌-◌, ◌<◌, ◌≡◌, refl, ap, Bool, true, false, ◌&&◌, Option, none, some,
  map, ◌∙◌, List, [], ◌∷◌, Text, text_key, text_eq_iff, get-remove, ltb, ltb→lt, All, arith, u64,
}
use cserf.Clock
use cserf.Clock.{le-witness}
use cserf.Buffer.Delivery.{advance_refines}
use cserf.Messages.{MemberNode}
use cserf.Managers.{set_action_min_time}
use cserf.Inactive
use cserf.Inactive.{InactiveNodes, is_marked, add_left}
use cserf.Inactive.Index.{IsConsistent, add_left-IsConsistent}
use cserf.Serf.{Serf, Env}
use cserf.Serf.Net.{witness_action, witness_query}
use cserf.Serf.Net.Safety.{IsWell}
use cserf.Sync.Replay.{IsCodec, IsPresent, replay_groups-Replayed}
use cserf.Sync.{
  SentGroup, add_left_pointers, with_inactive, MessageUserState, UserState, is_join,
  is_ignore_act_on_join, replay_groups, witness_before, witness_query_before, prepare, finish,
  merge_state, unset_join, unset_ignore_act_join,
}

-- No time of the message is the last of the 64-bit ones.
pub record IsInRange (msg : MessageUserState) : Type 0 where
  pub action : msg.action_ltime < u64
  pub query : msg.query_ltime < u64
  pub groups : All (λ (g : SentGroup). g.ltime + 1 < u64) msg.action_buffer

-- No pointer of the message is nil.
pub record IsWhole (msg : MessageUserState) : Type 0 where
  pub items : All (λ (g : SentGroup). All IsPresent g.items) msg.action_buffer
  pub nodes : All IsPresent msg.left_nodes

-- A node after the exchange: well-formed, with lists of inactive members that agree with their maps, and
-- the join of the other node is over.
pub record IsMerged (from : Text) (u : UserState) : Type 0 where
  pub well : IsWell u.serf
  pub consistent : IsConsistent u.inactive
  pub joined : (is_join u from ≡ false) × (is_ignore_act_on_join u from ≡ false)

witness_action-IsWell : (s : Serf) (t : ℕ) → t + 1 < u64 → IsWell s → IsWell (witness_action s t)
witness_action-IsWell s t small w = record {
  action_seen = w.action_seen;
  action =
      advance_refines (Clock.witness s.action.clock t) w.action (le-witness s.action.clock t small);
  query_seen = w.query_seen;
  query = w.query;
  timed = w.timed;
}

witness_query-IsWell : (s : Serf) (t : ℕ) → t + 1 < u64 → IsWell s → IsWell (witness_query s t)
witness_query-IsWell s t small w = record {
  action_seen = w.action_seen;
  action = w.action;
  query_seen = w.query_seen;
  query =
      advance_refines (Clock.witness s.query.clock t) w.query (le-witness s.query.clock t small);
  timed = record {
    handled = w.timed.handled;
    open_chan = w.timed.open_chan;
    own_chan = w.timed.own_chan;
  };
}

witness_before-IsWell : (s : Serf) (t : ℕ) → t < u64 → IsWell s → IsWell (witness_before s t)
witness_before-IsWell s t small w =
    if_lem IsWell (ltb 0 t) (λ e. witness_action-IsWell s (t - 1) (omega (arith, ltb→lt 0 t e)) w)
      (λ _. w)

witness_query_before-IsWell :
    (s : Serf) (t : ℕ) → t < u64 → IsWell s → IsWell (witness_query_before s t)
witness_query_before-IsWell s t small w =
    if_lem IsWell (ltb 0 t) (λ e. witness_query-IsWell s (t - 1) (omega (arith, ltb→lt 0 t e)) w)
      (λ _. w)

min_time-IsWell :
    (s : Serf) (t : ℕ) → IsWell s → IsWell (record s { action = set_action_min_time s.action t })
unfolding set_action_min_time
min_time-IsWell s t w = record {
  action_seen = w.action_seen;
  action = w.action;
  query_seen = w.query_seen;
  query = w.query;
  timed = w.timed;
}

prepare-IsWell :
    (u : UserState) (msg : MessageUserState)
    → IsInRange msg
    → IsWell u.serf
    → IsWell (prepare u msg)
unfolding prepare
prepare-IsWell u msg r w =
    if_both IsWell (is_join u msg.from && is_ignore_act_on_join u msg.from)
      (if_both IsWell (ltb before.action.action_min_time msg.action_ltime)
        (min_time-IsWell before msg.action_ltime ready) ready)
      ready
  where
    before : Serf
    before = witness_query_before (witness_before u.serf msg.action_ltime) msg.query_ltime

    ready : IsWell before
    ready =
        witness_query_before-IsWell (witness_before u.serf msg.action_ltime) msg.query_ltime r.query
          (witness_before-IsWell u.serf msg.action_ltime r.action w)

unset-joined :
    (u : UserState) (from : Text)
    → (is_join (unset_ignore_act_join (unset_join u from) from) from ≡ false)
      × (is_ignore_act_on_join (unset_ignore_act_join (unset_join u from) from) from ≡ false)
unfolding unset_join unset_ignore_act_join
unset-joined u from = (
  ground (arith, get-remove u.joining from from, text_eq_iff from from),
  ground (arith, get-remove u.ignore_act_on_join from from, text_eq_iff from from),
)

-- What a batch of left nodes leaves.
pub record Added (o : Option InactiveNodes) : Type 0 where
  pub after : InactiveNodes
  pub returns : o ≡ some after
  pub consistent : IsConsistent after

add_left_pointers-Added :
    (i : InactiveNodes) (now : ℕ) (ns : List (Option MemberNode))
    → All IsPresent ns
    → IsConsistent i
    → Added (add_left_pointers i now ns)
unfolding add_left_pointers
add_left_pointers-Added i now [] set c = record { after = i; returns = refl; consistent = c }
add_left_pointers-Added i now (none ∷ ns) set c = absurd set.0
add_left_pointers-Added i now (some n ∷ ns) set c =
    if_both Added (is_marked i.left_map n.id) (record { after = i; returns = refl; consistent = c })
      (add_left_pointers-Added (add_left i now n) now ns set.1 (add_left-IsConsistent i now n c))

-- On nodes that are there it is `addLeftBatch` of the list of nodes.
add_left_pointers_lem :
    (i : InactiveNodes) (now : ℕ) (ns : List MemberNode)
    → add_left_pointers i now (map some ns) ≡ some (Inactive.add_left_batch i now ns)
unfolding add_left_pointers Inactive.add_left_batch
add_left_pointers_lem i now [] = refl
add_left_pointers_lem i now (n ∷ ns) =
    ground (arith, add_left_pointers_lem (add_left i now n) now ns)

-- A codec that gives back what it encodes, a well-formed node, and a message without nil items and nil nodes whose
-- times are below the last 64-bit one: `Merge` returns whatever actions it replays, the node is well-formed then,
-- the inactive members agree with their maps, and the join of the sender is over.
pub merge_state_lem :
    (env : Env) (now : ℕ) (u : UserState) (msg : MessageUserState)
    → IsCodec env
    → IsWell u.serf
    → IsConsistent u.inactive
    → IsInRange msg
    → IsWhole msg
    → (u' : UserState) × (merge_state env now u msg ≡ some u') × IsMerged msg.from u'
unfolding merge_state finish unset_join unset_ignore_act_join
merge_state_lem env now u msg codec w c r whole =
    let done =
      replay_groups-Replayed env codec msg.action_buffer (prepare u msg) r.groups whole.items
        (prepare-IsWell u msg r w) in
    go done.failed done.after (done.returns) done.well (unset-joined u msg.from)
      (add_left_pointers-Added u.inactive now msg.left_nodes whole.nodes c)
  where
    left : UserState
    left = unset_ignore_act_join (unset_join u msg.from) msg.from

    go :
        (b : Bool) (s : Serf)
        → replay_groups env msg.action_buffer (prepare u msg) ≡ some (b, s)
        → IsWell s
        → (is_join left msg.from ≡ false) × (is_ignore_act_on_join left msg.from ≡ false)
        → Added (add_left_pointers u.inactive now msg.left_nodes)
        → (u' : UserState) × (merge_state env now u msg ≡ some u') × IsMerged msg.from u'
    go true s e ok over added = (
      record left { serf = s },
      ap (finish left now msg.left_nodes) e,
      record { well = ok; consistent = c; joined = over },
    )
    go false s e ok over added = (
      record left { serf = s; inactive = added.after },
      ap (finish left now msg.left_nodes) e
          ∙ ap (with_inactive (record left { serf = s })) added.returns,
      record { well = ok; consistent = added.consistent; joined = over },
    )

-- A nil node in the first place of the left nodes, of a message whose actions were replayed, is a panic.
merge_state_panics :
    (env : Env) (now : ℕ) (u : UserState) (msg : MessageUserState) (s : Serf)
    (ns : List (Option MemberNode))
    → replay_groups env msg.action_buffer (prepare u msg) ≡ some (false, s)
    → msg.left_nodes ≡ none ∷ ns
    → merge_state env now u msg ≡ none
unfolding merge_state finish add_left_pointers
merge_state_panics env now u msg s ns e nil = rw (e, nil) refl
