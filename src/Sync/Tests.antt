-- ===== src/Sync/Tests.antt =====
-- The state exchange on a small run.
use cserf.Prelude.{ℕ, ◌≡◌, ap, arith, true, Option, none, some, [], ◌∷◌, bytes, Text, drop, sym}
use cserf.Buffer.Agree.{new_refines, Refines}
use cserf.Managers.{new_query_manager}
use cserf.Managers.Handlers.{new_query_manager-IsTimed}
use cserf.Inactive.{InactiveNodes}
use cserf.Inactive.Index.{IsConsistent, IsIndexed-nil}
use cserf.Serf.{or_empty}
use cserf.Serf.Net.Safety.{IsWell}
use cserf.Fixtures.{encode, decode, env, serf}
use cserf.Sync.{UserState, MessageUserState, merge_state}
use cserf.Sync.Replay.{IsCodec}
use cserf.Sync.Merging.{IsMerged, merge_state_lem}

env_codec :
    (t : ℕ) (n : Text) (p : Option Text) (m : Text)
    → encode (record { ltime = t; name = n; payload = p }) ≡ some m
    → decode (drop 1 m) ≡ (true, record { ltime = t; name = n; payload = p })
env_codec t [] none m e = ap (λ o. decode (drop 1 (or_empty o))) (sym e)
env_codec t [] (some p) m e = ap (λ o. decode (drop 1 (or_empty o))) (sym e)
env_codec t (c ∷ n) p m e = cc

env-IsCodec : IsCodec env
env-IsCodec = record { decodes = λ a m e. env_codec a.ltime a.name a.payload m e }

queries_refines : Refines (new_query_manager 4).clock (new_query_manager 4).buffers []
unfolding new_query_manager
queries_refines = new_refines 1 4 (omega arith)

serf-IsWell : IsWell serf
serf-IsWell = record {
  action_seen = [];
  action = new_refines 1 4 (omega arith);
  query_seen = [];
  query = queries_refines;
  timed = new_query_manager-IsTimed 4;
}

abbrev members : InactiveNodes
members = record {
  failed_timeout = 9;
  failed = [];
  failed_map = [];
  left_timeout = 9;
  left = [];
  left_map = [];
}

members-IsConsistent : IsConsistent members
members-IsConsistent = record { failed = IsIndexed-nil; left = IsIndexed-nil }

abbrev state : UserState
state = record {
  addr = bytes "x";
  serf = serf;
  inactive = members;
  joining = (bytes "y", true) ∷ [];
  ignore_act_on_join = [];
}

abbrev message : MessageUserState
message = record {
  from = bytes "y";
  action_ltime = 6;
  action_buffer =
      record {
        items = some (record { ltime = 5; id = 0; payload = some (bytes "p") }) ∷ [];
        ltime = 5;
      }
      ∷ [];
  query_ltime = 2;
  left_nodes = some (record { id = bytes "z"; ip = bytes "10.0.0.3"; port = 7946; tags = [] }) ∷ [];
}

merge_state_lem_example :
    (u : UserState) × (merge_state env 8 state message ≡ some u) × IsMerged (bytes "y") u
merge_state_lem_example =
    merge_state_lem env 8 state message env-IsCodec serf-IsWell members-IsConsistent
      (record { action = omega arith; query = omega arith; groups = (omega arith, tt) })
      (record { items = ((tt, tt), tt); nodes = (tt, tt) })
