-- ===== src/Build/Resume.antt =====
-- What a node knows and refuses after a restart: `Build` on the file that another snapshotter has written.
use cserf.Prelude.{
  ℕ, ◌+◌, ◌<◌, ◌≡◌, refl, sym, subst, ◌∙◌, false, Option, none, some, List, [], ◌∷◌, Text, All,
  arith, ltb, u64, if◌then◌else◌,
}
use cserf.Coordinate.{Floats}
use cserf.Coordinate.Node as CoordNode
use cserf.Ping.{PingDelegate, new_ping_delegate}
use cserf.Buffer.Agree.{new_refines}
use cserf.Messages.{MsgAction}
use cserf.Managers.{new_action_manager, new_query_manager, set_action_min_time}
use cserf.Managers.Handlers.{new_query_manager-IsTimed}
use cserf.Serf.{Serf}
use cserf.Serf.Net.{take_action, to_action_event}
use cserf.Serf.Net.Action.{take_action_lem}
use cserf.Serf.Net.Safety.{IsWell}
use cserf.Snapshot.{Snapshotter, opened, new_snapshotter}
use cserf.Snapshot.Lines.{IsWord}
use cserf.Snapshot.Receive.{Signal, receive_signals}
use cserf.Snapshot.Restart.{IsAcceptable, restart_lem}
use cserf.Snapshot.Clocks.{last_action, receive_signals-clock}
use cserf.Tags.{encode_tags}
use cserf.Build.{
  Config, Outside, Node, built, build, max_action_size_limit, or_no_tags, or_new_ping, new_node,
  new_serf, new_actions, open_snapshot, default_coordinate_config,
}
use cserf.Build.Later.{
  IsLater, Later, take_actions, take_actions-Later, IsSmall, IsFresh, first_events,
}

module _ (fl : Floats) where
  -- The conditions under which nothing of what `Build` calls fails.
  pub record Starts (o : Outside fl) (c : Config) : Type 0 where
    pub limit : ltb max_action_size_limit c.action_size_limit ≡ false
    pub buffer : 0 < c.l_buffer_size
    pub tags : Text
    pub encodes : encode_tags o.codec (or_no_tags fl c.tags) ≡ some tags
    pub id : Text
    pub builds : o.build_memberlist tags ≡ some id
    pub addr : Text
    pub advertises : o.advertise ≡ some addr

  or_new_ping-some :
      (p : Option (PingDelegate fl)) → (q : PingDelegate fl) × (or_new_ping fl p ≡ some q)
  unfolding new_ping_delegate CoordNode.new_node default_coordinate_config
  or_new_ping-some none = (_, refl)
  or_new_ping-some (some p) = (p, refl)

  open_snapshot-built :
      (o : Outside fl) (c : Config) (log : Text) (s : Snapshotter)
      → o.file ≡ some log
      → new_snapshotter c.snapshot_min_compact_size log ≡ some s
      → open_snapshot fl o c ≡ built s
  unfolding open_snapshot
  open_snapshot-built o c log s f e = ground (arith, f, e)

  new_serf-IsFresh :
      (c : Config) (s : Snapshotter) (id : Text) (last : ℕ)
      → 0 < c.l_buffer_size
      → s.last_action_clock ≡ last
      → last + 1 < u64
      → IsFresh last (new_serf fl c s id)
  unfolding new_serf new_actions set_action_min_time new_action_manager
  new_serf-IsFresh c s id last pos e h = record {
    min_time = ground (arith, e, h);
    clock = refl;
    refines = new_refines 1 c.l_buffer_size pos;
    events = refl;
  }

  with_file :
      {o : Outside fl} {c : Config} (log : Text)
      → Starts o c
      → Starts (record o { file = some log }) c
  with_file log k = record {
    limit = k.limit;
    buffer = k.buffer;
    tags = k.tags;
    encodes = k.encodes;
    id = k.id;
    builds = k.builds;
    addr = k.addr;
    advertises = k.advertises;
  }

  build-built :
      (o : Outside fl) (c : Config) (log : Text) (s : Snapshotter)
      → (k : Starts o c) → o.file ≡ some log
      → new_snapshotter c.snapshot_min_compact_size log ≡ some s
      → build fl o c ≡ built (new_node fl o c s (or_new_ping-some o.ping).0 k.id k.addr)
  unfolding build
  build-built o c log s k f e =
      rw
        (
          k.limit,
          open_snapshot-built o c log s f e,
          k.encodes,
          (or_new_ping-some o.ping).1,
          k.builds,
          k.advertises,
        )
        refl

  new_serf-IsWell :
      (c : Config) (s : Snapshotter) (id : Text) → 0 < c.l_buffer_size → IsWell (new_serf fl c s id)
  unfolding new_serf new_actions new_action_manager new_query_manager set_action_min_time
  new_serf-IsWell c s id pos = record {
    action_seen = [];
    action = new_refines 1 c.l_buffer_size pos;
    query_seen = [];
    query = new_refines 1 c.l_buffer_size pos;
    timed = new_query_manager-IsTimed c.l_buffer_size;
  }

module _ (fl : Floats) (tcp_addr : Text → ℕ → Text) where
  -- What the restarted node is, and what it makes of actions.
  pub record Resumes (min : ℕ) (gs : List Signal) (o : Outside fl) (c : Config) (a : MsgAction)
      (msgs : List MsgAction) : Type 0 where
    pub file : Snapshotter
    pub recorded : receive_signals tcp_addr (opened min []) gs ≡ some file
    pub node : Node fl
    pub starts : build fl (record o { file = some file.log }) c ≡ built node
    pub well : IsWell node.user.serf
    pub first : Serf
    pub takes : take_action node.user.serf a ≡ some first
    pub delivers :
        first.events ≡ (if ltb (last_action gs) a.ltime then to_action_event a ∷ [] else [])
    pub later : Later (last_action gs) (take_actions node.user.serf (a ∷ msgs))

module _ (fl : Floats) (tcp_addr : Text → ℕ → Text)
    (words : (ip : Text) (port : ℕ) → IsWord (tcp_addr ip port)) where
  -- A restarted node delivers no action again. Whatever signals `gs` a new snapshotter has received, it has not
  -- panicked, and `Build` on its file gives a well-formed node. That node returns from every action of any
  -- sequence; it delivers only actions that are later than every action of `gs` before the first call of
  -- `Leave`, and it delivers the first of the sequence exactly if that one is. The conditions: the action size
  -- limit is kept, the buffer is not empty, the tags can be encoded, the memberlist can be built and has an
  -- address, the signals can be recorded, and all times are below the last 64-bit one.
  pub resume_lem :
      (min : ℕ) (gs : List Signal) (o : Outside fl) (c : Config) (a : MsgAction)
      (msgs : List MsgAction)
      → All IsAcceptable gs
      → last_action gs + 1 < u64
      → Starts fl o c
      → All IsSmall (a ∷ msgs)
      → Resumes fl tcp_addr min gs o c a msgs
  unfolding opened new_node with_file
  resume_lem min gs o c a msgs ok below k small =
      let (s, r, recorded, _, reopened, same, _) =
        restart_lem tcp_addr words min c.snapshot_min_compact_size gs [] ok in
      let time : r.last_action_clock ≡ last_action gs =
        same.action ∙ receive_signals-clock tcp_addr gs (opened min []) s refl recorded in
      let serf = new_serf fl c r k.id in
      let fresh = new_serf-IsFresh fl c r k.id (last_action gs) k.buffer time below in
      let t = take_action_lem serf [] a fresh.refines small.0 in
      record {
        file = s;
        recorded = recorded;
        node =
            new_node fl (record o { file = some s.log }) c r (or_new_ping-some fl o.ping).0 k.id
              k.addr;
        starts =
            build-built fl (record o { file = some s.log }) c s.log r (with_file fl s.log k) refl
              reopened;
        well = new_serf-IsWell fl c r k.id k.buffer;
        first = t.after;
        takes = t.returns;
        delivers = first_events (last_action gs) serf a t.after.events fresh small.0 t.events;
        later =
            take_actions-Later (last_action gs) (a ∷ msgs) serf [] fresh.min_time fresh.refines
              (subst (All (IsLater (last_action gs))) (sym fresh.events) tt) small;
      }
