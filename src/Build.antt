-- ===== src/Build.antt =====
-- `Build` of serf.go, which puts a node together, with the default configurations of config.go and
-- coordinate/config.go. The file system, the codec and the memberlist are parameters. The goroutines that
-- `Build` starts are not run here: the parts they run are the components that the node holds.
pub mod Later
pub mod Resume
mod Tests
use cserf.Prelude.{
  ℕ, ◌*◌, ◌^◌, Bool, true, false, Option, none, some, List, [], ◌∷◌, Text, bytes, Dict, ltb,
  if◌then◌else◌, add64,
}
use cserf.Coordinate.{Floats}
use cserf.Coordinate as Coord
use cserf.Ping.{PingDelegate, new_ping_delegate, set_id}
use cserf.Managers.{ActionManager, new_action_manager, new_query_manager, set_action_min_time}
use cserf.Inactive.{new_inactive_nodes}
use cserf.Serf.{Serf}
use cserf.Sync.{UserState}
use cserf.Coalescer.{Coalescer}
use cserf.Filters.{ScriptManager, StreamManager, create_script_handlers, update}
use cserf.Tags.{encode_tags}
use cserf.Snapshot.{Snapshotter, new_snapshotter}
use cserf.Snapshot.Alive.{alive_nodes}
use cserf.Lifecycle.{Life, NodeIdAddr, new_life}

-- `Config`. Times are in nanoseconds.
pub record Config : Type 0 where
  pub event_script : Text
  pub l_buffer_size : ℕ
  pub relay_factor : ℕ
  pub query_timeout_mult : ℕ
  pub query_response_size_limit : ℕ
  pub query_size_limit : ℕ
  pub action_size_limit : ℕ
  pub snapshot_path : Text
  pub snapshot_min_compact_size : ℕ
  pub snapshot_drain_timeout : ℕ
  pub coalesce_interval : ℕ
  pub keyring_file : Text
  pub reap_interval : ℕ
  pub reconnect_interval : ℕ
  pub reconnect_timeout : ℕ
  pub tombstone_timeout : ℕ
  pub max_queue_depth : ℕ
  pub min_queue_depth : ℕ
  pub manage_queue_depth_interval : ℕ
  pub dns_config_path : Text
  pub tags : Option (Dict Text Text)

abbrev pub seconds : ℕ → ℕ
seconds n = n * 1000000000

-- `DefaultConfig` of config.go; the fields that it leaves out are zero.
abbrev pub default_config : Config
default_config = record {
  event_script = [];
  l_buffer_size = 512;
  relay_factor = 0;
  query_timeout_mult = 16;
  query_response_size_limit = 1024;
  query_size_limit = 1024;
  action_size_limit = 512;
  snapshot_path = bytes "./serf.snap";
  snapshot_min_compact_size = 128 * 1024;
  snapshot_drain_timeout = 500 * 1000000;
  coalesce_interval = seconds 1;
  keyring_file = [];
  reap_interval = seconds 15;
  reconnect_interval = seconds 30;
  reconnect_timeout = seconds (24 * 3600);
  tombstone_timeout = seconds (24 * 3600);
  max_queue_depth = 4096;
  min_queue_depth = 0;
  manage_queue_depth_interval = seconds 30;
  dns_config_path = [];
  tags = some [];
}

-- `MaxActionSizeLimit`
abbrev pub max_action_size_limit : ℕ
max_action_size_limit = 9 * 1024

pub data BuildError : Type 0 where
  action_size_limit_exceed : BuildError
  snapshot_error : BuildError
  encode_error : BuildError
  ping_error : BuildError
  memberlist_error : BuildError
  address_error : BuildError

-- What keeps running when `Build` returns an error: it closes nothing that it has opened.
pub data Part : Type 0 where
  snapshotter coalescer memberlist : Part

pub data Outcome {ℓ} (A : Type ℓ) : Type ℓ where
  built : A → Outcome A
  failed : BuildError → List Part → Outcome A
  panicked : Outcome A

infixl 5 ◌>>=◌ ◌>>◌
abbrev pub ◌>>=◌ {ℓ κ} : {A : Type ℓ} {B : Type κ} → Outcome A → (A → Outcome B) → Outcome B
built a >>= f = f a
failed e parts >>= f = failed e parts
panicked >>= f = panicked

abbrev pub ◌>>◌ {ℓ} : {B : Type ℓ} → Outcome (Unit {0}) → Outcome B → Outcome B
m >> k = m >>= λ _. k

abbrev pub or_fail {ℓ} : {A : Type ℓ} → Option A → BuildError → List Part → Outcome A
or_fail none e parts = failed e parts
or_fail (some a) e parts = built a

module _ (fl : Floats) where
  open fl use {Float}

  -- `DefaultConfig` of coordinate/config.go. The quotients are the literals of the source: a quotient of two
  -- whole numbers is rounded as its literal is.
  unfoldable pub default_coordinate_config : Coord.Config Float
  default_coordinate_config = record {
    dimensionality = 8;
    vivaldi_error_max = fl.div (fl.from_ℕ 3) (fl.from_ℕ 2);
    vivaldi_ce = fl.div (fl.from_ℕ 1) (fl.from_ℕ 4);
    vivaldi_cc = fl.div (fl.from_ℕ 1) (fl.from_ℕ 4);
    adjustment_window_size = 20;
    height_min = fl.div (fl.from_ℕ 1) (fl.from_ℕ 100000);
    latency_filter_size = 3;
    gravity_rho = fl.from_ℕ 150;
  }

  -- What one call of `Build` takes from outside: the text of the snapshot file, none if it cannot be opened;
  -- the codec of tags; the ping delegate given to the builder; the memberlist, by its id, none if it cannot be
  -- built with these tags; its advertised address; and the random numbers of the shuffle.
  pub record Outside : Type 0 where
    pub file : Option Text
    pub codec : Dict Text Text → Option Text
    pub ping : Option (PingDelegate fl)
    pub build_memberlist : Text → Option Text
    pub advertise : Option Text
    pub draw : ℕ → ℕ

  -- The parts of a node that `Build` makes. `user` holds the state that the message handlers share.
  pub record Node : Type 0 where
    pub user : UserState
    pub snapshot : Snapshotter
    pub prev : List NodeIdAddr
    pub coalescer : Coalescer
    pub scripts : ScriptManager
    pub streams : StreamManager
    pub ping : PingDelegate fl
    pub life : Life

  -- `NewSnapshotter`, as `Build` calls it.
  unfoldable pub open_snapshot : Outside → Config → Outcome Snapshotter
  open_snapshot o c = elim o.file [
    | none ↦ failed BuildError.snapshot_error []
    | some log ↦ elim (new_snapshotter c.snapshot_min_compact_size log) [
      | none ↦ panicked
      | some s ↦ built s
    ]
  ]

  abbrev pub or_no_tags : Option (Dict Text Text) → Dict Text Text
  or_no_tags none = []
  or_no_tags (some m) = m

  abbrev pub or_new_ping : Option (PingDelegate fl) → Option (PingDelegate fl)
  or_new_ping none = new_ping_delegate fl default_coordinate_config
  or_new_ping (some p) = some p

  unfoldable pub new_scripts : Config → ScriptManager
  new_scripts c =
      update (record { handlers = []; new_handlers = []; invoked = [] })
        (create_script_handlers c.event_script)

  unfoldable pub new_actions : Config → Snapshotter → ActionManager
  new_actions c s =
      set_action_min_time (new_action_manager c.l_buffer_size) (add64 s.last_action_clock 1)

  unfoldable pub new_serf : Config → Snapshotter → Text → Serf
  unfolding new_actions
  new_serf c s id = record {
    id = id;
    tags = or_no_tags c.tags;
    action_size_limit = c.action_size_limit;
    query_size_limit = c.query_size_limit;
    query_response_size_limit = c.query_response_size_limit;
    action = new_actions c s;
    query = new_query_manager c.l_buffer_size;
    events = [];
    action_broadcasts = [];
    query_broadcasts = [];
    sent = [];
  }

  unfoldable pub new_node : Outside → Config → Snapshotter → PingDelegate fl → Text → Text → Node
  unfolding new_serf new_scripts
  new_node o c s p id addr = record {
    user = record {
      addr = addr;
      serf = new_serf c s id;
      inactive = new_inactive_nodes c.reconnect_timeout c.tombstone_timeout;
      joining = [];
      ignore_act_on_join = [];
    };
    snapshot = s;
    prev = alive_nodes o.draw s;
    coalescer = record { new_events = []; old_events = []; out = [] };
    scripts = new_scripts c;
    streams = record { store = []; handler_map = []; handler_list = [] };
    ping = set_id fl p id;
    life = new_life;
  }

  unfoldable pub build : Outside → Config → Outcome Node
  unfolding open_snapshot new_node
  build o c = do
    (if ltb max_action_size_limit c.action_size_limit
        then failed BuildError.action_size_limit_exceed []
        else built tt)
    s ← open_snapshot o c
    tags ←
        or_fail (encode_tags o.codec (or_no_tags c.tags)) BuildError.encode_error
          (snapshotter ∷ coalescer ∷ [])
    p ← or_fail (or_new_ping o.ping) BuildError.ping_error (snapshotter ∷ coalescer ∷ [])
    id ←
        or_fail (o.build_memberlist tags) BuildError.memberlist_error (snapshotter ∷ coalescer ∷ [])
    addr ← or_fail o.advertise BuildError.address_error (snapshotter ∷ coalescer ∷ memberlist ∷ [])
    built (new_node o c s p id addr)
