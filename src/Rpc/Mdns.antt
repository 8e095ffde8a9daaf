-- ===== src/Rpc/Mdns.antt =====
-- rpc/server/mdns.go: hosts of the cluster that are found in the local network are joined. The mDNS library
-- and the printing of addresses are parameters: a result comes as its address and port already joined.
pub mod Found
mod Tests
use cserf.Prelude.{
  Bool, true, false, Option, none, some, List, [], ◌∷◌, ◌++◌, Text, bytes, text_key, Dict, get, put,
  if◌then◌else◌,
}

-- `ClusterMDNS` with the variables of `run`: `waiting` is whether the timer `waitCh` runs. `joined` are the
-- calls of `Join`, by the hosts they are given, and `polls` those of `poll`, by the service that they ask for.
pub record ClusterMdns : Type 0 where
  pub cluster_name : Text
  pub seen : Dict Text (Unit {0})
  pub join : List Text
  pub waiting : Bool
  pub joined : List (List Text)
  pub polls : List Text

-- `NewClusterMDNS` at the node's own address.
unfoldable pub new_cluster_mdns : Text → Text → ClusterMdns
new_cluster_mdns cluster_name own = record {
  cluster_name = cluster_name;
  seen = put [] own tt;
  join = [];
  waiting = false;
  joined = [];
  polls = [];
}

unfoldable pub to_mdns_name : Text → Text
to_mdns_name name = bytes "_serf_" ++ (name ++ bytes "._tcp")

-- What the loop of `run` receives: a result, the end of the waiting time, the time for the next poll.
pub data Signal : Type 0 where
  on_result : Text → Signal
  on_wait on_poll : Signal

abbrev pub add_host : ClusterMdns → Text → Option (Unit {0}) → ClusterMdns
add_host m addr (some u) = m
add_host m addr none = record m {
  seen = put m.seen addr tt;
  join = m.join ++ (addr ∷ []);
  waiting = true;
}

abbrev pub join_hosts : ClusterMdns → List Text → ClusterMdns
join_hosts m [] = m
join_hosts m (h ∷ hs) = record m { joined = m.joined ++ ((h ∷ hs) ∷ []) }

-- A turn of the loop. The timer sends once; `join` is not emptied.
unfoldable pub run_one : ClusterMdns → Signal → ClusterMdns
unfolding to_mdns_name
run_one m (on_result addr) = add_host m addr (get m.seen addr)
run_one m on_wait = if m.waiting then join_hosts (record m { waiting = false }) m.join else m
run_one m on_poll = record m { polls = m.polls ++ (to_mdns_name m.cluster_name ∷ []) }

unfoldable pub run : ClusterMdns → List Signal → ClusterMdns
unfolding run_one
run m [] = m
run m (g ∷ gs) = run (run_one m g) gs
