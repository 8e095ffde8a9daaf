-- ===== src/Rpc/Server.antt =====
-- How the RPC server starts, `CreateServer` of rpc/server/server.go, with its logger of rpc/server/log.go and
-- its configuration. What a step makes is a parameter here, and only whether it fails matters, and what it
-- then leaves running: the parts themselves are in Build, Settings and Rpc/Mdns.
pub mod Cleanup
mod Tests
use cserf.Prelude.{
  ℕ, Bool, true, false, Option, none, some, List, [], ◌∷◌, ◌++◌, map, Text, bytes, if◌then◌else◌,
}
use cserf.Build as Build
use cserf.Rpc.Streams.{is_valid_level}

-- `ServerConfig`; `M` is the memberlist's configuration.
pub record ServerConfig (M : Type 0) : Type 0 where
  pub rpc_address : Text
  pub rpc_port : ℕ
  pub log_output : Text
  pub log_prefix : Text
  pub log_level : Text
  pub syslog_facility : Text
  pub cert_path : Text
  pub key_path : Text
  pub auth_key_hash : Text
  pub cluster_name : Text
  pub net_interface : Text
  pub ignore_old : Bool
  pub start_join : List Text
  pub retry_joins : List Text
  pub retry_join_max : ℕ
  pub retry_join_interval : ℕ
  pub memberlist_config : Option M
  pub serf_config : Option Build.Config

-- `DefaultServerConfig`; `lan` is the memberlist's `DefaultLANConfig`.
unfoldable pub default_server_config : {M : Type 0} → M → ServerConfig M
default_server_config lan = record {
  rpc_address = bytes "0.0.0.0";
  rpc_port = 50051;
  log_output = [];
  log_prefix = [];
  log_level = bytes "INFO";
  syslog_facility = [];
  cert_path = bytes "./cert.pem";
  key_path = bytes "./priv.key";
  auth_key_hash = [];
  cluster_name = [];
  net_interface = [];
  ignore_old = false;
  start_join = [];
  retry_joins = [];
  retry_join_max = 0;
  retry_join_interval = 0;
  memberlist_config = some lan;
  serf_config = some Build.default_config;
}

-- The writers that the lines of the log go to.
pub data Writer : Type 0 where
  output_filter syslog_filter log_streams : Writer

abbrev pub is_empty : Text → Bool
is_empty [] = true
is_empty (c ∷ cs) = false

-- `createLogger`; `upper` is `strings.ToUpper`.
unfoldable pub create_logger : (Text → Text) → Bool → Text → Text → Option (List Writer)
unfolding is_valid_level
create_logger upper syslog_fails level facility =
    if is_valid_level (upper level)
    then (if is_empty facility
        then some (output_filter ∷ log_streams ∷ [])
        else if syslog_fails
        then none
        else some (output_filter ∷ syslog_filter ∷ log_streams ∷ []))
    else none

-- How the steps go. `build` is what `Build` returns.
pub record Steps : Type 0 where
  pub credentials_fail : Bool
  pub syslog_fails : Bool
  pub keyring_fails : Bool
  pub build : Build.Outcome {0} Unit
  pub mdns_fails : Bool
  pub listen_fails : Bool
  pub upper : Text → Text

-- What runs or is open: the connection of the logger to syslog, a part that `Build` has started, and so on.
pub data Resource : Type 0 where
  syslog_connection : Resource
  built_part : Build.Part → Resource
  serf_node mdns_service listener grpc_server : Resource

-- What a cleanup calls, in this order.
pub data Release : Type 0 where
  shutdown_serf close_listener stop_grpc : Release

-- `CombineCleanup`
unfoldable pub combine_cleanup : List (List Release) → List Release
combine_cleanup [] = []
combine_cleanup (f ∷ fs) = f ++ combine_cleanup fs

pub data ServerError : Type 0 where
  nil_config empty_authkey credentials_error logger_error serf_error mdns_error listen_error :
      ServerError

pub record Creation : Type 0 where
  pub error : Option ServerError
  pub cleanup : List Release
  pub acquired : List Resource

-- What `createSerf` comes to: an error, with what still runs; a panic; or a node, with the hosts that are joined at
-- once, and those that are tried again later.
pub data Started : Type 0 where
  serf_failed : List Resource → Started
  serf_panicked : Started
  serf_started : List Text → List Text → Started

abbrev pub of_build : List Text → List Text → Build.Outcome {0} Unit → Started
of_build joins retries (Build.built _) = serf_started joins retries
of_build joins retries (Build.failed e parts) = serf_failed (map built_part parts)
of_build joins retries Build.panicked = serf_panicked

-- `createSerf`; a nil `SerfConfig` is read for the keyring file.
unfoldable pub create_serf : {M : Type 0} → Steps → ServerConfig M → Started
create_serf st conf = elim conf.serf_config [
  | none ↦ serf_panicked
  | some c ↦
      if st.keyring_fails
      then serf_failed []
      else of_build conf.start_join conf.retry_joins st.build
]

abbrev pub failure : ServerError → List Release → List Resource → Creation
failure e cleanup acquired = record { error = some e; cleanup = cleanup; acquired = acquired }

-- The end of `CreateServer`, from `net.Listen` on.
unfoldable pub start_listening : Bool → List Resource → Creation
unfolding combine_cleanup
start_listening fails acquired =
    if fails then failure listen_error (shutdown_serf ∷ []) acquired else record {
      error = none;
      cleanup = combine_cleanup (
          (stop_grpc ∷ [])
          ∷ combine_cleanup ((close_listener ∷ []) ∷ (shutdown_serf ∷ []) ∷ [])
          ∷ []);
      acquired = acquired ++ (listener ∷ grpc_server ∷ []);
    }

unfoldable pub start_mdns : {M : Type 0} → Steps → ServerConfig M → List Resource → Creation
unfolding start_listening
start_mdns st conf acquired =
    if is_empty conf.cluster_name
    then start_listening st.listen_fails acquired
    else if st.mdns_fails
    then failure mdns_error (shutdown_serf ∷ []) acquired
    else start_listening st.listen_fails (acquired ++ (mdns_service ∷ []))

-- `createLogger` opens a connection if there is a facility.
abbrev pub logger_resources : Text → List Resource
logger_resources facility = if is_empty facility then [] else syslog_connection ∷ []

unfoldable pub with_serf :
    {M : Type 0} → Steps → ServerConfig M → List Resource → Started → Option Creation
unfolding start_mdns
with_serf st conf acquired (serf_failed rs) = some (failure serf_error [] (acquired ++ rs))
with_serf st conf acquired serf_panicked = none
with_serf st conf acquired (serf_started joins retries) =
    some (start_mdns st conf (acquired ++ (serf_node ∷ [])))

-- `none` is a panic.
unfoldable pub create_server : {M : Type 0} → Steps → Option (ServerConfig M) → Option Creation
unfolding with_serf create_logger create_serf
create_server st none = some (failure nil_config [] [])
create_server st (some conf) =
    if is_empty conf.auth_key_hash
    then some (failure empty_authkey [] [])
    else if st.credentials_fail
    then some (failure credentials_error [] [])
    else elim (create_logger st.upper st.syslog_fails conf.log_level conf.syslog_facility) [
      | none ↦ some (failure logger_error [] [])
      | some ws ↦ with_serf st conf (logger_resources conf.syslog_facility) (create_serf st conf)
    ]
