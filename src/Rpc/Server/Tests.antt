-- ===== src/Rpc/Server/Tests.antt =====
-- A server that cannot listen, and one whose node cannot be built.
use cserf.Prelude.{ℕ, ◌≡◌, ◌≢◌, refl, arith, true, false, some, [], ◌∷◌, bytes}
use cserf.Build as Build
use cserf.Rpc.Streams.{is_valid_level}
use cserf.Rpc.Server.{
  ServerConfig, Steps, syslog_connection, built_part, serf_node, mdns_service, failure, serf_error,
  listen_error, shutdown_serf, create_server, default_server_config, create_logger, create_serf,
  serf_panicked, start_mdns, start_listening, with_serf,
}
use cserf.Rpc.Server.Cleanup.{Cleans, create_server_lem}

abbrev steps : Steps
steps = record {
  credentials_fail = false;
  syslog_fails = false;
  keyring_fails = false;
  build = Build.built tt;
  mdns_fails = false;
  listen_fails = true;
  upper = λ t. t;
}

abbrev config : ServerConfig ℕ
config = record (default_server_config 7) {
  auth_key_hash = bytes "x";
  cluster_name = bytes "c";
  syslog_facility = bytes "local0";
}

runs : create_serf steps config ≢ serf_panicked
unfolding create_serf default_server_config
runs e = ground (arith, e)

create_server_lem_example : Cleans (create_server steps (some config))
create_server_lem_example = create_server_lem steps config runs

-- The mDNS service and the connection to syslog stay.
leaks :
    create_server steps (some config)
    ≡ some (
        failure listen_error
          (shutdown_serf ∷ [])
          (syslog_connection ∷ serf_node ∷ mdns_service ∷ []))
unfolding create_server default_server_config create_logger is_valid_level create_serf start_mdns
    start_listening with_serf
leaks = refl

-- After an error of the memberlist, two parts of the node keep running, and the cleanup does nothing.
unbuilt :
    create_server
      (record steps {
        build =
            Build.failed Build.BuildError.memberlist_error
              (Build.snapshotter ∷ Build.coalescer ∷ []);
      })
      (some config)
    ≡ some (
        failure serf_error []
          (syslog_connection ∷ built_part Build.snapshotter ∷ built_part Build.coalescer ∷ []))
unfolding create_server default_server_config create_logger is_valid_level create_serf with_serf
unbuilt = refl
