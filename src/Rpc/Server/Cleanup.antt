-- ===== src/Rpc/Server/Cleanup.antt =====
-- What the cleanup of `CreateServer` releases.
use cserf.Prelude.{
  ◌≡◌, ◌≢◌, refl, sym, ap, ◌∙◌, append-nil, append_assoc, Bool, true, false, Option, none, some,
  List, [], ◌∷◌, ◌++◌, map, Text, if_both, if◌then◌else◌,
}
use cserf.Build as Build
use cserf.Rpc.Server.{
  ServerConfig, Steps, Resource, syslog_connection, built_part, serf_node, mdns_service, listener,
  grpc_server, Release, shutdown_serf, close_listener, stop_grpc, Creation, Started, serf_failed,
  serf_panicked, serf_started, of_build, create_logger, create_serf, start_listening, start_mdns,
  create_server, combine_cleanup, Writer, failure, serf_error, logger_error, empty_authkey,
  credentials_error, ServerError, logger_resources, with_serf, is_empty,
}

abbrev pub resource_of : Release → Resource
resource_of shutdown_serf = serf_node
resource_of close_listener = listener
resource_of stop_grpc = grpc_server

-- The resources that something can release, the last one first. The connection to syslog, the mDNS service, and a
-- part that a failed `Build` leaves, have no such thing.
abbrev pub to_release : List Resource → List Resource
to_release [] = []
to_release (syslog_connection ∷ rs) = to_release rs
to_release (built_part p ∷ rs) = to_release rs
to_release (mdns_service ∷ rs) = to_release rs
to_release (serf_node ∷ rs) = to_release rs ++ (serf_node ∷ [])
to_release (listener ∷ rs) = to_release rs ++ (listener ∷ [])
to_release (grpc_server ∷ rs) = to_release rs ++ (grpc_server ∷ [])

pub record Releases (c : Creation) : Type 0 where
  pub released : map resource_of c.cleanup ≡ to_release c.acquired

last_of :
    (r : Resource) (xs ys : List Resource)
    → to_release (xs ++ ys) ≡ to_release ys ++ to_release xs
    → to_release (xs ++ ys) ++ (r ∷ []) ≡ to_release ys ++ (to_release xs ++ (r ∷ []))
last_of r xs ys e =
    ap (λ z. z ++ (r ∷ [])) e ∙ append_assoc (to_release ys) (to_release xs) (r ∷ [])

to_release-append : (xs ys : List Resource) → to_release (xs ++ ys) ≡ to_release ys ++ to_release xs
to_release-append [] ys = sym (append-nil (to_release ys))
to_release-append (syslog_connection ∷ xs) ys = to_release-append xs ys
to_release-append (built_part p ∷ xs) ys = to_release-append xs ys
to_release-append (mdns_service ∷ xs) ys = to_release-append xs ys
to_release-append (serf_node ∷ xs) ys = last_of serf_node xs ys (to_release-append xs ys)
to_release-append (listener ∷ xs) ys = last_of listener xs ys (to_release-append xs ys)
to_release-append (grpc_server ∷ xs) ys = last_of grpc_server xs ys (to_release-append xs ys)

to_release-parts : (ps : List Build.Part) → to_release (map built_part ps) ≡ []
to_release-parts [] = refl
to_release-parts (p ∷ ps) = to_release-parts ps

to_release-logger : (facility : Text) → to_release (logger_resources facility) ≡ []
to_release-logger [] = refl
to_release-logger (c ∷ cs) = refl

behind_logger :
    (facility : Text) (rs : List Resource)
    → to_release (logger_resources facility ++ rs) ≡ to_release rs
behind_logger facility rs =
    to_release-append (logger_resources facility) rs
    ∙ ap (λ z. to_release rs ++ z) (to_release-logger facility)
    ∙ append-nil (to_release rs)

start_listening-Releases :
    (fails : Bool) (rs : List Resource)
    → to_release rs ≡ serf_node ∷ []
    → Releases (start_listening fails rs)
unfolding start_listening combine_cleanup
start_listening-Releases true rs e = record { released = sym e }
start_listening-Releases false rs e = record {
  released =
      sym (
        to_release-append rs (listener ∷ grpc_server ∷ [])
        ∙ ap (λ z. grpc_server ∷ listener ∷ z) e);
}

start_mdns-Releases :
    {M : Type 0} (st : Steps) (conf : ServerConfig M) (rs : List Resource)
    → to_release rs ≡ serf_node ∷ []
    → Releases (start_mdns st conf rs)
unfolding start_mdns
start_mdns-Releases st conf rs e =
    if_both Releases (is_empty conf.cluster_name) (start_listening-Releases st.listen_fails rs e) (
      if_both Releases st.mdns_fails (record { released = sym e })
        (start_listening-Releases st.listen_fails (rs ++ (mdns_service ∷ []))
          (to_release-append rs (mdns_service ∷ []) ∙ e)))

-- A start that returns, with a cleanup that releases what it can.
pub record Cleans (o : Option Creation) : Type 0 where
  pub made : Creation
  pub returns : o ≡ some made
  pub cleans : Releases made

-- What a failed `createSerf` leaves running.
abbrev left_by : Started → List Resource
left_by (serf_failed rs) = rs
left_by serf_panicked = []
left_by (serf_started joins retries) = []

abbrev IsUnreleased : Started → Type 0
IsUnreleased o = to_release (left_by o) ≡ []

of_build-IsUnreleased :
    (joins retries : List Text) (b : Build.Outcome {0} Unit)
    → IsUnreleased (of_build joins retries b)
of_build-IsUnreleased joins retries (Build.built _) = refl
of_build-IsUnreleased joins retries (Build.failed _ parts) = to_release-parts parts
of_build-IsUnreleased joins retries Build.panicked = refl

create_serf-IsUnreleased :
    {M : Type 0} (st : Steps) (conf : ServerConfig M) → IsUnreleased (create_serf st conf)
unfolding create_serf
create_serf-IsUnreleased st conf = by_config conf.serf_config
  where
    by_config :
        (o : Option Build.Config)
        → IsUnreleased (elim o [
          | none ↦ serf_panicked
          | some c ↦
              if st.keyring_fails
              then serf_failed []
              else of_build conf.start_join conf.retry_joins st.build
        ])
    by_config none = refl
    by_config (some c) =
        if_both IsUnreleased st.keyring_fails refl
          (of_build-IsUnreleased conf.start_join conf.retry_joins st.build)

with_serf-Cleans :
    {M : Type 0} (st : Steps) (conf : ServerConfig M) (o : Started)
    → IsUnreleased o
    → o ≢ serf_panicked
    → Cleans (with_serf st conf (logger_resources conf.syslog_facility) o)
unfolding with_serf
with_serf-Cleans st conf (serf_failed rs) e runs = record {
  made = failure serf_error [] (logger_resources conf.syslog_facility ++ rs);
  returns = refl;
  cleans = record { released = sym (behind_logger conf.syslog_facility rs ∙ e) };
}
with_serf-Cleans st conf serf_panicked e runs = absurd (runs refl)
with_serf-Cleans st conf (serf_started joins retries) e runs = record {
  made = start_mdns st conf (logger_resources conf.syslog_facility ++ (serf_node ∷ []));
  returns = refl;
  cleans =
      start_mdns-Releases st conf (logger_resources conf.syslog_facility ++ (serf_node ∷ []))
        (behind_logger conf.syslog_facility (serf_node ∷ []));
}

logger-Cleans :
    {M : Type 0} (st : Steps) (conf : ServerConfig M) (o : Option (List Writer))
    → create_serf st conf ≢ serf_panicked
    → Cleans (elim o [
      | none ↦ some (failure logger_error [] [])
      | some ws ↦ with_serf st conf (logger_resources conf.syslog_facility) (create_serf st conf)
    ])
logger-Cleans st conf none runs = record {
  made = failure logger_error [] [];
  returns = refl;
  cleans = record { released = refl };
}
logger-Cleans st conf (some ws) runs =
    with_serf-Cleans st conf (create_serf st conf) (create_serf-IsUnreleased st conf) runs

refusal : (e : ServerError) → Cleans (some (failure e [] []))
refusal e = record { made = failure e [] []; returns = refl; cleans = record { released = refl } }

-- Whichever step of `CreateServer` fails, and also if none does, it returns a cleanup that releases everything that
-- was acquired until then, each once and the last one first: but for the connection to syslog, the mDNS service
-- and the parts that a failed `Build` has started, which nothing ever stops. The condition is that `createSerf` does
-- not panic, as it does without a configuration of the node.
pub create_server_lem :
    {M : Type 0} (st : Steps) (conf : ServerConfig M)
    → create_serf st conf ≢ serf_panicked
    → Cleans (create_server st (some conf))
unfolding create_server
create_server_lem st conf runs =
    if_both Cleans (is_empty conf.auth_key_hash) (refusal empty_authkey) (
      if_both Cleans st.credentials_fail (refusal credentials_error) (
        logger-Cleans st conf
          (create_logger st.upper st.syslog_fails conf.log_level conf.syslog_facility) runs))
