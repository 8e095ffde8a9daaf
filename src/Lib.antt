-- ===== src/Lib.antt =====
-- cserf keeps the members of a cluster, and sends actions and queries through it by gossip. This library
-- models the parts that decide what a node does with a message, an event or a call; the theorems are listed below.
--
-- How the parts interact: a message of the memberlist comes to `handleMsg`, which passes it to the handler
-- of its type. The handlers of actions and queries witness its Lamport time, offer it to the buffer that
-- is there to keep a message from being delivered twice, and hand new ones to the broadcast queue and to the event
-- channel. Events pass the coalescer on their way. Failed and left members are kept until they are reaped.
-- Pings carry network coordinates: the delegate hands each to the node's own coordinate, which moves, and caches
-- it for the requests for round trip times. The RPC server turns requests into calls and streams its log.
--
-- Which file models which source:
--   lamport.go            Clock, Clock/Race: `next` and `witness` are `Next` and `Witness`; `Step` is one atomic
--                         access of a goroutine.
--   buffer.go             Buffer: `LBuffer`, `add_item` and its helpers; Buffer/History is the specification,
--                         Buffer/Agree, Buffer/Refine and Buffer/Delivery relate the two.
--   event.go, action.go,  Messages: the types; Managers: `ActionManager`, `QueryManager` and their methods, the
--   query.go              response handlers and their timers (Managers/Handlers, Managers/Responses).
--   serf.go               Serf: the state of a node, and `Env`, what a call takes from other packages.
--   net_handlers.go       Serf/Net: `handle_msg` and the handlers; Serf/Net/Action and Serf/Net/Accept are about
--                         actions and about the acceptance of queries, Serf/Net/Safety about panics.
--   query.go              Serf/Relay: `respond_to_query_event`, `relay` and `pick_relay_nodes` (Serf/Relay/Picks).
--   action.go, query.go   Serf/Calls: `call_action` is `Action` and `call_query` is `Query`; Serf/Calls/Local is
--                         about actions, Serf/Calls/Oversize about queries that are too large. Serf/Calls/Reach
--                         has `reach_query` and, of key_query.go, `key_query`.
--   inactive.go           Inactive: the lists of failed and left members and their maps; Inactive/Count removes
--                         one entry, Inactive/Index is the invariant, Inactive/Reap is about timeouts and
--                         Inactive/Batch about batches of left members.
--   coalescer.go          Coalescer: `receive` and `flush`; Coalescer/Flush and Coalescer/Repeat.
--   snapshot.go           Snapshot: `record_event`, `compact`, `handle_line` and `new_snapshotter`; Snapshot/Lines,
--                         Snapshot/Replay, Snapshot/Faithful and Snapshot/Record lead to Snapshot/Restart.
--                         Snapshot/Receive is the loop over events, Snapshot/Known says what it leaves known,
--                         and Snapshot/Alive is the shuffle of `AliveNodes`. Decimal has the numerals.
--   event_handlers.go     Filters: filters, stream and script handlers; Filters/Streams and Filters/Parse.
--   key_query.go          Keys: `handle_key_query` and `collect_key_response`; Keys/Truncate and Keys/Collect.
--   user_state_delegate.go  Sync: `local_state` and `merge`; Sync/Replay, Sync/Merging.
--   rpc/server/server.go, Rpc: `members` with its filters (Rpc/Status), and the ring of log lines (Rpc/Logs).
--   rpc/server/log.go     Rpc/Requests has other requests, with cmd/query.go (Rpc/Requests/Flags,
--                         Rpc/Requests/Rtt), and Rpc/Requests/Print the printing of events. Rpc/Streams has
--                         the listeners; Rpc/Streams/Window is about the ring, and
--                         Rpc/Streams/Listen about what a listener gets.
--   serf.go               Lifecycle: `leave`, `shutdown`, `join` and, of rpc/server/server.go, `retry_join`;
--                         Lifecycle/Ending and Lifecycle/Joining. Lifecycle/Tasks has `run_reap` and
--                         `reconnect` of inactive.go.
--   broadcasts.go         Broadcasts: `get_broadcasts` and `max_queue_len`; Broadcasts/Limit.
--   node_events.go        NodeEvents: `handle_node_event`; NodeEvents/Follow.
--   (tests)               Fixtures: the environment that some tests run in.
--   coordinate/           Coordinate: points and vectors; Coordinate/Ring and Coordinate/Node are `latencyRing` and
--                         `Node`. Coordinate/Window is about the ring, Coordinate/Dims about dimensions and the
--                         random vector, Coordinate/Sound and Coordinate/Run about `Relax`.
--   ping_delegate.go      Ping: `payload` and `finish`; Ping/Cache.
--   utils.go, serf.go,    Tags: `tag_map_to_string`, `to_tag_map`, `set_tags` and `stdin_member_data`;
--   event_handlers.go     Tags/RoundTrip, Tags/Order, Tags/Lines and Tags/Publish.
--   serf.go, config.go,   Build: `build` and the default configurations; Build/Later is about runs of actions, and
--   coordinate/config.go  Build/Resume about a node that is built on the file of another.
--   snapshot.go           Snapshot/Tee: the channels of `teeEvents` as a step relation; Snapshot/Tee/Flow. Snapshot/Faults:
--                         `compact` and `try_append` with I/O errors; Snapshot/Faults/Recoverable.
--   rpc/server/config.go  Settings: `bind_iface` (Settings/Bind), and the keyring file of key_query.go
--                         (Settings/Keyring).
--   rpc/server/mdns.go    Rpc/Mdns: the loop `run`; Rpc/Mdns/Found.
--   event_handlers.go     Scripts: `script_cmd` and `invoke_event_script`; Scripts/Environment is about the variables,
--                         Scripts/Answers about the answers to queries.
--   rpc/server/server.go, Rpc/Server: `create_server` and `create_logger`; Rpc/Server/Cleanup. Rpc/Monitor:
--   rpc/server/log.go     `monitor`; Rpc/Monitor/Registrations.
--   rpc/client/client.go, Rpc/Client: `receive_answers` and `should_stop_streaming`; Rpc/Client/Answers.
--   rpc/server/utils.go
--   serf.go               Lifecycle/Race: `Leave` and `Shutdown` of several goroutines; Lifecycle/Race/Panics.
--   cmd/*.go,             Commands: what a command checks, asks and prints, and Commands/Members for those that ask
--   cmd/utils/output.go   for members; Commands/Reach, Commands/Payload and Commands/TagFilters.
--   serf.go               Rpc/Info: `to_members`, `stats` and `serve_info`; Rpc/Info/Listed.
--   rpc/server/server.go  Rpc/Handlers: `serve_key`, `serve_action`, `serve_reach` and `serve_leave`.
--   (no source)           Prelude: numbers, lists, texts and maps that the parts share.
--
-- Conventions. A number is a natural number; a 64-bit or 32-bit addition wraps around (Prelude/Words). Strings
-- and byte slices are lists of bytes, and a slice that may be nil is an option. A map is an association list,
-- and the order in which a `range` goes through it is the order of the list, so a theorem about every list
-- holds for every order. A result `none` of a handler is a run-time panic. Channels and queues keep what was
-- sent to them. Where the source locks a mutex for the whole of a method, the method is one step.
--
-- Fuel and bounds. The loop of `pickRelayNodes` runs on its own bound of three rounds for each node. The retries
-- of `Witness` are steps of a relation, so they need no fuel. `randUnitVector` draws vectors until one is long
-- enough; its fuel is the number of vectors, and any fuel above the round of the first long one is enough.
--
-- Not modelled: the codec, the memberlist, the random source, regular expressions, the clock of the machine and
-- `reflect.DeepEqual` are parameters, and so are the operations on floats, which round: a theorem about
-- coordinates holds for any of them, and a dimension or size in a configuration is not negative. I/O
-- errors are modelled where Snapshot/Faults and Settings name them. Left out are flags, the commands that only
-- write a file or start the server, the transport of the RPC, TLS and generated code.
pub mod Broadcasts
pub mod Buffer
pub mod Build
pub mod Clock
pub mod Coalescer
pub mod Commands
pub mod Coordinate
pub mod Decimal
pub mod Filters
pub mod Fixtures
pub mod Inactive
pub mod Keys
pub mod Lifecycle
pub mod Managers
pub mod Messages
pub mod NodeEvents
pub mod Ping
pub mod Prelude
pub mod Rpc
pub mod Scripts
pub mod Serf
pub mod Settings
pub mod Snapshot
pub mod Sync
pub mod Tags
