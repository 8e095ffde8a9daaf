-- ===== src/Rpc/Monitor/Tests.antt =====
-- A client that watches a line and is gone.
use cserf.Prelude.{◌≡◌, refl, true, some, none, List, [], ◌∷◌, bytes, get, nat_key}
use cserf.Filters.{StreamManager}
use cserf.Rpc.Streams.{new_log_stream_manager}
use cserf.Rpc.Requests.Print.{Printer}
use cserf.Rpc.Client.{StreamError, should_stop_streaming}
use cserf.Rpc.Monitor.{Input, on_log, Ending, monitor, monitor_loop, send_str}
use cserf.Rpc.Monitor.Registrations.{Restored, monitor-Restored}

abbrev printer : Printer
printer = record {
  codec = λ t. none;
  udp_address = λ n. n.id;
  show_ip = λ t. t;
  join_host_port = λ ip port. ip;
}

abbrev no_events : StreamManager
no_events = record { store = []; handler_map = []; handler_list = [] }

abbrev inputs : List Input
inputs =
    on_log (bytes "a") none
    ∷ on_log (bytes "b") (some StreamError.other)
    ∷ on_log (bytes "c") none
    ∷ on_log (bytes "d") (some StreamError.unavailable)
    ∷ on_log (bytes "e") none
    ∷ []

nobody_listens : get new_log_stream_manager.streamer_map 4 ≡ none
unfolding get new_log_stream_manager
nobody_listens = refl

monitor-Restored_example : Restored no_events new_log_stream_manager (
    monitor printer
      (λ t. t)
      (λ f l. true)
      (λ m. m)
      (λ m. m)
      no_events
      new_log_stream_manager
      3
      4
      (bytes "*")
      (bytes "INFO")
      inputs)
unfolding get
monitor-Restored_example =
    monitor-Restored (λ m. m) (λ m. m) (λ m k. refl) (λ m k. refl) no_events new_log_stream_manager
      3 4 refl nobody_listens printer (λ t. t) (λ f l. true) (bytes "*") (bytes "INFO") inputs

-- An error that is not one to stop at is passed over.
sent :
    monitor_loop printer inputs
    ≡ (bytes "a" ∷ bytes "c" ∷ [], Ending.stopped StreamError.unavailable)
unfolding monitor_loop send_str should_stop_streaming
sent = refl
