-- ===== src/Rpc/Monitor.antt =====
-- `Monitor` of rpc/server/server.go: a client that watches events and log lines. The stream is a parameter: with
-- each input comes whether sending it fails.
pub mod Registrations
mod Tests
use cserf.Prelude.{
  ℕ, Bool, true, false, Option, none, some, List, [], ◌∷◌, Text, nat_key, put, if◌then◌else◌,
}
use cserf.Messages.{Event}
use cserf.Filters as Filters
use cserf.Filters.{StreamManager, create_stream_handler}
use cserf.Rpc.Streams as Streams
use cserf.Rpc.Streams.{LogStreamManager, LogStreamer, new_log_streamer}
use cserf.Rpc.Requests.Print.{Printer, event_to_string}
use cserf.Rpc.Client.{StreamError, should_stop_streaming}

-- What the loop receives: the end of the stream's context, an event, or a log line.
pub data Input : Type 0 where
  on_done : Input
  on_event : Event → Option StreamError → Input
  on_log : Text → Option StreamError → Input

-- How the loop ends, if it does.
pub data Ending : Type 0 where
  graceful : Ending
  stopped : StreamError → Ending
  running : Ending

abbrev pub Sending : Type 0
Sending = List Text × Ending

-- `sendStr` and the test of its result: an error that is not one to stop at is only logged.
unfoldable pub send_str : Text → Option StreamError → Sending → Sending
unfolding should_stop_streaming
send_str t none (sent, end) = (t ∷ sent, end)
send_str t (some err) rest = if should_stop_streaming err then ([], stopped err) else rest

-- The loop of `Monitor`: the texts that were sent, and its end.
unfoldable pub monitor_loop : Printer → List Input → Sending
unfolding send_str
monitor_loop pr [] = ([], running)
monitor_loop pr (on_done ∷ more) = ([], graceful)
monitor_loop pr (on_event e err ∷ more) = send_str (event_to_string pr e) err (monitor_loop pr more)
monitor_loop pr (on_log l err ∷ more) = send_str l err (monitor_loop pr more)

-- `StartStreamEvents` and `StopStreamEvents` of serf.go, at the handler `h`.
unfoldable pub start_stream_events : StreamManager → ℕ → ℕ → Text → StreamManager
start_stream_events m h capacity filter =
    Filters.register (record m { store = put m.store h (create_stream_handler capacity filter) }) h

unfoldable pub stop_stream_events : StreamManager → ℕ → StreamManager
stop_stream_events m h = Filters.deregister m h

-- The managers of the server and the node, with what the request has sent. `valid` is whether the log level is.
pub record Monitored : Type 0 where
  pub events : StreamManager
  pub logs : LogStreamManager
  pub valid : Bool
  pub sent : List Text
  pub ending : Ending

-- The capacity of both channels.
abbrev pub channel_size : ℕ
channel_size = 1024

-- `Monitor` from `newLogStreamer` on, with the handler `h` registered. `meanwhile` is what happens to the
-- managers while the loop runs.
unfoldable pub monitor_logs :
    Printer
    → (StreamManager → StreamManager)
    → (LogStreamManager → LogStreamManager)
    → StreamManager
    → LogStreamManager
    → ℕ
    → ℕ
    → List Input
    → Option LogStreamer
    → Monitored
unfolding stop_stream_events monitor_loop
monitor_logs pr to_events to_logs events logs h l inputs none = record {
  events = stop_stream_events events h;
  logs = logs;
  valid = false;
  sent = [];
  ending = graceful;
}
monitor_logs pr to_events to_logs events logs h l inputs (some ls) = record {
  events = stop_stream_events (to_events events) h;
  logs = Streams.deregister (to_logs (Streams.register logs l ls)) l;
  valid = true;
  sent = (monitor_loop pr inputs).0;
  ending = (monitor_loop pr inputs).1;
}

-- `Monitor`: the deferred calls run in every case. `upper` and `filter` are those of `newLogStreamer`.
unfoldable pub monitor :
    Printer
    → (Text → Text)
    → (Text → Text → Bool)
    → (StreamManager → StreamManager)
    → (LogStreamManager → LogStreamManager)
    → StreamManager
    → LogStreamManager
    → ℕ
    → ℕ
    → Text
    → Text
    → List Input
    → Monitored
unfolding monitor_logs start_stream_events new_log_streamer
monitor pr upper filter to_events to_logs events logs h l event_filter level inputs =
    monitor_logs pr to_events to_logs (start_stream_events events h channel_size event_filter) logs
      h l inputs (new_log_streamer upper filter channel_size level)
