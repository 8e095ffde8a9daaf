-- ===== src/Rpc/Monitor/Registrations.antt =====
-- What a request to watch leaves of its registrations.
use cserf.Prelude.{
  ℕ, ◌≡◌, refl, ap, Bool, true, false, Option, none, some, List, Text, nat_key, get, get-put,
  get-remove, nat_eq_iff, arith,
}
use cserf.Filters as Filters
use cserf.Filters.{StreamManager}
use cserf.Rpc.{dump}
use cserf.Rpc.Streams as Streams
use cserf.Rpc.Streams.{LogStreamManager, LogStreamer}
use cserf.Rpc.Requests.Print.{Printer}
use cserf.Rpc.Monitor.{
  Input, Monitored, monitor, monitor_logs, channel_size, start_stream_events, stop_stream_events,
}

abbrev pub is_registered {ℓ} : {A : Type ℓ} → Option A → Bool
is_registered none = false
is_registered (some a) = true

-- The same handlers and listeners are registered as before.
pub record Restored (events : StreamManager) (logs : LogStreamManager) (m : Monitored)
    : Type 0 where
  pub handlers : (k : ℕ) → get m.events.handler_map k ≡ get events.handler_map k
  pub listeners :
      (k : ℕ) → is_registered (get m.logs.streamer_map k) ≡ is_registered (get logs.streamer_map k)

module _ (to_events : StreamManager → StreamManager) (to_logs : LogStreamManager → LogStreamManager)
    (events_stay : (m : StreamManager) (k : ℕ)
      → get (to_events m).handler_map k ≡ get m.handler_map k)
    (logs_stay : (m : LogStreamManager) (k : ℕ)
      → is_registered (get (to_logs m).streamer_map k) ≡ is_registered (get m.streamer_map k))
    (events : StreamManager) (logs : LogStreamManager) (h l : ℕ)
    (new_handler : get events.handler_map h ≡ none)
    (new_listener : get logs.streamer_map l ≡ none) where
  handlers-stop :
      (filter : Text) (m : StreamManager) (k : ℕ)
      → get m.handler_map k ≡ get (start_stream_events events h channel_size filter).handler_map k
      → get (stop_stream_events m h).handler_map k ≡ get events.handler_map k
  unfolding start_stream_events stop_stream_events Filters.register Filters.deregister
  handlers-stop filter m k e = ground (
    arith,
    e,
    get-remove m.handler_map h k,
    get-put events.handler_map h k tt,
    new_handler,
    nat_eq_iff h k,
    ap (λ j. get events.handler_map j) {x = h} {y = k},
  )

  listeners-stop :
      (ls : LogStreamer) (k : ℕ)
      → is_registered
          (get (Streams.deregister (to_logs (Streams.register logs l ls)) l).streamer_map k)
        ≡ is_registered (get logs.streamer_map k)
  unfolding Streams.register Streams.deregister
  listeners-stop ls k = ground (
    arith,
    get-remove (to_logs (Streams.register logs l ls)).streamer_map l k,
    logs_stay (Streams.register logs l ls) k,
    get-put logs.streamer_map l k (Streams.stream_each ls (dump logs.buf)),
    new_listener,
    nat_eq_iff l k,
    ap (λ j. get logs.streamer_map j) {x = l} {y = k},
  )

  monitor_logs-Restored :
      (pr : Printer) (filter : Text) (inputs : List Input) (o : Option LogStreamer)
      → Restored events logs (
          monitor_logs pr to_events to_logs
            (start_stream_events events h channel_size filter)
            logs
            h
            l
            inputs
            o)
  unfolding monitor_logs
  monitor_logs-Restored pr filter inputs none = record {
    handlers = λ k. handlers-stop filter (start_stream_events events h channel_size filter) k refl;
    listeners = λ k. refl;
  }
  monitor_logs-Restored pr filter inputs (some ls) = record {
    handlers = λ k.
        handlers-stop filter (to_events (start_stream_events events h channel_size filter)) k
          (events_stay (start_stream_events events h channel_size filter) k);
    listeners = listeners-stop ls;
  }

  -- However a request to watch ends, by its context, an error of the stream or an invalid log level, and
  -- whatever it has received: the same handlers of events and listeners of the log are registered afterwards as
  -- before. Its own ones are new, and nothing else is registered or deregistered meanwhile.
  pub monitor-Restored :
      (pr : Printer) (upper : Text → Text) (filter : Text → Text → Bool) (event_filter level : Text)
      (inputs : List Input)
      → Restored events logs
          (monitor pr upper filter to_events to_logs events logs h l event_filter level inputs)
  unfolding monitor
  monitor-Restored pr upper filter event_filter level inputs =
      monitor_logs-Restored pr event_filter inputs _
