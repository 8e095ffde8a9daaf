-- ===== src/Rpc/Streams.antt =====
-- rpc/server/log.go: who gets which log lines. A listener is numbered, as the source compares pointers, and
-- reads nothing of its channel meanwhile. A result `none` is a run-time panic.
pub mod Window
pub mod Listen
use cserf.Prelude.{
  ℕ, zero, suc, ◌+◌, ◌-◌, Bool, true, false, Option, none, some, List, [], ◌∷◌, ◌++◌, Text, bytes,
  text_eq, nat_key, Dict, get, put, remove, nat_eq, ltb, length, take, drop, if◌then◌else◌,
}
use cserf.Rpc
use cserf.Rpc.{RingLogBuf, new_ring_log_buf, dump}

-- `logStreamer`: `check` is the level filter's `Check`, `log_ch` what waits in the channel.
pub record LogStreamer : Type 0 where
  pub check : Text → Bool
  pub capacity : ℕ
  pub log_ch : List Text

-- `LogLevels`
abbrev pub log_levels : List Text
log_levels = bytes "TRACE" ∷ bytes "DEBUG" ∷ bytes "INFO" ∷ bytes "WARN" ∷ bytes "ERR" ∷ []

-- The loop of `isValidLevel`.
unfoldable pub is_level_of : List Text → Text → Bool
is_level_of [] l0 = false
is_level_of (l ∷ ls) l0 = if text_eq l l0 then true else is_level_of ls l0

unfoldable pub is_valid_level : Text → Bool
unfolding is_level_of
is_valid_level l0 = is_level_of log_levels l0

-- `newLogStreamer`; `upper` is `strings.ToUpper`, and `filter` the filter of a minimum level.
unfoldable pub new_log_streamer :
    (Text → Text) → (Text → Text → Bool) → ℕ → Text → Option LogStreamer
unfolding is_valid_level
new_log_streamer upper filter capacity level =
    if is_valid_level (upper level)
    then some (record { check = filter (upper level); capacity = capacity; log_ch = [] })
    else none

-- `Stream`: a line is skipped when the channel is full.
unfoldable pub stream : LogStreamer → Text → LogStreamer
stream s l =
    if s.check l
    then (if ltb (length s.log_ch) s.capacity
        then record s { log_ch = s.log_ch ++ (l ∷ []) }
        else s)
    else s

unfoldable pub stream_each : LogStreamer → List Text → LogStreamer
unfolding stream
stream_each s [] = s
stream_each s (l ∷ ls) = stream_each (stream s l) ls

-- `logStreamManager`
pub record LogStreamManager : Type 0 where
  pub streamer_map : Dict ℕ LogStreamer
  pub buf : RingLogBuf

unfoldable pub new_log_stream_manager : LogStreamManager
new_log_stream_manager = record { streamer_map = []; buf = new_ring_log_buf }

unfoldable pub register : LogStreamManager → ℕ → LogStreamer → LogStreamManager
unfolding stream_each
register m h s = record m { streamer_map = put m.streamer_map h (stream_each s (dump m.buf)) }

unfoldable pub deregister : LogStreamManager → ℕ → LogStreamManager
deregister m h = record m { streamer_map = remove m.streamer_map h }

-- `Write` on the line without its line feed.
unfoldable pub strip_newline : Text → Text
strip_newline [] = []
strip_newline (c ∷ []) = if nat_eq c 10 then [] else c ∷ []
strip_newline (c ∷ d ∷ p) = c ∷ strip_newline (d ∷ p)

unfoldable pub stream_all : Dict ℕ LogStreamer → Text → Dict ℕ LogStreamer
unfolding stream
stream_all [] l = []
stream_all ((h, s) ∷ m) l = (h, stream s l) ∷ stream_all m l

unfoldable pub write_line : LogStreamManager → Text → LogStreamManager
unfolding stream_all
write_line m l = record { streamer_map = stream_all m.streamer_map l; buf = Rpc.write m.buf l }

-- `Write`: `p[n-1]` panics when there is no byte.
unfoldable pub write_log : LogStreamManager → Text → Option LogStreamManager
unfolding write_line strip_newline
write_log m [] = none
write_log m (c ∷ p) = some (write_line m (strip_newline (c ∷ p)))

-- `gsyslog.Priority`, and `syslogPriorityMap`.
pub data Priority : Type 0 where
  log_debug log_info log_notice log_warning log_err log_crit : Priority

unfoldable pub syslog_priority : Text → Priority
syslog_priority level =
    if text_eq level (bytes "TRACE")
    then Priority.log_debug
    else if text_eq level (bytes "DEBUG")
    then Priority.log_info
    else if text_eq level (bytes "WARN")
    then Priority.log_warning
    else if text_eq level (bytes "ERR")
    then Priority.log_err
    else if text_eq level (bytes "CRIT")
    then Priority.log_crit
    else Priority.log_notice

-- `bytes.IndexByte`, with `none` for -1.
abbrev pub next_index : Option ℕ → Option ℕ
next_index none = none
next_index (some i) = some (suc i)

unfoldable pub index_byte : Text → ℕ → Option ℕ
index_byte [] c = none
index_byte (d ∷ p) c = let rest = index_byte p c in if nat_eq d c then some 0 else next_index rest

-- The level and what stands behind it: from `x` on with the closing bracket `y` further, if there is one.
unfoldable pub split_level : Text → ℕ → Option ℕ → Option (Text × Text)
split_level p x none = some ([], p)
split_level p x (some y) =
    if ltb (length p) (x + y + 2)
    then none
    else some (take (y - 1) (drop (x + 1) p), drop (x + y + 2) p)

unfoldable pub find_level : Text → Option ℕ → Option (Text × Text)
unfolding split_level index_byte
find_level p none = some ([], p)
find_level p (some x) = split_level p x (index_byte (drop x p) 93)

-- `(*FilterSyslog).Write`: what is written to the system's log, if the line passes the filter.
unfoldable pub write_syslog : (Text → Bool) → Text → Option (Option (Priority × Text))
unfolding find_level syslog_priority index_byte
write_syslog check p =
    if check p
    then (elim (find_level p (index_byte p 91)) [
      | none ↦ none
      | some (level, after_level) ↦ some (some (syslog_priority level, after_level))
    ])
    else some none
