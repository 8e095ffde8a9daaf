-- ===== src/Rpc/Tests.antt =====
-- The server's filters and log ring on small runs.
use cserf.Prelude.{
  none, true, false, ◌++◌, map, take, get, nat_key, has_prefix, split, ◌≡◌, refl, arith, some, List,
  [], ◌∷◌, Text, bytes,
}
use cserf.Rpc.{
  Member, StateType, state_dead, other_state, to_status_filters, check_filters,
  is_valid_status_filter, RingLogBuf, write, line_at, dump, dump_from,
}
use cserf.Rpc.Streams.{
  LogStreamer, LogStreamManager, new_log_stream_manager, register, strip_newline, write_syslog,
  find_level, split_level, index_byte, syslog_priority, Priority, is_valid_level, is_level_of,
}
use cserf.Rpc.Streams.Listen.{write_logs, keep, remembered, listen_lem}

abbrev member : Text → StateType → Member
member id state = record { id = id; addr = []; tags = []; state = state; lives = 0 }

abbrev everyone : List Member
everyone = member (bytes "a") (other_state 0) ∷ member (bytes "b") state_dead ∷ []

abbrev failed : List Text
failed = bytes "failed" ∷ []

accepted : to_status_filters (bytes "failed") ≡ some failed
unfolding to_status_filters check_filters split is_valid_status_filter
accepted = refl

abbrev ring : RingLogBuf
ring = record { idx = 1; buf = bytes "b" ∷ bytes "a" ∷ [] }

dumps : dump (write ring (bytes "c")) ≡ bytes "b" ∷ bytes "c" ∷ []
unfolding dump dump_from line_at write
dumps = refl

-- Keeps the lines that begin with `E`, and has room for two.
abbrev listener : LogStreamer
listener = record { check = λ l. has_prefix l (bytes "E"); capacity = 2; log_ch = [] }

listen_lem_example :
    (m : LogStreamManager) × (m' : LogStreamManager) × (write_logs new_log_stream_manager
        (bytes "E1" ∷ bytes "x" ∷ [])
      ≡ some m)
    × (write_logs (register m 7 listener) (bytes "E2" ∷ bytes "E3" ∷ []) ≡ some m')
    × (get m'.streamer_map 7
        ≡ some (record listener {
          log_ch = take 2 (
              []
              ++ keep listener.check (
                  remembered (map strip_newline (bytes "E1" ∷ bytes "x" ∷ []))
                  ++ map strip_newline (bytes "E2" ∷ bytes "E3" ∷ [])));
        }))
listen_lem_example =
    listen_lem (bytes "E1" ∷ bytes "x" ∷ []) (bytes "E2" ∷ bytes "E3" ∷ []) 7 listener
      (ground arith) (ground arith) (omega arith)

takes_level :
    write_syslog (λ p. true) (bytes "a [ERR] b") ≡ some (some (Priority.log_err, bytes "b"))
unfolding write_syslog find_level split_level index_byte syslog_priority
takes_level = refl

-- A line that ends with the bracket of its level panics.
ends_at_level : write_syslog (λ p. true) (bytes "[ERR]") ≡ none
unfolding write_syslog find_level split_level index_byte syslog_priority
ends_at_level = refl

levels : (is_valid_level (bytes "WARN") ≡ true) × (is_valid_level (bytes "CRIT") ≡ false)
unfolding is_valid_level is_level_of
levels = (refl, refl)
