-- ===== src/Snapshot.antt =====
-- snapshot.go: the file that remembers the alive members and the clocks over a restart.
-- The file and the writer's buffer are one text: I/O errors, and what a crash loses of the buffer, are not
-- modelled. `tcp_addr` is `String` of `net.TCPAddr`. A result `none` is a run-time panic.
pub mod Lines
pub mod Replay
pub mod Faithful
pub mod Receive
pub mod Record
pub mod Told
pub mod Faults
pub mod Tee
pub mod Known
pub mod Clocks
pub mod Alive
pub mod Reopen
pub mod Restart
mod Tests
use cserf.Prelude.{
  ℕ, ◌+◌, ◌*◌, Bool, true, false, Option, none, some, List, [], ◌∷◌, ◌++◌, Text, bytes, text_eq,
  text_key, has_prefix, Dict, get, put, remove, nat_eq, ltb, leb, length, drop, if◌then◌else◌,
}
use cserf.Messages.{
  EventType, MemberEvent, ActionEvent, QueryEvent, Event, on_query, on_action, on_member,
  on_members,
}
use cserf.Decimal.{print_u64, parse_uint}

-- `log` is what has been written since the file was opened or compacted, and `offset` what the snapshotter
-- takes for its size.
pub record Snapshotter : Type 0 where
  pub alive_nodes : Dict Text Text
  pub last_action_clock : ℕ
  pub last_query_clock : ℕ
  pub leaving : Bool
  pub min_compact_size : ℕ
  pub offset : ℕ
  pub log : Text

-- A line of the file, with the line feed.
abbrev pub line : Text → Text
line l = l ++ (10 ∷ [])

abbrev pub alive_line : Text → Text → Text
alive_line id addr = bytes "alive: " ++ (id ++ (32 ∷ addr))

abbrev pub not_alive_line : Text → Text
not_alive_line id = bytes "not-alive: " ++ id

abbrev pub action_clock_line : ℕ → Text
action_clock_line t = bytes "action-clock: " ++ print_u64 t

abbrev pub query_clock_line : ℕ → Text
query_clock_line t = bytes "query-clock: " ++ print_u64 t

unfoldable pub snapshot_threshold : Snapshotter → ℕ
snapshot_threshold s =
    let threshold = length s.alive_nodes * 128 * 2 in
    if ltb threshold s.min_compact_size then s.min_compact_size else threshold

-- The loop of `dump` over the alive nodes.
unfoldable pub alive_lines : Dict Text Text → List Text
alive_lines [] = []
alive_lines ((id, addr) ∷ m) = alive_line id addr ∷ alive_lines m

abbrev pub leave_lines : Bool → List Text
leave_lines true = bytes "leave" ∷ []
leave_lines false = []

unfoldable pub dump_lines : Snapshotter → List Text
unfolding alive_lines
dump_lines s =
    alive_lines s.alive_nodes
    ++ (action_clock_line s.last_action_clock
        ∷ query_clock_line s.last_query_clock
        ∷ leave_lines s.leaving)

unfoldable pub unlines : List Text → Text
unlines [] = []
unlines (l ∷ ls) = line l ++ unlines ls

-- The text that `dump` writes to the new file.
unfoldable pub dump : Snapshotter → Text
unfolding dump_lines unlines
dump s = unlines (dump_lines s)

unfoldable pub compact : Snapshotter → Snapshotter
unfolding dump
compact s = record s { log = dump s; offset = length (dump s) }

unfoldable pub append_line : Snapshotter → Text → Snapshotter
append_line s l =
    let s' = record s { log = s.log ++ line l; offset = s.offset + length (line l) } in
    if ltb (snapshot_threshold s') s'.offset then compact s' else s'

unfoldable pub record_action_clock : Snapshotter → ℕ → Snapshotter
record_action_clock s t =
    if leb t s.last_action_clock
    then s
    else append_line (record s { last_action_clock = t }) (action_clock_line t)

unfoldable pub record_query_clock : Snapshotter → ℕ → Snapshotter
record_query_clock s t =
    if leb t s.last_query_clock
    then s
    else append_line (record s { last_query_clock = t }) (query_clock_line t)

abbrev pub record_alive : Snapshotter → Text → Text → Snapshotter
record_alive s id addr =
    append_line (record s { alive_nodes = put s.alive_nodes id addr }) (alive_line id addr)

abbrev pub record_not_alive : Snapshotter → Text → Snapshotter
record_not_alive s id =
    append_line (record s { alive_nodes = remove s.alive_nodes id }) (not_alive_line id)

module _ (tcp_addr : Text → ℕ → Text) where
  -- A nil member is skipped on a join, and dereferenced on a leave or a failure.
  unfoldable pub record_member_event : Snapshotter → MemberEvent → Option Snapshotter
  record_member_event s e = elim e.type [
    | EventType.member_join ↦ elim e.member [
      | none ↦ some s
      | some m ↦ some (record_alive s m.id (tcp_addr m.ip m.port))
    ]
    | EventType.member_failed ↦ elim e.member [
      | none ↦ none
      | some m ↦ some (record_not_alive s m.id)
    ]
    | EventType.member_leave ↦ elim e.member [
      | none ↦ none
      | some m ↦ some (record_not_alive s m.id)
    ]
    | _ ↦ some s
  ]

  -- The switch of `recordEvent`.
  unfoldable pub record_known : Snapshotter → Event → Option Snapshotter
  unfolding record_member_event
  record_known s (on_member e) = record_member_event s e
  record_known s (on_action e) = some (record_action_clock s e.ltime)
  record_known s (on_query e) = some (record_query_clock s e.ltime)
  record_known s (on_members e) = some s

  unfoldable pub record_event : Snapshotter → Event → Option Snapshotter
  unfolding record_known
  record_event s e = if s.leaving then some s else record_known s e

abbrev pub snapshot_prefixes : List Text
snapshot_prefixes =
    bytes "alive: "
    ∷ bytes "not-alive: "
    ∷ bytes "action-clock: "
    ∷ bytes "query-clock: "
    ∷ bytes "coordinate: "
    ∷ bytes "leave"
    ∷ bytes "#"
    ∷ []

-- The first loop of `handleLine`: the prefix, empty if none is found.
unfoldable pub find_prefix : Text → List Text → Text
find_prefix l [] = []
find_prefix l (p ∷ ps) = if has_prefix l p then p else find_prefix l ps

-- `strings.LastIndex(info, " ")`: what stands before and behind the last space.
unfoldable pub split_last_space : Text → Option (Text × Text)
split_last_space [] = none
split_last_space (c ∷ cs) = elim (split_last_space cs) [
  | some (front, back) ↦ some (c ∷ front, back)
  | none ↦ if nat_eq c 32 then some ([], cs) else none
]

-- An alive line with no space makes `info[:-1]` panic.
unfoldable pub handle_alive_info : Snapshotter → Option (Text × Text) → Option Snapshotter
handle_alive_info s none = none
handle_alive_info s (some (name, addr)) =
    some (record s { alive_nodes = put s.alive_nodes name addr })

-- An action clock that cannot be read is skipped; a query clock is set to what `ParseUint` left.
unfoldable pub handle_info : Snapshotter → Text → Text → Option Snapshotter
unfolding handle_alive_info
handle_info s prefix info =
    if text_eq prefix (bytes "alive: ")
    then handle_alive_info s (split_last_space info)
    else if text_eq prefix (bytes "not-alive: ")
    then some (record s { alive_nodes = remove s.alive_nodes info })
    else if text_eq prefix (bytes "action-clock: ")
    then (if (parse_uint info).1
        then some (record s { last_action_clock = (parse_uint info).0 })
        else some s)
    else if text_eq prefix (bytes "query-clock: ")
    then some (record s { last_query_clock = (parse_uint info).0 })
    else some s

unfoldable pub handle_line : Snapshotter → Text → Option Snapshotter
unfolding handle_info find_prefix
handle_line s l =
    let prefix = find_prefix l snapshot_prefixes in handle_info s prefix (drop (length prefix) l)

-- `ReadString('\n')` until the end of the file: a last line with no line feed is dropped. `front` is what
-- has been read of the present line.
unfoldable pub read_lines : Text → Text → List Text
read_lines front [] = []
read_lines front (c ∷ cs) =
    let rest = read_lines [] cs in
    let more = read_lines (front ++ (c ∷ [])) cs in if nat_eq c 10 then front ∷ rest else more

unfoldable pub handle_lines : Snapshotter → List Text → Option Snapshotter
unfolding handle_line
handle_lines s [] = some s
handle_lines s (l ∷ ls) = elim (handle_line s l) [ none ↦ none | some s' ↦ handle_lines s' ls ]

unfoldable pub replay : Snapshotter → Option Snapshotter
unfolding handle_lines read_lines
replay s = handle_lines s (read_lines [] s.log)

-- The state of `NewSnapshotter` at a file that holds `log`, before and after the replay.
unfoldable pub opened : ℕ → Text → Snapshotter
opened min_compact_size log = record {
  alive_nodes = [];
  last_action_clock = 0;
  last_query_clock = 0;
  leaving = false;
  min_compact_size = min_compact_size;
  offset = length log;
  log = log;
}

unfoldable pub new_snapshotter : ℕ → Text → Option Snapshotter
unfolding replay opened
new_snapshotter min_compact_size log = replay (opened min_compact_size log)
