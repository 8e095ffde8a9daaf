-- ===== src/Snapshot/Faults.antt =====
-- What I/O errors do to the snapshotter of snapshot.go: the file, its writer's buffer and the file that a
-- compaction writes are kept apart here, and each call of the file system may fail.
pub mod Recoverable
mod Tests
use cserf.Prelude.{
  ℕ, ◌+◌, ◌-◌, ◌*◌, ◌<◌, ◌≡◌, Bool, true, false, Option, none, some, List, [], ◌∷◌, ◌++◌, Text, ltb,
  length, if◌then◌else◌,
}
use cserf.Snapshot as Snap
use cserf.Snapshot.{Snapshotter, line, snapshot_threshold}

-- `disk` is the text of the file at `path` and `spare` that of the file at `path.compact`, none if there is no
-- such file. `buffer` is the writer's buffer, none for the nil pointer. `mem` is the rest; its `log` stands for
-- what is in the file and the buffer together, and decides nothing.
pub record Store : Type 0 where
  pub mem : Snapshotter
  pub disk : Option Text
  pub spare : Option Text
  pub buffer : Option Text
  pub last_recovery : ℕ

-- Which calls fail. `partial` is what a failed dump has left in its file, and `now` the time.
pub record Io : Type 0 where
  pub now : ℕ
  pub write_fails : Bool
  pub flush_fails : Bool
  pub open_dump_fails : Bool
  pub dump_fails : Bool
  pub partial : Text
  pub remove_fails : Bool
  pub rename_fails : Bool
  pub reopen_fails : Bool

pub data IoError : Type 0 where
  dump_error remove_error rename_error reopen_error write_error : IoError

abbrev pub with_text : Option Text → Text → Option Text
with_text none t = none
with_text (some f) t = some (f ++ t)

-- `dump`
unfoldable pub dump : Io → Store → Option IoError × Store
dump io s =
    if io.open_dump_fails
    then (some dump_error, s)
    else if io.dump_fails
    then (some dump_error, record s { spare = some io.partial })
    else (none, record s { spare = some (Snap.dump s.mem) })

-- The end of `compact`, once the new file has been installed: it is opened, and its end sought.
unfoldable pub reopen : Io → Store → Option IoError × Store
reopen io s = elim s.disk [
  | none ↦ (some reopen_error, s)
  | some t ↦
      if io.reopen_fails
      then (some reopen_error, s)
      else (none, record s { buffer = some []; mem = record s.mem { log = t; offset = length t } })
]

-- The part of `compact` behind the flush: the buffer and the handle are nil until the file is open again.
unfoldable pub install : Io → Store → Option IoError × Store
unfolding reopen
install io s =
    if io.remove_fails
    then (some remove_error, s)
    else if io.rename_fails
    then (some rename_error, record s { disk = none })
    else reopen io (record s { disk = s.spare; spare = none })

-- `compact` behind the dump. To flush a nil writer panics; a flush that fails is ignored.
unfoldable pub replace_file : Io → Store → Option (Option IoError × Store)
unfolding install
replace_file io s = elim s.buffer [
  | none ↦ none
  | some b ↦ some (
      install io
        (record s { disk = if io.flush_fails then s.disk else with_text s.disk b; buffer = none }))
]

abbrev pub or_replace : Io → Option IoError × Store → Option (Option IoError × Store)
or_replace io (some e, s) = some (some e, s)
or_replace io (none, s) = replace_file io s

unfoldable pub compact : Io → Store → Option (Option IoError × Store)
unfolding dump replace_file
compact io s = or_replace io (dump io s)

-- `snapshotErrorRecoveryInterval`, in nanoseconds.
abbrev pub recovery_interval : ℕ
recovery_interval = 30 * 1000000000

abbrev pub state_of : Option (Option IoError × Store) → Option Store
state_of none = none
state_of (some (e, s)) = some s

-- `recover`: an error of the compaction is only logged.
unfoldable pub recover : Io → Store → Option Store
unfolding compact
recover io s =
    if ltb recovery_interval (io.now - s.last_recovery)
    then state_of (compact io (record s { last_recovery = io.now }))
    else some s

abbrev pub written : Store → Text → Text → Store
written s b l = record s {
  buffer = some (b ++ line l);
  mem = record s.mem { log = s.mem.log ++ line l; offset = s.mem.offset + length (line l) };
}

-- `appendLine`. To write to a nil writer panics.
unfoldable pub append_line : Io → Store → Text → Option (Option IoError × Store)
unfolding compact
append_line io s l = elim s.buffer [
  | none ↦ none
  | some b ↦
      if io.write_fails
      then some (some write_error, s)
      else let s' = written s b l in
        if ltb (snapshot_threshold s'.mem) s'.mem.offset then compact io s' else some (none, s')
]

abbrev pub or_recover : Io → Option (Option IoError × Store) → Option Store
or_recover io none = none
or_recover io (some (none, s)) = some s
or_recover io (some (some e, s)) = recover io s

-- `tryAppend`
unfoldable pub try_append : Io → Store → Text → Option Store
unfolding append_line recover
try_append io s l = or_recover io (append_line io s l)
