-- ===== src/Snapshot/Faults/Tests.antt =====
-- A compaction whose `Rename` fails.
use cserf.Prelude.{◌≡◌, refl, true, false, none, some, [], bytes}
use cserf.Snapshot as Snap
use cserf.Snapshot.{opened}
use cserf.Snapshot.Reopen.{opened-IsFaithful}
use cserf.Snapshot.Faults.{Store, Io, IoError, compact, dump, replace_file, install, try_append}
use cserf.Snapshot.Faults.Recoverable.{Kept, compact_lem, try_append_panics}

abbrev io : Io
io = record {
  now = 5;
  write_fails = false;
  flush_fails = false;
  open_dump_fails = false;
  dump_fails = false;
  partial = [];
  remove_fails = false;
  rename_fails = true;
  reopen_fails = false;
}

abbrev store : Store
store = record {
  mem = opened 30 [];
  disk = some [];
  spare = none;
  buffer = some [];
  last_recovery = 0;
}

log-opened : (opened 30 []).log ≡ []
unfolding opened
log-opened = refl

compact_lem_example : Kept 40 io store
unfolding opened
compact_lem_example = compact_lem 40 io store [] [] (opened-IsFaithful 30) refl refl refl refl

abbrev broken : Store
broken = record store { disk = none; spare = some (Snap.dump (opened 30 [])); buffer = none }

breaks : compact io store ≡ some (some IoError.rename_error, broken)
unfolding compact dump replace_file install
breaks = refl

try_append_panics_example : try_append io broken (bytes "leave") ≡ none
try_append_panics_example =
    try_append_panics io io store broken IoError.rename_error (bytes "leave") tt breaks
