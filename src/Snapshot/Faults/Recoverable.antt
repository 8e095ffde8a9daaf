-- ===== src/Snapshot/Faults/Recoverable.antt =====
-- What is left of a snapshot when I/O fails.
use cserf.Prelude.{
  ℕ, ◌≡◌, ◌⊎◌, inl, inr, refl, ap, subst, ◌∙◌, false, Option, none, some, [], ◌++◌, Text,
  append-nil, length, arith, if◌then◌else◌, Bool-cases, Option-cases,
}
use cserf.Snapshot as Snap
use cserf.Snapshot.{Snapshotter, new_snapshotter, snapshot_threshold, line}
use cserf.Snapshot.Faithful.{Same, IsFaithful, compact-IsFaithful}
use cserf.Snapshot.Reopen.{reopen as reopened}
use cserf.Snapshot.Faults.{
  Store, Io, IoError, dump, reopen, install, replace_file, compact, append_line, try_append,
  with_text, or_replace,
}

-- A failed write or flush leaves the buffer in order. So does a dump that fails; later failures do not.
abbrev pub IsLate : IoError → Type 0
IsLate IoError.dump_error = ⊥
IsLate IoError.write_error = ⊥
IsLate _ = Unit

-- Behind the flush an error leaves a nil buffer.
install-nil :
    (io : Io) (s : Store) {e : IoError} {s' : Store}
    → s.buffer ≡ none
    → install io s ≡ (some e, s')
    → s'.buffer ≡ none
unfolding install reopen
install-nil io s n h = ground (arith, n, h)

replace_file-nil :
    (io : Io) (s : Store) {e : IoError} {s' : Store}
    → replace_file io s ≡ some (some e, s')
    → s'.buffer ≡ none
unfolding replace_file
replace_file-nil io s {e} {s'} h = elim (Option-cases s.buffer) [
  | inl nil ↦ absurd (ground (arith, nil, h))
  | inr (b, some_b) ↦
      install-nil io
        (record s { disk = if io.flush_fails then s.disk else with_text s.disk b; buffer = none })
        {e = e} {s' = s'} refl (ground (arith, some_b, h))
]

or_replace-nil :
    (io : Io) (o : Option IoError) (s : Store) {e : IoError} {s' : Store}
    → IsLate e
    → (o ≡ none) ⊎ (o ≡ some IoError.dump_error)
    → or_replace io (o, s) ≡ some (some e, s')
    → s'.buffer ≡ none
or_replace-nil io none s late d h = replace_file-nil io s h
or_replace-nil io (some x) s late (inl d) h = absurd (ground (arith, d))
or_replace-nil io (some x) s {e} late (inr d) h =
    let early : e ≡ IoError.dump_error = ground (arith, d, h) in absurd (subst IsLate early late)

dump-cases :
    (io : Io) (s : Store) → ((dump io s).0 ≡ none) ⊎ ((dump io s).0 ≡ some IoError.dump_error)
unfolding dump
dump-cases io s = elim (Bool-cases io.open_dump_fails) [
  | inl f ↦ inr (ground (arith, f))
  | inr g ↦ elim (Bool-cases io.dump_fails) [
    | inl f ↦ inr (ground (arith, f, g))
    | inr f ↦ inl (ground (arith, f, g))
  ]
]

compact-nil :
    (io : Io) (s : Store) {e : IoError} {s' : Store}
    → IsLate e
    → compact io s ≡ some (some e, s')
    → s'.buffer ≡ none
unfolding compact
compact-nil io s late h = or_replace-nil io (dump io s).0 (dump io s).1 late (dump-cases io s) h

append_line-nil : (io : Io) (s : Store) (l : Text) → s.buffer ≡ none → append_line io s l ≡ none
unfolding append_line
append_line-nil io s l n = ground (arith, n)

-- A compaction that fails once its dump is written leaves a snapshotter at which every later line panics,
-- whatever I/O fails or succeeds then: its writer is a nil pointer, and the recovery, which would make a new one,
-- comes only after a write.
pub try_append_panics :
    (io io' : Io) (s s' : Store) (e : IoError) (l : Text)
    → IsLate e
    → compact io s ≡ some (some e, s')
    → try_append io' s' l ≡ none
unfolding try_append
try_append_panics io io' s s' e l late h =
    rw (append_line-nil io' s' l (compact-nil io s late h)) refl

-- A text from which a snapshotter gets back what `m` knows.
abbrev pub Restores : ℕ → Snapshotter → Text → Type 0
Restores min m t = (r : Snapshotter) × (new_snapshotter min t ≡ some r) × Same r m

abbrev pub unflushed : Option Text → Text
unflushed none = []
unflushed (some b) = b

-- What the file at `path` holds once the buffer is flushed.
abbrev pub on_disk : Store → Option Text
on_disk s = with_text s.disk (unflushed s.buffer)

-- One of the two files restores what was known before the compaction.
pub record Kept (min : ℕ) (io : Io) (s : Store) : Type 0 where
  pub error : Option IoError
  pub after : Store
  pub returns : compact io s ≡ some (error, after)
  pub text : Text
  pub place : (on_disk after ≡ some text) ⊎ (after.spare ≡ some text)
  pub restores : Restores min s.mem text

module _ (min : ℕ) (io : Io) (s : Store) (f b : Text) (faithful : IsFaithful s.mem)
    (disk : s.disk ≡ some f) (buffer : s.buffer ≡ some b) (same : f ++ b ≡ s.mem.log)
    (flushes : io.flush_fails ≡ false) where
  old-Restores : Restores min s.mem (f ++ b)
  old-Restores = rw same (reopened min s.mem faithful)

  new-Restores : Restores min s.mem (Snap.dump s.mem)
  unfolding Snap.compact
  new-Restores =
      let (r, e, k) = reopened min (Snap.compact s.mem) (compact-IsFaithful s.mem faithful.clean) in
      (r, e, record { alive = k.alive; action = k.action; query = k.query })

  dumped : Store
  dumped = record s { spare = some (Snap.dump s.mem); disk = some (f ++ b); buffer = none }

  compact-dumped :
      io.open_dump_fails ≡ false → io.dump_fails ≡ false → compact io s ≡ some (install io dumped)
  unfolding compact dump replace_file dumped
  compact-dumped g h = ground (arith, g, h, disk, buffer, flushes)

  Kept-early :
      (o : Option Text)
      → compact io s ≡ some (some IoError.dump_error, record s { spare = o })
      → Kept min io s
  Kept-early o h = record {
    error = some IoError.dump_error;
    after = record s { spare = o };
    returns = h;
    text = f ++ b;
    place = inl (ground (arith, disk, buffer));
    restores = old-Restores;
  }

  moved : Store
  unfolding dumped
  moved = record dumped { disk = some (Snap.dump s.mem); spare = none }

  Kept-late : io.open_dump_fails ≡ false → io.dump_fails ≡ false → Kept min io s
  unfolding install reopen dumped moved
  Kept-late g h = elim (Bool-cases io.remove_fails) [
    | inl x ↦ record {
      error = some IoError.remove_error;
      after = dumped;
      returns = compact-dumped g h ∙ ground (arith, x);
      text = f ++ b;
      place = inl (ap some (append-nil (f ++ b)));
      restores = old-Restores;
    }
    | inr x ↦ elim (Bool-cases io.rename_fails) [
      | inl y ↦ record {
        error = some IoError.rename_error;
        after = record dumped { disk = none };
        returns = compact-dumped g h ∙ ground (arith, x, y);
        text = Snap.dump s.mem;
        place = inr refl;
        restores = new-Restores;
      }
      | inr y ↦ elim (Bool-cases io.reopen_fails) [
        | inl z ↦ record {
          error = some IoError.reopen_error;
          after = moved;
          returns = compact-dumped g h ∙ ground (arith, x, y, z);
          text = Snap.dump s.mem;
          place = inl (ap some (append-nil (Snap.dump s.mem)));
          restores = new-Restores;
        }
        | inr z ↦ record {
          error = none;
          after = record moved {
            buffer = some [];
            mem = record s.mem { log = Snap.dump s.mem; offset = length (Snap.dump s.mem) };
          };
          returns = compact-dumped g h ∙ ground (arith, x, y, z);
          text = Snap.dump s.mem;
          place = inl (ap some (append-nil (Snap.dump s.mem)));
          restores = new-Restores;
        }
      ]
    ]
  ]

  -- A compaction returns, whichever of its calls but the first flush fails, and never loses both files: the
  -- file at `path`, with what is in the buffer, or the file that was dumped is one from which a new snapshotter
  -- gets back the alive nodes and the clocks. Before, the file and the buffer held what is known.
  pub compact_lem : Kept min io s
  unfolding compact dump
  compact_lem = elim (Bool-cases io.open_dump_fails) [
    | inl x ↦ Kept-early s.spare (ground (arith, x))
    | inr x ↦ elim (Bool-cases io.dump_fails) [
      | inl y ↦ Kept-early (some io.partial) (ground (arith, x, y))
      | inr y ↦ Kept-late x y
    ]
  ]
