-- ===== src/Snapshot/Faithful.antt =====
-- What it means that the file says what the snapshotter knows, and the appending of a line.
use cserf.Prelude.{
  if_both, ◌+◌, ◌<◌, ◌≡◌, refl, sym, ap, ◌∙◌, Bool, true, false, Option, none, some, List, [], ◌∷◌,
  ◌++◌, Text, text_key, Dict, get, IsMap, All, All-snoc, arith, ltb, length, length-append, u64,
}
use cserf.Snapshot.{
  Snapshotter, line, unlines, snapshot_threshold, dump, dump_lines, alive_lines, leave_lines,
  compact, append_line, handle_line, handle_lines,
}
use cserf.Snapshot.Lines.{
  IsLine, unlines-snoc, alive_line-IsLine, action_clock_line-IsLine, query_clock_line-IsLine,
}
use cserf.Snapshot.Replay.{put_all, get-put_all, or_else, IsEntry, handle_dump, handle_lines-snoc}

-- The two know the same members and the same clocks.
pub record Same (r s : Snapshotter) : Type 0 where
  pub alive : (k : Text) → get r.alive_nodes k ≡ get s.alive_nodes k
  pub action : r.last_action_clock ≡ s.last_action_clock
  pub query : r.last_query_clock ≡ s.last_query_clock

-- A snapshotter that knows nothing yet.
pub record IsBlank (s : Snapshotter) : Type 0 where
  pub no_nodes : s.alive_nodes ≡ []
  pub no_action : s.last_action_clock ≡ 0
  pub no_query : s.last_query_clock ≡ 0

pub record Replays (base : Snapshotter) (ls : List Text) (s : Snapshotter) : Type 0 where
  pub after : Snapshotter
  pub returns : handle_lines base ls ≡ some after
  pub same : Same after s

-- What is known can be written to the file and read back.
pub record IsClean (s : Snapshotter) : Type 0 where
  pub map : IsMap s.alive_nodes
  pub entries : All IsEntry s.alive_nodes
  pub action : s.last_action_clock < u64
  pub query : s.last_query_clock < u64

pub record IsFaithful (s : Snapshotter) : Type 0 where
  pub clean : IsClean s
  pub size : s.offset ≡ length s.log
  pub lines : List Text
  pub written : s.log ≡ unlines lines
  pub whole : All IsLine lines
  pub replays : (base : Snapshotter) → IsBlank base → Replays base lines s

alive_lines-All :
    (m : Dict Text Text) (rest : List Text)
    → All IsEntry m
    → All IsLine rest
    → All IsLine (alive_lines m ++ rest)
unfolding alive_lines
alive_lines-All [] rest h k = k
alive_lines-All ((id, addr) ∷ m) rest h k =
    (alive_line-IsLine id addr h.0.0 h.0.1, alive_lines-All m rest h.1 k)

leave_lines-All : (b : Bool) → All IsLine (leave_lines b)
leave_lines-All true = ground arith
leave_lines-All false = tt

dump_lines-All : (s : Snapshotter) → All IsEntry s.alive_nodes → All IsLine (dump_lines s)
unfolding dump_lines
dump_lines-All s h = alive_lines-All s.alive_nodes _ h (
  action_clock_line-IsLine s.last_action_clock,
  (query_clock_line-IsLine s.last_query_clock, leave_lines-All s.leaving),
)

or_else-none : (o : Option Text) → or_else o none ≡ o
or_else-none none = refl
or_else-none (some x) = refl

-- A compaction writes a file that says the same.
pub compact-IsFaithful : (s : Snapshotter) → IsClean s → IsFaithful (compact s)
unfolding compact dump get
compact-IsFaithful s c = record {
  clean = record { map = c.map; entries = c.entries; action = c.action; query = c.query };
  size = refl;
  lines = dump_lines s;
  written = refl;
  whole = dump_lines-All s c.entries;
  replays = λ base blank. record {
    after = record base {
      alive_nodes = put_all base.alive_nodes s.alive_nodes;
      last_action_clock = s.last_action_clock;
      last_query_clock = s.last_query_clock;
    };
    returns = handle_dump s base c.entries c.action c.query;
    same = record {
      alive = λ k.
          get-put_all base.alive_nodes s.alive_nodes k c.map
          ∙ (rw blank.no_nodes (or_else-none (get s.alive_nodes k)));
      action = refl;
      query = refl;
    };
  };
}

-- A state with what it has learnt, the line that says so still to be written.
module _ {s : Snapshotter} (f : IsFaithful s) (s' : Snapshotter) (l : Text) (c : IsClean s')
    (w : IsLine l) (same_log : s'.log ≡ s.log) (same_size : s'.offset ≡ s.offset)
    (learns : (r : Snapshotter)
      → Same r s
      → (r' : Snapshotter) × (handle_line r l ≡ some r') × Same r' s') where
  appended : Snapshotter
  appended = record s' { log = s'.log ++ line l; offset = s'.offset + length (line l) }

  appended-IsFaithful : IsFaithful appended
  unfolding appended
  appended-IsFaithful = record {
    clean = record { map = c.map; entries = c.entries; action = c.action; query = c.query };
    size = omega (arith, length-append s'.log (line l), f.size, same_size, ap length same_log);
    lines = f.lines ++ (l ∷ []);
    written = rw same_log (ap (λ t. t ++ line l) f.written ∙ sym (unlines-snoc f.lines l));
    whole = All-snoc IsLine f.lines l f.whole w;
    replays = λ base blank.
        let before = f.replays base blank in
        let (r', e, same') = learns before.after before.same in
        record {
          after = r';
          returns = handle_lines-snoc f.lines l base before.after before.returns ∙ e;
          same = record { alive = same'.alive; action = same'.action; query = same'.query };
        };
  }

  pub append_line-IsFaithful : IsFaithful (append_line s' l)
  unfolding append_line appended
  append_line-IsFaithful =
      if_both IsFaithful (ltb (snapshot_threshold appended) appended.offset)
        (compact-IsFaithful appended
          (record { map = c.map; entries = c.entries; action = c.action; query = c.query }))
        appended-IsFaithful
