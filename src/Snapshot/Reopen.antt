-- ===== src/Snapshot/Reopen.antt =====
-- A snapshotter that is opened on a file gets back what the file says.
use cserf.Prelude.{ℕ, ◌≡◌, refl, ap, ◌∙◌, some, [], Text, text_key, get, arith}
use cserf.Snapshot.{Snapshotter, handle_lines, read_lines, replay, opened, new_snapshotter, unlines}
use cserf.Snapshot.Lines.{read_lines-unlines}
use cserf.Snapshot.Faithful.{Same, IsBlank, IsFaithful}

opened-IsBlank : (min : ℕ) (log : Text) → IsBlank (opened min log)
unfolding opened
opened-IsBlank min log = record { no_nodes = refl; no_action = refl; no_query = refl }

log-opened : (min : ℕ) (log : Text) → (opened min log).log ≡ log
unfolding opened
log-opened min log = refl

pub reopen :
    (min : ℕ) (s : Snapshotter)
    → IsFaithful s
    → (r : Snapshotter) × (new_snapshotter min s.log ≡ some r) × Same r s
unfolding new_snapshotter replay
reopen min s f =
    let again = f.replays (opened min s.log) (opened-IsBlank min s.log) in
    (
      again.after,
      ap (handle_lines (opened min s.log)) (
            ap (read_lines []) (log-opened min s.log ∙ f.written)
            ∙ read_lines-unlines f.lines f.whole)
          ∙ again.returns,
      again.same,
    )

pub opened-IsFaithful : (min : ℕ) → IsFaithful (opened min [])
unfolding opened unlines handle_lines
opened-IsFaithful min = record {
  clean = record { map = tt; entries = tt; action = omega arith; query = omega arith };
  size = refl;
  lines = [];
  written = refl;
  whole = tt;
  replays = λ base blank. record {
    after = base;
    returns = refl;
    same = record {
      alive = λ k. ap (λ m. get m k) blank.no_nodes;
      action = blank.no_action;
      query = blank.no_query;
    };
  };
}
