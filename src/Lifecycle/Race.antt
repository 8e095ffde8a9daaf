-- ===== src/Lifecycle/Race.antt =====
-- `Leave` and `Shutdown` of serf.go as goroutines run them: each access to the state holds a lock of its own, and
-- the steps of different goroutines interleave in every order. A goroutine makes one call.
pub mod Panics
mod Tests
use cserf.Prelude.{ℕ, ◌≡◌, Bool, true, false, nat_eq, if◌then◌else◌}
use cserf.Lifecycle.{Life, StateType, has_left, has_shutdown}

-- Where a goroutine stands: before its call; in `Shutdown` behind the test of the state, or behind the change of
-- it; in `Leave` behind its first test, or behind its second; at the end.
pub data Pc : Type 0 where
  idle tested marked leave_tested leave_cleared ended : Pc

pub record Node : Type 0 where
  pub life : Life
  pub pc : ℕ → Pc
  pub panicked : Bool

abbrev pub update : (ℕ → Pc) → ℕ → Pc → ℕ → Pc
update f i p j = if nat_eq i j then p else f j

-- One step of goroutine `i`. `May i` says that it may call `Shutdown`. To close the channel twice panics.
pub data Step (May : ℕ → Type 0) (s u : Node) : Type 0 where
  test :
      (i : ℕ)
      → May i
      → s.pc i ≡ idle
      → u ≡ record s { pc = update s.pc i (if has_shutdown s.life then ended else tested) }
      → Step May s u
  mark :
      (i : ℕ)
      → s.pc i ≡ tested
      → u ≡ record s {
        life = record s.life { state = StateType.serf_shutdown };
        pc = update s.pc i marked;
      }
      → Step May s u
  close :
      (i : ℕ)
      → s.pc i ≡ marked
      → u ≡ record {
        life = record s.life { closed = true };
        pc = update s.pc i ended;
        panicked = if s.life.closed then true else s.panicked;
      }
      → Step May s u
  leave_test :
      (i : ℕ)
      → s.pc i ≡ idle
      → u ≡ record s { pc = update s.pc i (if has_left s.life then ended else leave_tested) }
      → Step May s u
  leave_clear :
      (i : ℕ)
      → s.pc i ≡ leave_tested
      → u ≡ record s { pc = update s.pc i (if has_shutdown s.life then ended else leave_cleared) }
      → Step May s u
  leave_mark :
      (i : ℕ)
      → s.pc i ≡ leave_cleared
      → u ≡ record s {
        life = record s.life { state = StateType.serf_left };
        pc = update s.pc i ended;
      }
      → Step May s u

-- Any number of steps, the last one outermost.
pub data Run (May : ℕ → Type 0) (s : Node) : Node → Type 0 where
  start_here : Run May s s
  more : {u v : Node} → Run May s u → Step May u v → Run May s v
