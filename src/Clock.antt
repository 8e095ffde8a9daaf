-- ===== src/Clock.antt =====
-- lamport.go: the Lamport clocks that order actions and queries.
pub mod Race
mod Tests
use cserf.Prelude.{ℕ, ◌<◌, ◌≤◌, ◌+◌, ◌-◌, ◌≡◌, arith, ltb, if◌then◌else◌, u64, add64}

-- `Next`: the new time is stored and returned.
unfoldable pub next : ℕ → ℕ
next time = add64 time 1

-- What `Witness` leaves in the clock when no other goroutine interferes: its compare-and-swap then
-- succeeds in the first round. Rounds that fail are in `Clock.Race`.
unfoldable pub witness : ℕ → ℕ → ℕ
witness time t = if ltb t time then time else add64 t 1

pub lt-witness : (time t : ℕ) → t + 1 < u64 → t < witness time t
unfolding witness
lt-witness time t h = ground arith

pub le-witness : (time t : ℕ) → t + 1 < u64 → time ≤ witness time t
unfolding witness
le-witness time t h = ground arith

-- For a time that is not the last 64-bit one, `Witness` leaves the clock at the least time that is not
-- below the old one and is past the witnessed one: it is at most every such time.
pub witness-least : (time t m : ℕ) → t + 1 < u64 → time ≤ m → t < m → witness time t ≤ m
unfolding witness
witness-least time t m h p q = ground arith

-- Witnessing the largest 64-bit time sets every clock back to 0.
pub witness_wraps : (time : ℕ) → time < u64 → witness time (u64 - 1) ≡ 0
unfolding witness
witness_wraps time h = ground arith
