-- ===== src/Clock/Race.antt =====
-- `Next` and `Witness` of lamport.go as goroutines run them: each atomic access is a step, and the
-- steps of different goroutines interleave in every order.
use cserf.Prelude.{
  ℕ, ◌+◌, ◌≤◌, ◌<◌, ◌≡◌, refl, ◌≢◌, Bool, arith, nat_eq, if◌then◌else◌, u64, add64, dec_lt,
  le→ltb_false, lt→ltb,
}
use cserf.Clock.{next, witness}

-- Where a goroutine stands in `Witness(t)`.
pub data Pc : Type 0 where
  idle : Pc
  start : ℕ → Pc
  loaded : ℕ → ℕ → Pc
  finished : ℕ → Pc

pub record Clocked : Type 0 where
  pub time : ℕ
  pub pc : ℕ → Pc

abbrev pub update : (ℕ → Pc) → ℕ → Pc → ℕ → Pc
update f i p j = if nat_eq i j then p else f j

-- A goroutine that is in no call of `Witness`.
abbrev pub IsReady : Pc → Type 0
IsReady idle = Unit
IsReady (finished t) = Unit
IsReady _ = ⊥

-- One atomic access of goroutine `i`, or a call of `Next`; both additions wrap at 64 bits.
pub data Step (s : Clocked) (u : Clocked) : Type 0 where
  call :
      (i t : ℕ)
      → IsReady (s.pc i)
      → t < u64
      → u ≡ record s { pc = update s.pc i (start t) }
      → Step s u
  load :
      (i t : ℕ)
      → s.pc i ≡ start t
      → u ≡ record s { pc = update s.pc i (loaded t s.time) }
      → Step s u
  leave :
      (i t t0 : ℕ)
      → s.pc i ≡ loaded t t0
      → t < t0
      → u ≡ record s { pc = update s.pc i (finished t) }
      → Step s u
  swap :
      (i t t0 : ℕ)
      → s.pc i ≡ loaded t t0
      → t0 ≤ t
      → s.time ≡ t0
      → u ≡ record { time = add64 t 1; pc = update s.pc i (finished t) }
      → Step s u
  retry :
      (i t t0 : ℕ)
      → s.pc i ≡ loaded t t0
      → t0 ≤ t
      → s.time ≢ t0
      → u ≡ record s { pc = update s.pc i (start t) }
      → Step s u
  tick : u ≡ record s { time = next s.time } → Step s u

-- Any number of steps, the last one outermost.
pub data Run (s : Clocked) : Clocked → Type 0 where
  more : {u v : Clocked} → Run s u → Step u v → Run s v
  start_here : Run s s

-- A step that does not pass the last 64-bit time, as `Next` there does and a call of `Witness` with it.
abbrev pub IsBounded : {s u : Clocked} → Step s u → Type 0
IsBounded {s} (call i t ready h e) = t + 1 < u64
IsBounded {s} (tick e) = s.time + 1 < u64
IsBounded _ = Unit

abbrev pub AreBounded : {s u : Clocked} → Run s u → Type 0
AreBounded start_here = Unit
AreBounded (more r st) = AreBounded r × IsBounded st

-- What a goroutine's place says of the shared time.
abbrev pub Holds : ℕ → Pc → Type 0
Holds time idle = Unit
Holds time (start t) = t + 1 < u64
Holds time (loaded t t0) = (t + 1 < u64) × (t0 ≤ time)
Holds time (finished t) = t < time

pub record IsSound (s : Clocked) : Type 0 where
  pub at : (i : ℕ) → Holds s.time (s.pc i)

Holds-later : (m n : ℕ) (p : Pc) → m ≤ n → Holds m p → Holds n p
Holds-later m n idle h q = q
Holds-later m n (start t) h q = q
Holds-later m n (loaded t t0) h q = omega arith
Holds-later m n (finished t) h q = omega arith

Holds-update :
    (n : ℕ) (f : ℕ → Pc) (i : ℕ) (p : Pc)
    → Holds n p
    → ((j : ℕ) → Holds n (f j))
    → (j : ℕ) → Holds n (update f i p j)
Holds-update n f i p h q j = elim (nat_eq i j) as (λ b. Holds n (if b then p else f j)) [
  | Bool.true ↦ h
  | Bool.false ↦ q j
]

module _ {s : Clocked} (sound : IsSound s) where
  Holds-of : (i : ℕ) {p : Pc} → s.pc i ≡ p → Holds s.time p
  Holds-of i e = rw e at (sound.at i)

  -- A step that leaves the time alone and moves goroutine `i` to a sound place.
  moved : (i : ℕ) (p : Pc) → Holds s.time p → IsSound (record s { pc = update s.pc i p })
  moved i p h = record { at = Holds-update s.time s.pc i p h sound.at }

  -- A step that raises the time.
  raised :
      (n : ℕ) (i : ℕ) (p : Pc)
      → s.time ≤ n
      → Holds n p
      → IsSound (record { time = n; pc = update s.pc i p })
  raised n i p le h = record {
    at = Holds-update n s.pc i p h (λ j. Holds-later s.time n (s.pc j) le (sound.at j));
  }

Step-keeps :
    {s u : Clocked} → IsSound s → (st : Step s u) → IsBounded st → IsSound u × (s.time ≤ u.time)
unfolding next
Step-keeps {s} sound (call i t ready _ e) h = rw e (moved sound i (start t) h, omega arith)
Step-keeps {s} sound (load i t p e) _ =
    rw e (moved sound i (loaded t s.time) (omega (arith, Holds-of sound i p)), omega arith)
Step-keeps {s} sound (leave i t t0 p lt e) _ =
    rw e (moved sound i (finished t) (omega (arith, Holds-of sound i p)), omega arith)
Step-keeps {s} sound (swap i t t0 p le same e) _ = rw e (
  raised sound (add64 t 1) i (finished t) (omega (arith, Holds-of sound i p))
      (omega (arith, Holds-of sound i p)),
  omega (arith, Holds-of sound i p),
)
Step-keeps {s} sound (retry i t t0 p le ne e) _ =
    rw e (moved sound i (start t) (omega (arith, Holds-of sound i p)), omega arith)
Step-keeps {s} sound (tick e) h = rw e (
  record { at = λ j. Holds-later s.time (next s.time) (s.pc j) (omega arith) (sound.at j) },
  omega arith,
)

Run-keeps :
    {s u : Clocked} → IsSound s → (r : Run s u) → AreBounded r → IsSound u × (s.time ≤ u.time)
Run-keeps h start_here _ = (h, omega arith)
Run-keeps h (more r st) (b, c) =
    let (h', le) = Run-keeps h r b in let (h'', le') = Step-keeps h' st c in (h'', omega arith)

-- However the atomic accesses of any number of goroutines interleave, from a sound state on: when a call of
-- `Witness(t)` has returned, the clock is past `t`, and it never goes back later. The condition is that no step
-- passes the last 64-bit time, by a call of `Next` at it or of `Witness` with it.
pub witness_race :
    {s u v : Clocked} (i t : ℕ)
    → IsSound s
    → (r : Run s u) → AreBounded r
    → u.pc i ≡ finished t
    → (later : Run u v) → AreBounded later
    → (t < u.time) × (u.time ≤ v.time)
witness_race i t h r b e later c =
    let (h', le) = Run-keeps h r b in (Holds-of h' i e, (Run-keeps h' later c).1)

-- Without the condition both fail: a call of `Next` at the last time takes every clock back to 0.
pub next_wraps : (s : Clocked) → s.time + 1 ≡ u64 → Step s (record s { time = 0 })
unfolding next
next_wraps s e = tick (ground (arith, e))

-- A step of goroutine `i` inside its call of `Witness`.
abbrev pub IsOwn : ℕ → {s u : Clocked} → Step s u → Type 0
IsOwn i (load j t p e) = j ≡ i
IsOwn i (leave j t t0 p lt e) = j ≡ i
IsOwn i (swap j t t0 p le same e) = j ≡ i
IsOwn i (retry j t t0 p le ne e) = j ≡ i
IsOwn i _ = ⊥

-- A run in which only goroutine `i` moves.
abbrev pub IsSolo : ℕ → {s u : Clocked} → Run s u → Type 0
IsSolo i start_here = Unit
IsSolo i (more r st) = IsSolo i r × IsOwn i st

update_self : (f : ℕ → Pc) (i : ℕ) (p : Pc) → update f i p i ≡ p
update_self f i p = ground arith

-- A goroutine that runs alone from the start of a call of `Witness(t)` returns from it: by its own steps only, with
-- no step of another goroutine and no call of `Next`, it comes to the end of the call, and the time is then
-- what `witness` gives.
pub witness_alone :
    (s : Clocked) (i t : ℕ)
    → s.pc i ≡ start t
    → (u : Clocked) × (r : Run s u) × IsSolo i r
      × (u.pc i ≡ finished t)
      × (u.time ≡ witness s.time t)
unfolding witness
witness_alone s i t e = elim (dec_lt t s.time) [
  | yes p ↦ (
    record mid { pc = after },
    more read (leave i t s.time (update_self s.pc i (loaded t s.time)) p refl),
    ((tt, refl), refl),
    update_self mid.pc i (finished t),
    rw (lt→ltb _ _ p),
  )
  | no p ↦ (
    record { time = add64 t 1; pc = after },
    more read (swap i t s.time (update_self s.pc i (loaded t s.time)) (omega arith) refl refl),
    ((tt, refl), refl),
    update_self mid.pc i (finished t),
    rw (le→ltb_false t s.time (omega arith)),
  )
]
  where
    mid : Clocked
    mid = record s { pc = update s.pc i (loaded t s.time) }

    after : ℕ → Pc
    after = update mid.pc i (finished t)

    read : Run s mid
    read = more start_here (load i t e refl)
