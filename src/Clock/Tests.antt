-- ===== src/Clock/Tests.antt =====
-- The clock on small runs.
use cserf.Prelude.{◌≡◌, refl, ◌<◌, ◌≤◌, arith}
use cserf.Clock.{witness}
use cserf.Clock.Race.{
  Clocked, Run, IsSound, idle, start, loaded, finished, start_here, more, call, load, swap, update,
  AreBounded, IsSolo, witness_race, witness_alone,
}

abbrev quiet : Clocked
quiet = record { time = 1; pc = λ i. idle }

abbrev called : Clocked
called = record quiet { pc = update quiet.pc 0 (start 5) }

abbrev read : Clocked
read = record called { pc = update called.pc 0 (loaded 5 1) }

abbrev done : Clocked
done = record { time = 6; pc = update read.pc 0 (finished 5) }

quiet-IsSound : IsSound quiet
quiet-IsSound = record { at = λ i. tt }

abbrev quiet-done : Run quiet done
quiet-done =
    more (more (more start_here (call 0 5 tt (omega arith) refl)) (load 0 5 refl refl))
      (swap 0 5 1 refl (omega arith) refl refl)

quiet-AreBounded : AreBounded quiet-done
quiet-AreBounded = (((tt, omega arith), tt), tt)

witness_runs : (witness 1 5 ≡ 6) × (witness 9 5 ≡ 9)
unfolding witness
witness_runs = (refl, refl)

witness_race_example : (5 < done.time) × (done.time ≤ done.time)
witness_race_example = witness_race 0 5 quiet-IsSound quiet-done quiet-AreBounded refl start_here tt

witness_alone_example :
    (u : Clocked) × (r : Run called u) × IsSolo 0 r × (u.pc 0 ≡ finished 5) × (u.time ≡ witness 1 5)
witness_alone_example = witness_alone called 0 5 refl
