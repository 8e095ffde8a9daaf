-- ===== src/Snapshot/Tee/Tests.antt =====
-- One event on its way through the channels.
use cserf.Prelude.{refl, none, [], ◌∷◌, arith}
use cserf.Messages.{Event, on_action}
use cserf.Snapshot.Tee.{Pipe, Place, Step, Run, forward, new_pipe}
use cserf.Snapshot.Tee.Flow.{Flows, run-Flows}

abbrev event : Event
event = on_action (record { ltime = 3; name = []; payload = none })

abbrev sent : Pipe
sent = record new_pipe { in_ch = event ∷ []; sent = event ∷ [] }

abbrev taken : Pipe
taken = record sent { in_ch = []; tee_ch = forward [] event; place = Place.holding event }

run : Run new_pipe taken
run =
    Run.then_step (Run.then_step Run.here (Step.send event (omega arith) refl))
      (Step.take event [] refl refl refl)

run-Flows_example : Flows taken
run-Flows_example = run-Flows run
