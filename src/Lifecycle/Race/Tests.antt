-- ===== src/Lifecycle/Race/Tests.antt =====
-- Two goroutines that shut a new node down.
use cserf.Prelude.{◌≡◌, refl, true, arith}
use cserf.Lifecycle.Race.{Node, Run}
use cserf.Lifecycle.Race.Panics.{Anyone, new_node, shutdown_twice_panics}

shutdown_twice_panics_example : (u : Node) × Run Anyone new_node u × (u.panicked ≡ true)
shutdown_twice_panics_example =
    shutdown_twice_panics new_node 1 2 (λ e. absurd (omega (arith, e))) refl refl refl
