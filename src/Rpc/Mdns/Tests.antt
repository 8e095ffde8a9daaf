-- ===== src/Rpc/Mdns/Tests.antt =====
-- Two results, one of them the node's own address.
use cserf.Prelude.{refl, List, [], ◌∷◌, bytes, ◌≡◌, text_key, put, get}
use cserf.Rpc.Mdns.{Signal, on_result, on_wait, on_poll, new_cluster_mdns, run}
use cserf.Rpc.Mdns.Found.{Discovers, run_lem}

abbrev signals : List Signal
signals =
    on_poll
    ∷ on_result (bytes "a")
    ∷ on_result (bytes "b")
    ∷ on_wait
    ∷ on_result (bytes "c")
    ∷ on_wait
    ∷ []

run_lem_example :
    Discovers (bytes "a") signals (run (new_cluster_mdns (bytes "x") (bytes "a")) signals)
run_lem_example = run_lem (bytes "x") (bytes "a") signals

-- The second call is given the host of the first one again.
joined_again :
    (run (new_cluster_mdns (bytes "x") (bytes "a")) signals).joined
    ≡ (bytes "b" ∷ []) ∷ (bytes "b" ∷ bytes "c" ∷ []) ∷ []
unfolding run new_cluster_mdns get put
joined_again = refl
