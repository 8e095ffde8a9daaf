-- ===== src/Lifecycle/Tests.antt =====
-- A node that leaves and ends, and attempts to join.
use cserf.Prelude.{
  List, suc, ◌++◌, ℕ, ◌≡◌, ◌<◌, ◌⊎◌, refl, Bool, true, false, some, [], ◌∷◌, bytes, nat_eq,
}
use cserf.Lifecycle.{
  Life, StateType, new_life, retry_join, attempts, or_one, NodeIdAddr, rejoin_snapshot,
}
use cserf.Lifecycle.Ending.{Request, Ended, serve_all_lem, leave_calls, shutdown_calls, final_state}
use cserf.Lifecycle.Joining.{retry_join_lem}

abbrev requests : List Request
requests =
    Request.do_leave false ∷ Request.do_leave true ∷ Request.do_shutdown ∷ Request.do_shutdown ∷ []

serve_all_lem_example :
    Ended new_life requests (leave_calls requests ++ shutdown_calls requests) (final_state requests)
serve_all_lem_example = serve_all_lem requests

-- The second attempt succeeds.
abbrev second : ℕ → Bool
second i = nat_eq i 1

retries : retry_join second (bytes "a" ∷ []) 3 new_life ≡ (2, some new_life)
unfolding retry_join attempts
retries = refl

retry_join_lem_example :
    ((k : ℕ) × (k < or_one 3)
      × (second k ≡ true)
      × ((j : ℕ) → j < k → second j ≡ false)
      × (retry_join second (bytes "a" ∷ []) 3 new_life ≡ (suc k, some new_life)))
    ⊎ (((j : ℕ) → j < or_one 3 → second j ≡ false)
        × ((l' : Life) × (retry_join second (bytes "a" ∷ []) 3 new_life ≡ (or_one 3, some l'))
            × (l'.state ≡ StateType.serf_shutdown)))
retry_join_lem_example = retry_join_lem second (bytes "a") [] 3 new_life refl

abbrev known : NodeIdAddr
known = record { id = bytes "n"; addr = bytes "b" }

abbrev own : NodeIdAddr
own = record { id = bytes "m"; addr = bytes "a" }

rejoins :
    rejoin_snapshot (λ a. true) (bytes "me") (bytes "a") (own ∷ known ∷ known ∷ []) ≡ bytes "b" ∷ []
unfolding rejoin_snapshot
rejoins = refl
