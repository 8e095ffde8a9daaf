-- ===== src/Buffer/Tests.antt =====
-- The buffer on small runs.
use cserf.Prelude.{
  ℕ, ◌≡◌, refl, arith, Bool, true, false, none, some, List, [], ◌∷◌, ◌++◌, replicate, bytes,
}
use cserf.Clock
use cserf.Buffer.{
  LItem, LBuffer, add_item, is_too_old, is_ltime_new, add_new_ltime, join_group, has_item, equal,
  add,
}
use cserf.Buffer.Agree.{Refines, new_refines}
use cserf.Buffer.Delivery.{Move, witness, offer, run, run_history, run_refines, accept_once}

abbrev item : ℕ → LItem
item t = record { ltime = t; id = 7; payload = none }

abbrev payloads : LItem
payloads = record { ltime = 1; id = 0; payload = some (bytes "a") }

abbrev empty : LBuffer
empty = replicate 2 none

abbrev moves : List Move
moves =
    witness 3 ∷ offer (item 3) ∷ offer (item 3) ∷ offer (item 1) ∷ witness 8 ∷ offer (item 3) ∷ []

runs : run 1 empty moves ≡ some (true ∷ false ∷ false ∷ false ∷ [])
unfolding Clock.witness run add_item is_too_old is_ltime_new add_new_ltime join_group has_item equal
    add
runs = refl

empty-Refines : (clock : ℕ) → Refines clock empty []
empty-Refines clock = new_refines clock 2 (omega arith)

run_refines_example : run 1 empty moves ≡ some (run_history 2 1 [] moves)
unfolding Clock.witness
run_refines_example =
    run_refines moves (empty-Refines 1) (
      omega arith,
      (ground arith, (ground arith, (ground arith, (omega arith, (ground arith, tt))))),
    )

abbrev filled : LBuffer
filled = none ∷ some (record { items = payloads ∷ []; ltime = 1 }) ∷ []

accepted : add_item empty 2 payloads ≡ some (true, filled)
unfolding add_item is_too_old is_ltime_new add_new_ltime
accepted = refl

same_payload : equal payloads payloads ≡ true
unfolding equal
same_payload = refl

accept_once_example :
    (rs : List Bool) × (run 2 filled (offer (item 1) ∷ witness 2 ∷ []) ≡ some rs)
    × (run 2 filled ((offer (item 1) ∷ witness 2 ∷ []) ++ (offer payloads ∷ []))
        ≡ some (rs ++ (false ∷ [])))
unfolding Clock.witness
accept_once_example =
    accept_once payloads payloads (offer (item 1) ∷ witness 2 ∷ []) (empty-Refines 2) (omega arith)
      accepted same_payload (omega arith, (omega arith, (ground arith, tt)))
