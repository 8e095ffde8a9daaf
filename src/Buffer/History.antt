-- ===== src/Buffer/History.antt =====
-- The specification of the ring of buffer.go: it keeps all items ever accepted, and refuses those that are too
-- old or that `Equal` does not tell from one of them. For actions `Serf.Net.Action.is_known` writes this out.
use cserf.Prelude.{ℕ, ◌≡◌, Bool, true, false, List, [], ◌∷◌, ◌++◌, arith, if◌then◌else◌}
use cserf.Buffer.{LItem, has_item, is_too_old, equal}

unfoldable pub add_item : ℕ → List LItem → ℕ → LItem → Bool × List LItem
add_item size seen current item =
    if is_too_old size current item
    then (false, seen)
    else if has_item seen item
    then (false, seen)
    else (true, seen ++ (item ∷ []))

pub has_item-append :
    (seen : List LItem) (x y : LItem)
    → has_item (seen ++ (x ∷ [])) y ≡ (if has_item seen y then true else equal x y)
unfolding has_item
has_item-append [] x y = ground arith
has_item-append (s ∷ seen) x y = ground (arith, has_item-append seen x y)

pub has_item-singleton : (x y : LItem) → has_item (x ∷ []) y ≡ equal x y
unfolding has_item
has_item-singleton x y = ground arith
