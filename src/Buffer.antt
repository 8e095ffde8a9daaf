-- ===== src/Buffer.antt =====
-- buffer.go: the ring of recent actions and queries, grouped by Lamport time.
-- A result `none` is a run-time panic.
pub mod History
pub mod Agree
pub mod Refine
pub mod Delivery
mod Tests
use cserf.Prelude.{
  ℕ, ◌-◌, ◌%◌, Bool, true, false, Option, none, some, List, [], ◌∷◌, ◌++◌, Text, text_eq, nat_eq,
  ltb, leb, length, get_or, set, if◌then◌else◌,
}

-- `lItem`. The payload is `none` for Go's nil slice.
pub record LItem : Type 0 where
  pub ltime : ℕ
  pub id : ℕ
  pub payload : Option Text

-- The bytes of a slice: nil has none.
abbrev pub slice_bytes : Option Text → Text
slice_bytes none = []
slice_bytes (some p) = p

-- `(*lItem).Equal`: a stored action compares payloads, a stored query compares ids.
unfoldable pub equal : LItem → LItem → Bool
equal l item =
    if nat_eq l.ltime item.ltime
    then (elim l.payload [
      | none ↦ nat_eq l.id item.id
      | some p ↦ text_eq p (slice_bytes item.payload)
    ])
    else false

-- `lGroupItem`
pub record LGroupItem : Type 0 where
  pub items : List LItem
  pub ltime : ℕ

-- The loop of `(*lGroupItem).has`.
unfoldable pub has_item : List LItem → LItem → Bool
has_item [] item = false
has_item (i ∷ is) item = if equal i item then true else has_item is item

unfoldable pub add : LGroupItem → LItem → LGroupItem
add g item = record g { items = g.items ++ (item ∷ []) }

-- `lBuffer`: a nil slot is `none`.
abbrev pub LBuffer : Type 0
LBuffer = List (Option LGroupItem)

unfoldable pub is_too_old : ℕ → ℕ → LItem → Bool
is_too_old size current item = if leb current size then false else ltb item.ltime (current - size)

abbrev pub slot : LBuffer → ℕ → ℕ
slot b t = t % length b

abbrev pub group_at : LBuffer → ℕ → Option LGroupItem
group_at b t = get_or b (slot b t) none

unfoldable pub is_ltime_new : Option LGroupItem → ℕ → Bool
is_ltime_new none t = true
is_ltime_new (some g) t = ltb g.ltime t

unfoldable pub add_new_ltime : LBuffer → LItem → LBuffer
add_new_ltime b item =
    set b (slot b item.ltime) (some (record { items = item ∷ []; ltime = item.ltime }))

-- The rest of `addItem`, for the group that it finds in the slot.
unfoldable pub join_group : LBuffer → Option LGroupItem → LItem → Option (Bool × LBuffer)
unfolding add has_item
join_group b none item = none
join_group b (some g) item =
    if has_item g.items item
    then some (false, b)
    else some (true, set b (slot b item.ltime) (some (add g item)))

-- `(*lBuffer).addItem`. In an empty buffer `item.LTime % b.len()` divides by zero.
unfoldable pub add_item : LBuffer → ℕ → LItem → Option (Bool × LBuffer)
add_item b current item =
    if is_too_old (length b) current item
    then some (false, b)
    else if nat_eq (length b) 0
    then none
    else if is_ltime_new (group_at b item.ltime) item.ltime
    then some (true, add_new_ltime b item)
    else join_group b (group_at b item.ltime) item
