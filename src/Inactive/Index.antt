-- ===== src/Inactive/Index.antt =====
-- The map of ids and the list agree: the map marks an id exactly if the list has one entry with it,
-- and no id has two.
use cserf.Prelude.{
  if_both, ℕ, ◌≡◌, refl, ap, ◌∙◌, Bool, true, false, List, [], ◌∷◌, ◌++◌, Text, text_eq_iff,
  text_key, Dict, get, put, remove, get-put, get-remove, arith, Bool-cases, inl, inr,
}
use cserf.Messages.{MemberNode}
use cserf.Inactive.{
  InactiveNode, InactiveNodes, id_of, is_marked, add_fail, add_left, add_left_batch,
  remove_from_list, remove_failed, remove_left, handle_alive,
}
use cserf.Inactive.Count.{
  one_if, Test, count, count-append, has_id, Removed, absent, taken, removed,
}

pub record IsIndexed (xs : List InactiveNode) (m : Dict Text Bool) : Type 0 where
  pub counted : (id : Text) → count (has_id id) xs ≡ one_if (is_marked m id)

pub IsIndexed-nil : IsIndexed [] []
unfolding count get
IsIndexed-nil = record { counted = λ id. refl }

count-singleton : (p : Test) (x : InactiveNode) → count p (x ∷ []) ≡ one_if (p x)
unfolding count
count-singleton p x = omega arith

pub IsIndexed-add :
    (xs : List InactiveNode) (m : Dict Text Bool) (x : InactiveNode)
    → IsIndexed xs m
    → is_marked m (id_of x) ≡ false
    → IsIndexed (xs ++ (x ∷ [])) (put m (id_of x) true)
IsIndexed-add xs m x v new = record {
  counted = λ id. ground (
    arith,
    count-append (has_id id) xs (x ∷ []),
    count-singleton (has_id id) x,
    get-put m (id_of x) id true,
    text_eq_iff (id_of x) id,
    v.counted id,
    new,
  );
}

pub IsIndexed-remove :
    (xs : List InactiveNode) (m : Dict Text Bool) (id : Text)
    → IsIndexed xs m
    → IsIndexed (remove_from_list xs id) (remove m id)
IsIndexed-remove xs m id v = go (removed xs id)
  where
    go : Removed xs id → IsIndexed (remove_from_list xs id) (remove m id)
    go (absent none_there same) = record {
      counted = λ j. rw same (
          ground
            (arith, get-remove m id j, text_eq_iff id j, v.counted j, v.counted id, none_there));
    }
    go (taken a e less) = record {
      counted = λ j. ground (
        arith,
        get-remove m id j,
        text_eq_iff id j,
        text_eq_iff (id_of a) j,
        v.counted j,
        less (has_id j),
        e,
      );
    }

pub record IsConsistent (i : InactiveNodes) : Type 0 where
  pub failed : IsIndexed i.failed i.failed_map
  pub left : IsIndexed i.left i.left_map

pub add_fail-IsConsistent :
    (i : InactiveNodes) (now : ℕ) (n : MemberNode)
    → IsConsistent i
    → IsConsistent (add_fail i now n)
unfolding add_fail
add_fail-IsConsistent i now n v = elim (Bool-cases (is_marked i.failed_map n.id)) [
  | inl old ↦ rw old v
  | inr new ↦ rw new (record {
    failed = IsIndexed-add i.failed i.failed_map (record { node = n; time = now }) v.failed new;
    left = v.left;
  })
]

pub add_left-IsConsistent :
    (i : InactiveNodes) (now : ℕ) (n : MemberNode)
    → IsConsistent i
    → IsConsistent (add_left i now n)
unfolding add_left
add_left-IsConsistent i now n v = elim (Bool-cases (is_marked i.left_map n.id)) [
  | inl old ↦ rw old v
  | inr new ↦ rw new (record {
    failed = v.failed;
    left = IsIndexed-add i.left i.left_map (record { node = n; time = now }) v.left new;
  })
]

-- A batch of leaving nodes, known or not, keeps the map and the list in agreement: no node is listed twice.
pub add_left_batch-IsConsistent :
    (i : InactiveNodes) (now : ℕ) (ns : List MemberNode)
    → IsConsistent i
    → IsConsistent (add_left_batch i now ns)
unfolding add_left_batch
add_left_batch-IsConsistent i now [] v = v
add_left_batch-IsConsistent i now (n ∷ ns) v =
    if_both IsConsistent (is_marked i.left_map n.id) v
      (add_left_batch-IsConsistent (add_left i now n) now ns (add_left-IsConsistent i now n v))

remove_failed-IsConsistent :
    (i : InactiveNodes) (id : Text) → IsConsistent i → IsConsistent (remove_failed i id)
unfolding remove_failed
remove_failed-IsConsistent i id v =
    if_both IsConsistent (is_marked i.failed_map id)
      (record { failed = IsIndexed-remove i.failed i.failed_map id v.failed; left = v.left }) v

remove_left-IsConsistent :
    (i : InactiveNodes) (id : Text) → IsConsistent i → IsConsistent (remove_left i id)
unfolding remove_left
remove_left-IsConsistent i id v =
    if_both IsConsistent (is_marked i.left_map id)
      (record { failed = v.failed; left = IsIndexed-remove i.left i.left_map id v.left }) v

-- The nodes that a test sees are the same before and after, if it sees none with this id.
abbrev pub Overlooks : Test → Text → Type 0
Overlooks p id = (x : InactiveNode) → id_of x ≡ id → p x ≡ false

count-remove_overlooked :
    (xs : List InactiveNode) (id : Text) (p : Test)
    → Overlooks p id
    → count p (remove_from_list xs id) ≡ count p xs
count-remove_overlooked xs id p none_seen = go (removed xs id)
  where
    go : Removed xs id → count p (remove_from_list xs id) ≡ count p xs
    go (absent h same) = rw same
    go (taken a e less) = ground (arith, less p, none_seen a e)

failed-remove_failed :
    (i : InactiveNodes) (id : Text) (p : Test)
    → Overlooks p id
    → count p (remove_failed i id).failed ≡ count p i.failed
unfolding remove_failed
failed-remove_failed i id p h = ground (arith, count-remove_overlooked i.failed id p h)

left-remove_left :
    (i : InactiveNodes) (id : Text) (p : Test)
    → Overlooks p id
    → count p (remove_left i id).left ≡ count p i.left
unfolding remove_left
left-remove_left i id p h = ground (arith, count-remove_overlooked i.left id p h)

-- A node that is alive again is in neither list, in neither map, and no other entry is lost; the lists
-- and the maps still agree.
pub record Revives (i i' : InactiveNodes) (id : Text) : Type 0 where
  pub consistent : IsConsistent i'
  pub not_failed : (count (has_id id) i'.failed ≡ 0) × (is_marked i'.failed_map id ≡ false)
  pub not_left : (count (has_id id) i'.left ≡ 0) × (is_marked i'.left_map id ≡ false)
  pub others :
      (p : Test)
      → Overlooks p id
      → (count p i'.failed ≡ count p i.failed) × (count p i'.left ≡ count p i.left)

unmarked :
    {xs : List InactiveNode} {m : Dict Text Bool}
    → IsIndexed xs m
    → (id : Text) → is_marked m id ≡ false
    → (count (has_id id) xs ≡ 0) × (is_marked m id ≡ false)
unmarked v id e = (ground (arith, v.counted id), e)

handle_alive_maps :
    (i : InactiveNodes) (id : Text)
    → (is_marked (handle_alive i id).failed_map id ≡ false)
      × (is_marked (handle_alive i id).left_map id ≡ false)
unfolding handle_alive remove_failed remove_left
handle_alive_maps i id = (
  ground (arith, get-remove i.failed_map id id, text_eq_iff id id),
  ground (arith, get-remove i.left_map id id, text_eq_iff id id),
)

failed-remove_left : (i : InactiveNodes) (id : Text) → (remove_left i id).failed ≡ i.failed
unfolding remove_left
failed-remove_left i id = ground arith

left-remove_failed : (i : InactiveNodes) (id : Text) → (remove_failed i id).left ≡ i.left
unfolding remove_failed
left-remove_failed i id = ground arith

-- `handleAlive` revives the node, from lists and maps that agree.
pub handle_alive_lem :
    (i : InactiveNodes) (id : Text) → IsConsistent i → Revives i (handle_alive i id) id
unfolding handle_alive
handle_alive_lem i id v = record {
  consistent = after;
  not_failed = unmarked after.failed id (handle_alive_maps i id).0;
  not_left = unmarked after.left id (handle_alive_maps i id).1;
  others = λ p h. (
    rw failed-remove_left (failed-remove_failed i id p h),
    left-remove_left (remove_failed i id) id p h ∙ ap (count p) (left-remove_failed i id),
  );
}
  where
    after : IsConsistent (handle_alive i id)
    after = remove_left-IsConsistent (remove_failed i id) id (remove_failed-IsConsistent i id v)
