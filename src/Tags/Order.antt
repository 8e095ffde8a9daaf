-- ===== src/Tags/Order.antt =====
-- The order in which a script reads the tags of a member.
use cserf.Prelude.{
  ◌≡◌, ◌≢◌, refl, sym, ap, ◌∙◌, none, some, [], ◌∷◌, Text, text_key, text_eq, text_eq_iff,
  text_lt_total, text_lt_trans, Dict, get, remove, get-remove, IsMap, remove-IsMap, arith,
  Bool-cases, inl, inr,
}
use cserf.Tags.{insert_pair, to_kv_pairs, to_kv_pairs_string, join_pairs}

-- Two pairs of different names may be inserted in any order.
insert_swap :
    (p q : Text × Text) (m : Dict Text Text)
    → p.0 ≢ q.0
    → insert_pair p (insert_pair q m) ≡ insert_pair q (insert_pair p m)
unfolding insert_pair
insert_swap p q [] ne = ground (arith, text_lt_total (p.0) (q.0) ne)
insert_swap p q (r ∷ m) ne = ground (
  arith,
  text_lt_total (p.0) (q.0) ne,
  text_lt_trans (p.0) (q.0) (r.0),
  text_lt_trans (q.0) (p.0) (r.0),
  insert_swap p q m ne,
)

remove_absent : (m : Dict Text Text) (k : Text) → get m k ≡ none → remove m k ≡ m
unfolding remove get
remove_absent [] k h = refl
remove_absent ((j, v) ∷ m) k h = ground (arith, remove_absent m k, h)

-- An entry is sorted in last, wherever it stands.
pull_out :
    (m : Dict Text Text) (k v : Text)
    → IsMap m
    → get m k ≡ some v
    → to_kv_pairs m ≡ insert_pair (k, v) (to_kv_pairs (remove m k))
unfolding to_kv_pairs get remove
pull_out [] k v h e = ground (arith, e)
pull_out ((j, w) ∷ m) k v h e = elim (Bool-cases (text_eq j k)) [
  | inl same ↦
      rw (same, remove_absent m k (ground (arith, h.0, same, text_eq_iff j k)))
        (ap (λ p. insert_pair p (to_kv_pairs m)) (ground (arith, e, same, text_eq_iff j k)))
  | inr other ↦ rw other (
      ap (insert_pair (j, w)) (pull_out m k v (h.1) (ground (arith, e, other)))
      ∙ insert_swap (j, w) (k, v) (to_kv_pairs (remove m k))
          (ground (arith, other, text_eq_iff j k)))
]

get-head : (k v : Text) (m : Dict Text Text) → get ((k, v) ∷ m) k ≡ some v
unfolding get
get-head k v m = ground (arith, text_eq_iff k k)

get-tail :
    (k v : Text) (m m' : Dict Text Text)
    → IsMap ((k, v) ∷ m)
    → ((j : Text) → get ((k, v) ∷ m) j ≡ get m' j)
    → (j : Text) → get m j ≡ get (remove m' k) j
unfolding get
get-tail k v m m' h same j = ground (arith, same j, h.0, get-remove m' k j, text_eq_iff k j)

same-to_kv_pairs :
    (m m' : Dict Text Text)
    → IsMap m
    → IsMap m'
    → ((k : Text) → get m k ≡ get m' k)
    → to_kv_pairs m ≡ to_kv_pairs m'
unfolding to_kv_pairs get
same-to_kv_pairs [] [] h h' same = refl
same-to_kv_pairs [] ((k, v) ∷ m') h h' same = absurd (ground (arith, same k, get-head k v m'))
same-to_kv_pairs ((k, v) ∷ m) m' h h' same =
    ap (insert_pair (k, v))
      (same-to_kv_pairs m (remove m' k) (h.1) (remove-IsMap m' k h') (get-tail k v m m' h same))
    ∙ sym (pull_out m' k v h' (sym (same k) ∙ get-head k v m))

-- What a script reads of the tags does not depend on the order in which Go's `range` visits the map: two
-- orders of the same map give the same string.
pub to_kv_pairs_string_lem :
    (m m' : Dict Text Text)
    → IsMap m
    → IsMap m'
    → ((k : Text) → get m k ≡ get m' k)
    → to_kv_pairs_string m ≡ to_kv_pairs_string m'
unfolding to_kv_pairs_string
to_kv_pairs_string_lem m m' h h' same = ap join_pairs (same-to_kv_pairs m m' h h' same)
