-- ===== src/Inactive/Count.antt =====
-- How many entries of a list pass a test, and what `removeFromList` does to that.
use cserf.Prelude.{
  ℕ, zero, suc, ◌+◌, ◌-◌, ◌<◌, ◌≤◌, ◌≡◌, ◌≢◌, refl, ap, Bool, true, false, some, List, [], ◌∷◌,
  ◌++◌, Text, text_eq, text_eq_iff, length, length-set, get_elem?, set, take, arith, Bool-cases,
  inl, inr, ℕ_discrete, ◌∙◌,
}
use mathlib.Core.Option.{some-injective}
use cserf.Inactive.{InactiveNode, id_of, find_index, remove_from_list}

abbrev pub one_if : Bool → ℕ
one_if true = 1
one_if false = 0

abbrev pub Test : Type 0
Test = InactiveNode → Bool

unfoldable pub count : Test → List InactiveNode → ℕ
count p [] = 0
count p (x ∷ xs) = one_if (p x) + count p xs

pub count-append :
    (p : Test) (xs ys : List InactiveNode) → count p (xs ++ ys) ≡ count p xs + count p ys
unfolding count
count-append p [] ys = omega arith
count-append p (x ∷ xs) ys = omega (arith, count-append p xs ys)

count-set :
    (p : Test) (xs : List InactiveNode) (i : ℕ) (a v : InactiveNode)
    → get_elem? xs i ≡ some a
    → count p (set xs i v) + one_if (p a) ≡ count p xs + one_if (p v)
unfolding count
count-set p [] i a v e = cc
count-set p (x ∷ xs) zero a v e = ground arith
count-set p (x ∷ xs) (suc i) a v e = omega (arith, count-set p xs i a v e)

count-take :
    (p : Test) (xs : List InactiveNode) (n : ℕ) (a : InactiveNode)
    → length xs ≡ suc n
    → get_elem? xs n ≡ some a
    → count p (take n xs) + one_if (p a) ≡ count p xs
unfolding count
count-take p [] n a len e = cc
count-take p (x ∷ []) zero a len e = omega (arith, ap (λ y. one_if (p y)) (some-injective x a e))
count-take p (x ∷ y ∷ xs) zero a len e = absurd (omega arith)
count-take p (x ∷ xs) (suc n) a len e = omega (arith, count-take p xs n a (omega arith) e)

get_elem?-some :
    (xs : List InactiveNode) (i : ℕ)
    → i < length xs
    → (a : InactiveNode) × (get_elem? xs i ≡ some a)
get_elem?-some [] i h = absurd (omega arith)
get_elem?-some (x ∷ xs) zero h = (x, refl)
get_elem?-some (x ∷ xs) (suc i) h = get_elem?-some xs i (omega arith)

get_elem?-set_self :
    (xs : List InactiveNode) (i : ℕ) (v : InactiveNode)
    → i < length xs
    → get_elem? (set xs i v) i ≡ some v
get_elem?-set_self [] i v h = absurd (omega arith)
get_elem?-set_self (x ∷ xs) zero v h = refl
get_elem?-set_self (x ∷ xs) (suc i) v h = get_elem?-set_self xs i v (omega arith)

get_elem?-set_ne :
    (xs : List InactiveNode) (i j : ℕ) (v : InactiveNode)
    → i ≢ j
    → get_elem? (set xs i v) j ≡ get_elem? xs j
get_elem?-set_ne [] i j v h = refl
get_elem?-set_ne (x ∷ xs) zero zero v h = absurd (h refl)
get_elem?-set_ne (x ∷ xs) zero (suc j) v h = refl
get_elem?-set_ne (x ∷ xs) (suc i) zero v h = refl
get_elem?-set_ne (x ∷ xs) (suc i) (suc j) v h = get_elem?-set_ne xs i j v (λ e. h (omega arith))

-- Where the search stops.
find_index-le : (id : Text) (xs : List InactiveNode) → find_index id xs ≤ length xs
unfolding find_index
find_index-le id [] = omega arith
find_index-le id (x ∷ xs) = ground (arith, find_index-le id xs)

find_index-id :
    (id : Text) (xs : List InactiveNode) (a : InactiveNode)
    → get_elem? xs (find_index id xs) ≡ some a
    → id_of a ≡ id
unfolding find_index
find_index-id id [] a e = cc
find_index-id id (x ∷ xs) a e = elim (Bool-cases (text_eq (id_of x) id)) [
  | inl same ↦ ground (arith, same, e, text_eq_iff (id_of x) id)
  | inr other ↦ find_index-id id xs a (rw other at e)
]

abbrev pub has_id : Text → Test
has_id id x = text_eq (id_of x) id

find_index-absent :
    (id : Text) (xs : List InactiveNode) → find_index id xs ≡ length xs → count (has_id id) xs ≡ 0
unfolding find_index count
find_index-absent id [] e = refl
find_index-absent id (x ∷ xs) e = ground (arith, find_index-absent id xs)

-- The last entry after the write of the last entry at `i` is still the last entry.
last_stays :
    (xs : List InactiveNode) (i n : ℕ) (b : InactiveNode)
    → n < length xs
    → get_elem? xs n ≡ some b
    → get_elem? (set xs i b) n ≡ some b
last_stays xs i n b lt e = elim (ℕ_discrete i n) [
  | yes p ↦ rw p (get_elem?-set_self xs n b lt)
  | no q ↦ get_elem?-set_ne xs i n b q ∙ e
]

module _ (xs : List InactiveNode) (id : Text) (a b : InactiveNode)
    (found : get_elem? xs (find_index id xs) ≡ some a) (within : find_index id xs < length xs)
    (last : get_elem? xs (length xs - 1) ≡ some b) where
  swapped : List InactiveNode
  swapped = set (set xs (find_index id xs) b) (length xs - 1) a

  length-swapped : length swapped ≡ length xs
  unfolding swapped
  length-swapped =
      length-set (set xs (find_index id xs) b) (length xs - 1) a
      ∙ length-set xs (find_index id xs) b

  remove-eq-take : remove_from_list xs id ≡ take (length xs - 1) swapped
  unfolding remove_from_list swapped
  remove-eq-take = ground (arith, found, last, within)

  count-remove : (p : Test) → count p (remove_from_list xs id) + one_if (p a) ≡ count p xs
  unfolding swapped
  count-remove p = rw remove-eq-take (
      omega (
        arith,
        count-take p swapped (length xs - 1) a (omega (arith, length-swapped)) (
            get_elem?-set_self (set xs (find_index id xs) b) (length xs - 1) a
              (omega (arith, length-set xs (find_index id xs) b))),
        count-set p (set xs (find_index id xs) b) (length xs - 1) b a
            (last_stays xs (find_index id xs) (length xs - 1) b (omega arith) last),
        count-set p xs (find_index id xs) a b found,
      ))

-- What `removeFromList` takes out: nothing if no entry has the id, and one entry with it otherwise.
pub data Removed (xs : List InactiveNode) (id : Text) : Type 0 where
  absent : count (has_id id) xs ≡ 0 → remove_from_list xs id ≡ xs → Removed xs id
  taken :
      (a : InactiveNode)
      → id_of a ≡ id
      → ((p : Test) → count p (remove_from_list xs id) + one_if (p a) ≡ count p xs)
      → Removed xs id

pub removed : (xs : List InactiveNode) (id : Text) → Removed xs id
unfolding remove_from_list
removed xs id = elim (ℕ_discrete (find_index id xs) (length xs)) [
  | yes e ↦ absent (find_index-absent id xs e) (ground (arith, e))
  | no ne ↦ found_one (omega (arith, find_index-le id xs))
]
  where
    found_one : find_index id xs < length xs → Removed xs id
    found_one lt =
        let (a, found) = get_elem?-some xs (find_index id xs) lt in
        let (b, last) = get_elem?-some xs (length xs - 1) (omega arith) in
        taken a (find_index-id id xs a found) (count-remove xs id a b found lt last)
