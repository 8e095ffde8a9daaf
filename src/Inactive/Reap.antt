-- ===== src/Inactive/Reap.antt =====
-- `removeTimeouts` and `reap` of inactive.go, counted by tests on the entries.
use cserf.Prelude.{
  ℕ, ◌+◌, ◌<◌, ◌≡◌, refl, ap₂, ◌∙◌, Bool, true, false, not, ◌&&◌, List, [], ◌∷◌, ◌++◌, Text,
  text_eq, text_eq_iff, text_key, Dict, remove, arith, if◌then◌else◌, Bool-cases, inl, inr, nat_eq,
}
use cserf.Messages.{MemberNode}
use cserf.Inactive.{
  InactiveNode, InactiveNodes, id_of, remove_from_list, is_expired, expired_nodes, remove_each,
  remove_timeouts, reap,
}
use cserf.Inactive.Count.{one_if, Test, count, has_id, Removed, absent, taken, removed}
use cserf.Inactive.Index.{IsIndexed, IsIndexed-remove, IsConsistent}

abbrev pub both : Test → Test → Test
both p q x = p x && q x

abbrev pub but_not : Test → Test → Test
but_not p q x = p x && not (q x)

count-split :
    (p q : Test) (xs : List InactiveNode)
    → count p xs ≡ count (both p q) xs + count (but_not p q) xs
unfolding count
count-split p q [] = omega arith
count-split p q (x ∷ xs) = ground (arith, count-split p q xs)

-- Nothing to remove: an entry that passes `q` would be counted with its own id.
count-but_not_nothing :
    (p q : Test) (xs : List InactiveNode)
    → ((j : Text) → count (both (has_id j) q) xs ≡ 0)
    → count p xs ≡ count (but_not p q) xs
unfolding count
count-but_not_nothing p q [] h = refl
count-but_not_nothing p q (x ∷ xs) h = ground (
  arith,
  h (id_of x),
  text_eq_iff (id_of x) (id_of x),
  count-but_not_nothing p q xs (λ j. omega (arith, h j)),
)

abbrev pub count_ids : Text → List MemberNode → ℕ
count_ids j [] = 0
count_ids j (n ∷ ns) = one_if (text_eq n.id j) + count_ids j ns

count-expired :
    (now timeout : ℕ) (xs : List InactiveNode) (j : Text)
    → count (both (has_id j) (is_expired now timeout)) xs
      ≡ count_ids j (expired_nodes now timeout xs)
unfolding count expired_nodes
count-expired now timeout [] j = refl
count-expired now timeout (x ∷ xs) j = ground (arith, count-expired now timeout xs j)

module _ (q : Test) where
  -- The entry that an id of the removal list finds passes the test.
  taken_passes :
      (xs : List InactiveNode) (m : Dict Text Bool) (id : Text) (a : InactiveNode)
      → IsIndexed xs m
      → 0 < count (both (has_id id) q) xs
      → id_of a ≡ id
      → ((p : Test) → count p (remove_from_list xs id) + one_if (p a) ≡ count p xs)
      → q a ≡ true
  taken_passes xs m id a v some_one e less = ground (
    arith,
    v.counted id,
    count-split (has_id id) q xs,
    less (but_not (has_id id) q),
    text_eq_iff (id_of a) id,
    e,
  )

  -- What the removal loop leaves, for every test: the entries that do not pass `q`.
  record Leaves (xs : List InactiveNode) (after : List InactiveNode × Dict Text Bool) : Type 0 where
    indexed : IsIndexed after.0 after.1
    rest : (p : Test) → count p after.0 ≡ count (but_not p q) xs

  -- One removal takes an entry that passes, and leaves the count of all others.
  remove_one :
      (xs : List InactiveNode) (m : Dict Text Bool) (id : Text)
      → IsIndexed xs m
      → 0 < count (both (has_id id) q) xs
      → (p : Test)
      → (count (but_not p q) (remove_from_list xs id) ≡ count (but_not p q) xs)
        × ((j : Text)
            → count (both (has_id j) q) (remove_from_list xs id) + one_if (text_eq id j)
              ≡ count (both (has_id j) q) xs)
  remove_one xs m id v some_one p = go (removed xs id)
    where
      go :
          Removed xs id
          → (count (but_not p q) (remove_from_list xs id) ≡ count (but_not p q) xs)
            × ((j : Text)
                → count (both (has_id j) q) (remove_from_list xs id) + one_if (text_eq id j)
                  ≡ count (both (has_id j) q) xs)
      go (absent h same) = absurd (omega (arith, count-split (has_id id) q xs))
      go (taken a e less) =
          let passes = taken_passes xs m id a v some_one e less in
          (
            ground (arith, less (but_not p q), passes),
            λ j. ground (arith, less (both (has_id j) q), passes, e),
          )

  has_one :
      (n : MemberNode) (ns : List MemberNode) (xs : List InactiveNode)
      → count (both (has_id n.id) q) xs ≡ count_ids n.id (n ∷ ns)
      → 0 < count (both (has_id n.id) q) xs
  has_one n ns xs same = ground (arith, text_eq_iff n.id n.id)

  remove_each-Leaves :
      (ns : List MemberNode) (xs : List InactiveNode) (m : Dict Text Bool)
      → IsIndexed xs m
      → ((j : Text) → count (both (has_id j) q) xs ≡ count_ids j ns)
      → Leaves xs (remove_each xs m ns)
  unfolding remove_each
  remove_each-Leaves [] xs m v same = record {
    indexed = v;
    rest = λ p. count-but_not_nothing p q xs same;
  }
  remove_each-Leaves (n ∷ ns) xs m v same =
      let some_one = has_one n ns xs (same n.id) in
      let later =
        remove_each-Leaves ns (remove_from_list xs n.id) (remove m n.id)
          (IsIndexed-remove xs m n.id v)
          (λ j. omega (arith, (remove_one xs m n.id v some_one (has_id j)).1 j, same j)) in
      record {
        indexed = later.indexed;
        rest = λ p. later.rest p ∙ (remove_one xs m n.id v some_one p).0;
      }

-- The entries that stay: those younger than the timeout, or all if it is zero.
abbrev pub stays : ℕ → ℕ → Test
stays now timeout x = if nat_eq timeout 0 then true else not (is_expired now timeout x)

abbrev pub expired_or_none : ℕ → ℕ → List InactiveNode → List MemberNode
expired_or_none now timeout xs = if nat_eq timeout 0 then [] else expired_nodes now timeout xs

count-both :
    (p q : Test) (xs : List InactiveNode)
    → ((x : InactiveNode) → q x ≡ true)
    → count p xs ≡ count (both p q) xs
unfolding count
count-both p q [] h = refl
count-both p q (x ∷ xs) h = ground (arith, h x, count-both p q xs h)

count-stays :
    (now timeout : ℕ) (p : Test) (xs : List InactiveNode)
    → nat_eq timeout 0 ≡ false
    → count (but_not p (is_expired now timeout)) xs ≡ count (both p (stays now timeout)) xs
unfolding count
count-stays now timeout p [] h = refl
count-stays now timeout p (x ∷ xs) h = ground (arith, count-stays now timeout p xs h)

pub record Reaps (now timeout : ℕ) (xs : List InactiveNode)
    (r : List MemberNode × List InactiveNode × Dict Text Bool) : Type 0 where
  pub gone : r.0 ≡ expired_or_none now timeout xs
  pub indexed : IsIndexed r.1 r.2
  pub rest : (p : Test) → count p r.1 ≡ count (both p (stays now timeout)) xs

remove_timeouts-Reaps :
    (now timeout : ℕ) (xs : List InactiveNode) (m : Dict Text Bool)
    → IsIndexed xs m
    → Reaps now timeout xs (remove_timeouts now xs m timeout)
unfolding remove_timeouts
remove_timeouts-Reaps now timeout xs m v = elim (Bool-cases (nat_eq timeout 0)) [
  | inl zero_it ↦ rw zero_it (record {
    gone = rw zero_it;
    indexed = v;
    rest = λ p. count-both p (stays now timeout) xs (λ x. rw zero_it);
  })
  | inr some_it ↦ rw some_it (record {
    gone = rw some_it;
    indexed = loop.indexed;
    rest = λ p. loop.rest p ∙ count-stays now timeout p xs some_it;
  })
]
  where
    loop : Leaves (is_expired now timeout) xs (remove_each xs m (expired_nodes now timeout xs))
    loop =
        remove_each-Leaves (is_expired now timeout) (expired_nodes now timeout xs) xs m v
          (count-expired now timeout xs)

-- After `reap` the nodes whose time is up, and no others, are gone from both lists, and are what it
-- returns, the failed ones first; a zero timeout keeps all. The lists and the maps still agree.
pub reap_lem :
    (i : InactiveNodes) (now : ℕ)
    → IsConsistent i
    → let (gone, i') = reap i now in
      IsConsistent i'
      × (gone
          ≡ expired_or_none now i.failed_timeout i.failed
            ++ expired_or_none now i.left_timeout i.left)
      × ((p : Test)
          → (count p i'.failed ≡ count (both p (stays now i.failed_timeout)) i.failed)
            × (count p i'.left ≡ count (both p (stays now i.left_timeout)) i.left))
unfolding reap
reap_lem i now v =
    let f = remove_timeouts-Reaps now i.failed_timeout i.failed i.failed_map v.failed in
    let l = remove_timeouts-Reaps now i.left_timeout i.left i.left_map v.left in
    (
      record { failed = f.indexed; left = l.indexed },
      ap₂ ◌++◌ f.gone l.gone,
      λ p. (f.rest p, l.rest p),
    )
