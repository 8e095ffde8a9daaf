-- ===== src/Rpc/Status.antt =====
-- Which members a request gets.
use cserf.Prelude.{
  split, ℕ, suc, ◌≡◌, ◌⊎◌, refl, Bool, true, false, ◌&&◌, Option, none, some, List, [], ◌∷◌, Text,
  if◌then◌else◌, All, arith, Bool-cases, inl, inr,
}
use cserf.Rpc.{
  is_valid_status_filter, check_filters, to_status_filters, match_status, Member, RegexFilter,
  match_tag, keep_members,
}

abbrev pub count : (Member → Bool) → List Member → ℕ
count p [] = 0
count p (m ∷ ms) = if p m then suc (count p ms) else count p ms

-- The members that a request gets are those that match all its tag filters and one of its status filters,
-- if it has any, and each as often as the node lists it: every test sees as many of them as it sees members
-- that match.
pub keep_members_lem :
    (ts : List RegexFilter) (fs : List Text) (ms : List Member) (p : Member → Bool)
    → count p (keep_members ts fs ms)
      ≡ count (λ m. p m && (match_tag m.tags ts && match_status m.state fs)) ms
unfolding keep_members
keep_members_lem ts fs [] p = refl
keep_members_lem ts fs (m ∷ ms) p = ground (arith, keep_members_lem ts fs ms p)

abbrev pub IsValid : Text → Type 0
IsValid f = is_valid_status_filter f ≡ true

check_filters_lem : (ss fs : List Text) → check_filters ss ≡ some fs → (fs ≡ ss) × All IsValid ss
unfolding check_filters
check_filters_lem [] fs e = (cc, tt)
check_filters_lem (s ∷ ss) fs e =
    go (check_filters ss) (check_filters_lem ss) (Bool-cases (is_valid_status_filter s)) e
  where
    go :
        (o : Option (List Text))
        → ((gs : List Text) → o ≡ some gs → (gs ≡ ss) × All IsValid ss)
        → (is_valid_status_filter s ≡ true) ⊎ (is_valid_status_filter s ≡ false)
        → (if is_valid_status_filter s
            then (elim o [ none ↦ none | some gs ↦ some (s ∷ gs) ])
            else none)
          ≡ some fs
        → (fs ≡ s ∷ ss) × All IsValid (s ∷ ss)
    go none later (inl ok) e = absurd (ground (arith, ok, e))
    go (some gs) later (inl ok) e = (cc ((later gs refl).0, rw ok at e), (ok, (later gs refl).1))
    go o later (inr bad) e = absurd (ground (arith, bad, e))

-- A status filter that is accepted is a list of known states, and all of them are applied.
pub to_status_filters_lem :
    (c : ℕ) (cs : Text) (fs : List Text)
    → to_status_filters (c ∷ cs) ≡ some fs
    → (fs ≡ split 44 [] (c ∷ cs)) × All IsValid fs
unfolding to_status_filters
to_status_filters_lem c cs fs e =
    let (same, valid) = check_filters_lem (split 44 [] (c ∷ cs)) fs e in (same, rw same valid)
