-- ===== src/Filters/Parse.antt =====
-- Parsing filters, and escaping what a script reads.
use cserf.Prelude.{
  Avoids, split, ℕ, ◌≡◌, refl, true, Option, none, some, List, [], ◌∷◌, ◌++◌, Text, nat_eq, arith,
  All, Bool-cases, inl, inr,
}
use cserf.Filters.{
  EventFilter, is_valid_event_filter, parse_event_filter, keep_filters, parse_event_filters,
  replace, escape_white_space,
}

abbrev pub IsValid : EventFilter → Type 0
IsValid f = is_valid_event_filter f ≡ true

parse_event_filter-IsValid :
    (s : Text) (f : EventFilter) → parse_event_filter s ≡ some f → IsValid f
unfolding parse_event_filter
parse_event_filter-IsValid s f e = ground arith

keep_filters-IsValid : (ss : List Text) → All IsValid (keep_filters ss)
unfolding keep_filters
keep_filters-IsValid [] = tt
keep_filters-IsValid (s ∷ ss) =
    go (parse_event_filter s) (parse_event_filter-IsValid s) (keep_filters-IsValid ss)
  where
    go :
        (o : Option EventFilter)
        → ((f : EventFilter) → o ≡ some f → IsValid f)
        → All IsValid (keep_filters ss)
        → All IsValid (elim o [ none ↦ keep_filters ss | some f ↦ f ∷ keep_filters ss ])
    go none valid rest = rest
    go (some f) valid rest = (valid f refl, rest)

-- `ParseEventFilters` keeps only filters of a known event type, whatever it is given.
pub parse_event_filters-IsValid : (s : Text) → All IsValid (parse_event_filters s)
unfolding parse_event_filters is_valid_event_filter
parse_event_filters-IsValid [] = (refl, tt)
parse_event_filters-IsValid (c ∷ cs) = keep_filters-IsValid (split 44 [] (c ∷ cs))

All-append : (c : ℕ) (s t : Text) → Avoids c s → Avoids c t → Avoids c (s ++ t)
All-append c [] t h k = k
All-append c (x ∷ s) t h k = (h.0, All-append c s t h.1 k)

replace-Avoids : (old : ℕ) (new s : Text) → Avoids old new → Avoids old (replace old new s)
unfolding replace
replace-Avoids old new [] h = tt
replace-Avoids old new (c ∷ cs) h = elim (Bool-cases (nat_eq c old)) [
  | inl found ↦ rw found (All-append old new (replace old new cs) h (replace-Avoids old new cs h))
  | inr other ↦ rw other (ground arith, replace-Avoids old new cs h)
]

replace_keeps :
    (old c : ℕ) (new s : Text) → Avoids c new → Avoids c s → Avoids c (replace old new s)
unfolding replace
replace_keeps old c new [] h k = tt
replace_keeps old c new (x ∷ s) h k = elim (Bool-cases (nat_eq x old)) [
  | inl found ↦ rw found (All-append c new (replace old new s) h (replace_keeps old c new s h k.1))
  | inr other ↦ rw other (k.0, replace_keeps old c new s h k.1)
]

-- What a script reads of a role or of tags holds no tab and no line feed, so that the fields and the lines
-- of a member's data stay apart.
pub escape_white_space_lem :
    (s : Text) → Avoids 9 (escape_white_space s) × Avoids 10 (escape_white_space s)
unfolding escape_white_space
escape_white_space_lem s = (
  replace_keeps 10 9 (92 ∷ 110 ∷ []) (replace 9 (92 ∷ 116 ∷ []) s) (ground arith)
      (replace-Avoids 9 (92 ∷ 116 ∷ []) s (ground arith)),
  replace-Avoids 10 (92 ∷ 110 ∷ []) (replace 9 (92 ∷ 116 ∷ []) s) (ground arith),
)
