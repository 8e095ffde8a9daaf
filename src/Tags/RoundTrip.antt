-- ===== src/Tags/RoundTrip.antt =====
-- Reading the tags that were printed.
use cserf.Prelude.{
  ℕ, ◌≡◌, refl, sym, ap, ◌∙◌, Option, none, some, List, [], ◌∷◌, ◌++◌, append-nil, append_assoc,
  Text, text_key, text_eq, text_eq_iff, split, split-Avoids, split-append, Avoids, Dict, get, put,
  get-put, IsMap, arith, if◌then◌else◌,
}
use cserf.Tags.{write_tags, trim_comma, tag_map_to_string, put_pair, put_pairs, to_tag_map}

-- A text without `,` and `=`.
abbrev pub IsPlain : Text → Type 0
IsPlain s = Avoids 44 s × Avoids 61 s

abbrev pub ArePlain : Dict Text Text → Type 0
ArePlain [] = Unit
ArePlain ((k, v) ∷ m) = IsPlain k × IsPlain v × ArePlain m

unfoldable pub pair : Text → Text → Text
pair k v = k ++ (61 ∷ v)

unfoldable pub pairs : Dict Text Text → List Text
pairs [] = []
pairs ((k, v) ∷ m) = pair k v ∷ pairs m

All-append : (c : ℕ) (s t : Text) → Avoids c s → Avoids c t → Avoids c (s ++ t)
All-append c [] t h k = k
All-append c (x ∷ s) t h k = (h.0, All-append c s t h.1 k)

trim_comma-append :
    (s : Text) (c : ℕ) (t : Text) → trim_comma (s ++ (c ∷ t)) ≡ s ++ trim_comma (c ∷ t)
unfolding trim_comma
trim_comma-append [] c t = refl
trim_comma-append (x ∷ []) c t = refl
trim_comma-append (x ∷ y ∷ s) c t = ap (λ z. x ∷ z) (trim_comma-append (y ∷ s) c t)

pair-Avoids : (k v : Text) → IsPlain k → IsPlain v → Avoids 44 (pair k v)
unfolding pair
pair-Avoids k v (h, _) (j, _) = All-append 44 k (61 ∷ v) h (ground arith, j)

write_one : (k v rest : Text) → k ++ (61 ∷ (v ++ (44 ∷ rest))) ≡ pair k v ++ (44 ∷ rest)
unfolding pair
write_one k v rest = sym (append_assoc k (61 ∷ v) (44 ∷ rest))

trim_comma_behind :
    (b : ℕ) (s : Text) (c : ℕ) (t : Text)
    → trim_comma (b ∷ (s ++ (c ∷ t))) ≡ b ∷ trim_comma (s ++ (c ∷ t))
unfolding trim_comma
trim_comma_behind b [] c t = refl
trim_comma_behind b (x ∷ s) c t = refl

printed_one : (k v : Text) → tag_map_to_string ((k, v) ∷ []) ≡ pair k v
unfolding tag_map_to_string write_tags trim_comma
printed_one k v =
    ap trim_comma (write_one k v []) ∙ trim_comma-append (pair k v) 44 [] ∙ append-nil (pair k v)

printed_more :
    (k v : Text) (q : Text × Text) (m : Dict Text Text)
    → tag_map_to_string ((k, v) ∷ q ∷ m) ≡ pair k v ++ (44 ∷ tag_map_to_string (q ∷ m))
unfolding tag_map_to_string write_tags
printed_more k v q m =
    ap trim_comma (write_one k v (write_tags (q ∷ m)))
    ∙ trim_comma-append (pair k v) 44 (write_tags (q ∷ m))
    ∙ ap (λ z. pair k v ++ z) (trim_comma_behind 44 (q.0) 61 (q.1 ++ (44 ∷ write_tags m)))

-- The parts of a printed map are its pairs.
pub split-printed :
    (p : Text × Text) (m : Dict Text Text)
    → ArePlain (p ∷ m)
    → split 44 [] (tag_map_to_string (p ∷ m)) ≡ pairs (p ∷ m)
unfolding pairs
split-printed (k, v) [] (hk, hv, h) =
    ap (split 44 []) (printed_one k v) ∙ split-Avoids 44 [] (pair k v) (pair-Avoids k v hk hv)
split-printed (k, v) (q ∷ m) (hk, hv, h) =
    ap (split 44 []) (printed_more k v q m)
    ∙ split-append 44 [] (pair k v) (tag_map_to_string (q ∷ m)) (pair-Avoids k v hk hv)
    ∙ ap (λ z. pair k v ∷ z) (split-printed q m h)

pub split-pair : (k v : Text) → IsPlain k → IsPlain v → split 61 [] (pair k v) ≡ k ∷ v ∷ []
unfolding pair
split-pair k v hk hv = split-append 61 [] k v (hk.1) ∙ ap (λ z. k ∷ z) (split-Avoids 61 [] v (hv.1))

abbrev or_in : Dict Text Text → Text → Option Text → Option Text
or_in acc j none = get acc j
or_in acc j (some v) = some v

or_in_empty : (j : Text) (o : Option Text) → or_in [] j o ≡ o
unfolding get
or_in_empty j none = refl
or_in_empty j (some v) = refl

-- The pairs are put into the map one after the other.
get-put_pairs :
    (m acc : Dict Text Text) (j : Text)
    → IsMap m
    → ArePlain m
    → get (put_pairs acc (pairs m)) j ≡ or_in acc j (get m j)
unfolding put_pairs pairs get put_pair
get-put_pairs [] acc j h plain = refl
get-put_pairs ((k, v) ∷ m) acc j h (hk, hv, plain) =
    ap (λ z. get (put_pairs (put_pair acc z) (pairs m)) j) (split-pair k v hk hv)
    ∙ get-put_pairs m (put acc k v) j (h.1) plain
    ∙ later (get m j) refl
  where
    later :
        (o : Option Text)
        → o ≡ get m j
        → or_in (put acc k v) j o ≡ or_in acc j (if text_eq k j then some v else o)
    later none e = ground (arith, get-put acc k j v)
    later (some w) e = ground (arith, e, h.0, text_eq_iff k j)

-- Printing tags with `TagMapToString` and reading them with `ToTagMap` gives the same map, under every key:
-- for a map, in any order, whose keys and values hold neither a comma nor an equals sign.
pub to_tag_map_lem :
    (m : Dict Text Text) (j : Text)
    → IsMap m
    → ArePlain m
    → get (to_tag_map (tag_map_to_string m)) j ≡ get m j
unfolding to_tag_map tag_map_to_string write_tags
to_tag_map_lem [] j h plain = refl
to_tag_map_lem (p ∷ m) j h plain =
    ap (λ z. get (put_pairs [] z) j) (split-printed p m plain)
    ∙ get-put_pairs (p ∷ m) [] j h plain
    ∙ or_in_empty j (get (p ∷ m) j)
