-- ===== src/Commands/TagFilters.antt =====
-- Reading the tag filters of the command line.
use cserf.Prelude.{◌≡◌, refl, ap, ap₂, ◌∙◌, List, [], ◌∷◌, Text, text_key, Dict, split}
use cserf.Rpc.{TagFilter}
use cserf.Tags.{tag_map_to_string}
use cserf.Tags.RoundTrip.{ArePlain, pair, pairs, split-printed, split-pair}
use cserf.Commands.Members.{Parsed, add_filter, key_and_expr, parse_filters, to_tag_filters}

abbrev pub filters : Dict Text Text → List TagFilter
filters [] = []
filters ((k, e) ∷ m) = record { key = k; expr = e } ∷ filters m

parse_filters_lem :
    (m : Dict Text Text) → ArePlain m → parse_filters (pairs m) ≡ Parsed.parsed (filters m)
unfolding parse_filters pairs
parse_filters_lem [] h = refl
parse_filters_lem ((k, e) ∷ m) (hk, he, h) =
    ap₂ (λ f rest. add_filter (pair k e) (key_and_expr f) rest) (split-pair k e hk he)
      (parse_filters_lem m h)

split_first :
    (p : Text × Text) (m : Dict Text Text) (t : Text)
    → split 44 [] t ≡ pairs (p ∷ m)
    → to_tag_filters t ≡ parse_filters (pairs (p ∷ m))
unfolding to_tag_filters pairs pair
split_first ([], e) m [] h = absurd cc
split_first (c ∷ k, e) m [] h = absurd cc
split_first p m (c ∷ t) h = ap parse_filters h

-- Tag filters that are written `k1=e1,k2=e2` are read as they were written, all of them and in their order, a key
-- that stands twice, too: for keys and expressions without a comma and an equals sign.
pub to_tag_filters_lem :
    (m : Dict Text Text)
    → ArePlain m
    → to_tag_filters (tag_map_to_string m) ≡ Parsed.parsed (filters m)
unfolding to_tag_filters tag_map_to_string
to_tag_filters_lem [] h = refl
to_tag_filters_lem (p ∷ m) h =
    split_first p m (tag_map_to_string (p ∷ m)) (split-printed p m h) ∙ parse_filters_lem (p ∷ m) h
