-- ===== src/Tags/Tests.antt =====
-- Tags on small maps.
use cserf.Prelude.{
  ◌≡◌, refl, false, Option, none, some, [], ◌∷◌, Text, bytes, Dict, get, put, remove, text_key,
  text_eq_iff, IsMap, split, map, arith,
}
use cserf.Messages.{MemberNode}
use cserf.Tags.{
  TagEnv, TagState, tag_map_to_string, to_tag_map, put_pairs, put_pair, stdin_member_data, set_tags,
  unset_tag_keys,
}
use cserf.Tags.RoundTrip.{to_tag_map_lem}
use cserf.Tags.Lines.{table, stdin_member_data_lem}

abbrev tags : Dict Text Text
tags = (bytes "role", bytes "db") ∷ (bytes "dc", bytes "eu") ∷ []

abbrev turned : Dict Text Text
turned = (bytes "dc", bytes "eu") ∷ (bytes "role", bytes "db") ∷ []

tags-IsMap : IsMap tags
unfolding get
tags-IsMap = (refl, (refl, tt))

turned-IsMap : IsMap turned
unfolding get
turned-IsMap = (refl, (refl, tt))

same_map : (k : Text) → get tags k ≡ get turned k
unfolding get
same_map k = ground (arith, text_eq_iff (bytes "role") k, text_eq_iff (bytes "dc") k)

to_tag_map_lem_example :
    get (to_tag_map (tag_map_to_string tags)) (bytes "dc") ≡ get tags (bytes "dc")
to_tag_map_lem_example = to_tag_map_lem tags (bytes "dc") tags-IsMap (ground arith)

-- What stands behind a second equals sign is lost.
cut_value : to_tag_map (bytes "a=b=c") ≡ (bytes "a", bytes "b") ∷ []
unfolding to_tag_map put_pairs put_pair split put
cut_value = refl

-- Only the role is kept.
abbrev decoder : Text → Option (Dict Text Text)
decoder b = some ((bytes "role", b) ∷ [])

abbrev member : MemberNode
member = record { id = bytes "a"; ip = []; port = 0; tags = 255 ∷ 9 ∷ 65 ∷ 10 ∷ [] }

stdin_member_data_lem_example :
    map (split 9 []) (split 10 [] (stdin_member_data decoder (λ ip. ip) (member ∷ member ∷ [])))
    ≡ table decoder (λ ip. ip) (member ∷ member ∷ [])
stdin_member_data_lem_example =
    stdin_member_data_lem decoder (λ ip. ip) (member ∷ member ∷ []) (ground arith)

-- A codec for a single tag without a name.
abbrev codec : Dict Text Text → Option Text
codec (([], v) ∷ []) = some v
codec _ = none

abbrev read : Text → Option (Dict Text Text)
read b = some (([], b) ∷ [])

codec-read : (m : Dict Text Text) (b : Text) → codec m ≡ some b → read b ≡ some m
codec-read [] b h = ground (arith, h)
codec-read (([], v) ∷ []) b h = ground (arith, h)
codec-read (([], v) ∷ p ∷ m) b h = ground (arith, h)
codec-read ((c ∷ k, v) ∷ m) b h = ground (arith, h)

abbrev env : TagEnv
env = record { codec = codec; max = 5; fails = λ b. false }

abbrev state : TagState
state = record { tags = ([], bytes "x") ∷ (bytes "k", bytes "y") ∷ []; updates = [] }

accepted :
    ((set_tags env state (([], bytes "z") ∷ [])).0 ≡ none)
    × ((unset_tag_keys env state (bytes "k" ∷ [])).0 ≡ none)
unfolding set_tags unset_tag_keys remove
accepted = (refl, refl)
