-- ===== src/Tags/Publish.antt =====
-- The tags that the memberlist gets of `SetTags` and `UnsetTagKeys`.
use cserf.Prelude.{
  ◌≡◌, refl, sym, subst, Option, none, some, List, [], ◌∷◌, ◌++◌, Text, Dict, arith, text_key,
}
use cserf.Tags.{
  TagEnv, TagState, with_magic, send_tags, set_tags, unset_tag_keys, remove_keys, encode_tags,
  decode_tags, update_memberlist_tags,
}

-- The last text of a list.
abbrev pub last : List Text → Option Text
last [] = none
last (b ∷ []) = some b
last (b ∷ c ∷ bs) = last (c ∷ bs)

last-snoc : (bs : List Text) (b : Text) → last (bs ++ (b ∷ [])) ≡ some b
last-snoc [] b = refl
last-snoc (c ∷ []) b = refl
last-snoc (c ∷ d ∷ bs) b = last-snoc (d ∷ bs) b

send_tags-none :
    (env : TagEnv) (s : TagState) (o : Option Text)
    → (send_tags env s o).0 ≡ none
    → last (send_tags env s o).1.updates ≡ o
unfolding send_tags
send_tags-none env s none h = ground (arith, h)
send_tags-none env s (some b) h = ground (arith, h, last-snoc s.updates b)

decode_tags-encode_tags :
    (codec : Dict Text Text → Option Text) (decoder : Text → Option (Dict Text Text))
    (m : Dict Text Text) (b : Text)
    → ((m : Dict Text Text) (b : Text) → codec m ≡ some b → decoder b ≡ some m)
    → encode_tags codec m ≡ some b
    → decode_tags decoder b ≡ some m
unfolding encode_tags decode_tags
decode_tags-encode_tags codec decoder m b inverse h = go (codec m) refl h
  where
    go : (o : Option Text) → o ≡ codec m → with_magic o ≡ some b → decode_tags decoder b ≡ some m
    go none e k = absurd (ground (arith, k))
    go (some c) e k =
        let same : 255 ∷ c ≡ b = ground (arith, k) in
        subst (λ b. decode_tags decoder b ≡ some m) same (inverse m c (sym e))

-- The tags that the memberlist got last are `tags`.
abbrev pub Published : (Text → Option (Dict Text Text)) → TagState → Dict Text Text → Type 0
Published decoder s tags =
    (b : Text) × (last s.updates ≡ some b) × (decode_tags decoder b ≡ some tags)

module _ (env : TagEnv) (decoder : Text → Option (Dict Text Text))
    (inverse : (m : Dict Text Text) (b : Text) → env.codec m ≡ some b → decoder b ≡ some m)
    (s : TagState) where
  send-Published :
      (o : Option Text)
      → o ≡ encode_tags env.codec s.tags
      → (send_tags env s o).0 ≡ none
      → Published decoder (send_tags env s o).1 s.tags
  unfolding send_tags
  send-Published none e h = absurd (ground (arith, h))
  send-Published (some b) e h = (
    b,
    send_tags-none env s (some b) h,
    decode_tags-encode_tags env.codec decoder s.tags b inverse (sym e),
  )

  update-Published :
      (update_memberlist_tags env s).0 ≡ none
      → Published decoder (update_memberlist_tags env s).1 s.tags
  unfolding update_memberlist_tags
  update-Published h = send-Published (encode_tags env.codec s.tags) refl h

-- A `SetTags` or `UnsetTagKeys` that returns no error has handed the memberlist an encoding from which
-- `DecodeTags` reads the new tags, those given or those without the keys given: provided the codec reads
-- what it writes.
pub set_tags_lem :
    (env : TagEnv) (decoder : Text → Option (Dict Text Text)) (s : TagState) (tags : Dict Text Text)
    (keys : List Text)
    → ((m : Dict Text Text) (b : Text) → env.codec m ≡ some b → decoder b ≡ some m)
    → (set_tags env s tags).0 ≡ none
    → (unset_tag_keys env s keys).0 ≡ none
    → Published decoder (set_tags env s tags).1 tags
      × Published decoder (unset_tag_keys env s keys).1 (remove_keys s.tags keys)
unfolding set_tags unset_tag_keys
set_tags_lem env decoder s tags keys inverse h k = (
  update-Published env decoder inverse (record s { tags = tags }) h,
  update-Published env decoder inverse (record s { tags = remove_keys s.tags keys }) k,
)
