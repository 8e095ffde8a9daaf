-- ===== src/Tags.antt =====
-- Tags as the members exchange, print and read them: utils.go, the tag methods of serf.go, and the member
-- data that event_handlers.go writes to a script. The msgpack codec is a parameter.
pub mod RoundTrip
pub mod Order
pub mod Lines
pub mod Publish
mod Tests
use cserf.Prelude.{
  ℕ, Bool, true, false, Option, none, some, List, [], ◌∷◌, ◌++◌, Text, text_key, text_lt, split,
  Dict, get, put, remove, nat_eq, ltb, length, if◌then◌else◌,
}
use cserf.Messages.{MemberNode}
use cserf.Filters.{escape_white_space}

-- `tagMagicByte`
abbrev pub tag_magic_byte : ℕ
tag_magic_byte = 255

-- `EncodeTags`: `encode` of utils.go puts the type byte before what the codec writes.
abbrev pub with_magic : Option Text → Option Text
with_magic none = none
with_magic (some b) = some (tag_magic_byte ∷ b)

unfoldable pub encode_tags : (Dict Text Text → Option Text) → Dict Text Text → Option Text
encode_tags codec tags = with_magic (codec tags)

unfoldable pub decode_tags : (Text → Option (Dict Text Text)) → Text → Option (Dict Text Text)
decode_tags codec [] = some []
decode_tags codec (t ∷ b) = if nat_eq t tag_magic_byte then codec b else none

-- The loop of `TagMapToString`.
unfoldable pub write_tags : Dict Text Text → Text
write_tags [] = []
write_tags ((k, v) ∷ m) = k ++ (61 ∷ (v ++ (44 ∷ write_tags m)))

-- `strings.TrimSuffix(s, ",")`
unfoldable pub trim_comma : Text → Text
trim_comma [] = []
trim_comma (c ∷ []) = if nat_eq c 44 then [] else c ∷ []
trim_comma (c ∷ d ∷ cs) = c ∷ trim_comma (d ∷ cs)

unfoldable pub tag_map_to_string : Dict Text Text → Text
unfolding write_tags trim_comma
tag_map_to_string m = trim_comma (write_tags m)

-- One turn of the loop of `ToTagMap`: a part without `=` is left out.
unfoldable pub put_pair : Dict Text Text → List Text → Dict Text Text
put_pair m (k ∷ v ∷ more) = put m k v
put_pair m _ = m

unfoldable pub put_pairs : Dict Text Text → List Text → Dict Text Text
unfolding put_pair split
put_pairs m [] = m
put_pairs m (kv ∷ kvs) = put_pairs (put_pair m (split 61 [] kv)) kvs

unfoldable pub to_tag_map : Text → Dict Text Text
unfolding put_pairs split
to_tag_map s = put_pairs [] (split 44 [] s)

-- The sorting of `toKVPairs`.
unfoldable pub insert_pair : Text × Text → Dict Text Text → Dict Text Text
insert_pair p [] = p ∷ []
insert_pair p (q ∷ qs) =
    let rest = insert_pair p qs in if text_lt (p.0) (q.0) then p ∷ q ∷ qs else q ∷ rest

unfoldable pub to_kv_pairs : Dict Text Text → List (Text × Text)
unfolding insert_pair
to_kv_pairs [] = []
to_kv_pairs (p ∷ m) = insert_pair p (to_kv_pairs m)

-- `strings.Join` of the pairs, with a comma between them.
unfoldable pub join_pairs : List (Text × Text) → Text
join_pairs [] = []
join_pairs ((k, v) ∷ []) = k ++ (61 ∷ v)
join_pairs ((k, v) ∷ q ∷ qs) = k ++ (61 ∷ (v ++ (44 ∷ join_pairs (q ∷ qs))))

unfoldable pub to_kv_pairs_string : Dict Text Text → Text
unfolding to_kv_pairs join_pairs
to_kv_pairs_string m = join_pairs (to_kv_pairs m)

abbrev pub or_empty : Option Text → Text
or_empty none = []
or_empty (some v) = v

abbrev pub role_and_tags : Option (Dict Text Text) → Option (Text × Text)
role_and_tags none = none
role_and_tags (some m) = some (or_empty (get m (114 ∷ 111 ∷ 108 ∷ 101 ∷ [])), to_kv_pairs_string m)

-- `decodeAndConcatTags`
unfoldable pub decode_and_concat_tags :
    (Text → Option (Dict Text Text)) → Text → Option (Text × Text)
unfolding decode_tags to_kv_pairs_string
decode_and_concat_tags codec tags = role_and_tags (decode_tags codec tags)

-- The line of one member; `show_ip` is `net.IP.String`.
unfoldable pub member_line : (Text → Text) → MemberNode → Text × Text → Text
unfolding escape_white_space
member_line show_ip m (role, tags) =
    m.id
    ++ (9
        ∷ (show_ip m.ip
            ++ (9 ∷ (escape_white_space role ++ (9 ∷ (escape_white_space tags ++ (10 ∷ [])))))))

-- A turn of the loop of `stdinMemberData`: it returns at tags that cannot be decoded.
abbrev pub write_member : (Text → Text) → MemberNode → Text → Option (Text × Text) → Text
write_member show_ip m rest none = []
write_member show_ip m rest (some rt) = member_line show_ip m rt ++ rest

-- `stdinMemberData`: what is written to the script.
unfoldable pub stdin_member_data :
    (Text → Option (Dict Text Text)) → (Text → Text) → List MemberNode → Text
unfolding decode_and_concat_tags member_line
stdin_member_data codec show_ip [] = []
stdin_member_data codec show_ip (m ∷ ms) =
    write_member show_ip m (stdin_member_data codec show_ip ms)
      (decode_and_concat_tags codec m.tags)

-- The tags of a `Serf`, and the encoded tags handed to the memberlist's `UpdateTags`, oldest first.
pub record TagState : Type 0 where
  pub tags : Dict Text Text
  pub updates : List Text

-- `mlist_error` is what `UpdateTags` may return.
pub data TagError : Type 0 where
  max_tag_size_exceed encode_error mlist_error : TagError

-- The outside of one call: the codec, `memberlist.TagMaxSize`, and whether `UpdateTags` fails.
pub record TagEnv : Type 0 where
  pub codec : Dict Text Text → Option Text
  pub max : ℕ
  pub fails : Text → Bool

unfoldable pub send_tags : TagEnv → TagState → Option Text → Option TagError × TagState
send_tags env s none = (some TagError.encode_error, s)
send_tags env s (some b) =
    if ltb env.max (length b) then (some TagError.max_tag_size_exceed, s) else (
      if env.fails b then some TagError.mlist_error else none,
      record s { updates = s.updates ++ (b ∷ []) },
    )

unfoldable pub update_memberlist_tags : TagEnv → TagState → Option TagError × TagState
unfolding encode_tags send_tags
update_memberlist_tags env s = send_tags env s (encode_tags env.codec s.tags)

unfoldable pub set_tags : TagEnv → TagState → Dict Text Text → Option TagError × TagState
unfolding update_memberlist_tags
set_tags env s tags = update_memberlist_tags env (record s { tags = tags })

-- The loop of `UnsetTagKeys`.
unfoldable pub remove_keys : Dict Text Text → List Text → Dict Text Text
remove_keys m [] = m
remove_keys m (k ∷ ks) = remove_keys (remove m k) ks

unfoldable pub unset_tag_keys : TagEnv → TagState → List Text → Option TagError × TagState
unfolding update_memberlist_tags remove_keys
unset_tag_keys env s keys = update_memberlist_tags env (record s { tags = remove_keys s.tags keys })
