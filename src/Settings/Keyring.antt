-- ===== src/Settings/Keyring.antt =====
-- The keyring file: what is written after a change of keys, and loaded at the next start.
use cserf.Prelude.{
  ◌<◌, ◌≡◌, refl, ap, ◌∙◌, Bool, Option, none, some, List, [], ◌∷◌, map, Text, All, arith, false,
  true,
}
use cserf.Settings.{
  KeyCodec, Writing, write_keyring_file, decode_keys, load_keyring, keyring_of, make_keyring,
  write_text,
}

write_text-writes :
    {K : Type 0} (codec : KeyCodec K) (fails : Bool) (o : Option Text) (t : Text)
    → write_text codec fails o ≡ Writing.writes t
    → o ≡ some t
write_text-writes codec fails none t h = absurd (ground (arith, h))
write_text-writes codec true (some u) t h = absurd (ground (arith, h))
write_text-writes codec false (some u) t h = ground (arith, h)

abbrev pub IsAscii : Text → Type 0
IsAscii t = All (λ c. c < 128) t

abbrev pub AreBytes : Text → Type 0
AreBytes k = All (λ b. b < 256) k

-- Base64 and JSON as they are documented: base64 gives back every list of bytes and writes ASCII only, and JSON
-- gives back every list of ASCII texts that it encodes.
pub record IsLossless {K : Type 0} (codec : KeyCodec K) : Type 0 where
  pub ascii : (k : Text) → AreBytes k → IsAscii (codec.encode_base64 k)
  pub base64 : (k : Text) → AreBytes k → codec.decode_base64 (codec.encode_base64 k) ≡ some k
  pub json :
      (l : List Text) (t : Text)
      → All IsAscii l
      → codec.encode_json l ≡ some t
      → codec.decode_json t ≡ some l

module _ {K : Type 0} (codec : KeyCodec K) (lossless : IsLossless codec) where
  decode_keys-map :
      (keys : List Text)
      → All AreBytes keys
      → decode_keys codec (map codec.encode_base64 keys) ≡ some keys
  unfolding decode_keys
  decode_keys-map [] h = refl
  decode_keys-map (k ∷ ks) (hk, h) = rw (lossless.base64 k hk, decode_keys-map ks h) refl

  encoded-IsAscii :
      (keys : List Text) → All AreBytes keys → All IsAscii (map codec.encode_base64 keys)
  encoded-IsAscii [] h = tt
  encoded-IsAscii (k ∷ ks) (hk, h) = (lossless.ascii k hk, encoded-IsAscii ks h)

  -- What a node writes after a change of its keys, a server loads at its next start as the same keys in the same
  -- order, with the first one as the primary key: whenever the writing succeeds, there is a key, the keys are
  -- bytes, base64 gives them back and writes ASCII, and JSON gives back the lists of ASCII texts that it encodes.
  pub load_keyring-write :
      (path : Text) (fails : Bool) (k : Text) (keys : List Text) (t : Text)
      → All AreBytes (k ∷ keys)
      → write_keyring_file codec path fails (k ∷ keys) ≡ Writing.writes t
      → load_keyring codec (some t) ≡ codec.make (k ∷ keys) k
  unfolding write_keyring_file load_keyring
  load_keyring-write [] fails k keys t b h = absurd (ground (arith, h))
  load_keyring-write (c ∷ path) fails k keys t b h =
      let written = map codec.encode_base64 (k ∷ keys) in
      let encoded = write_text-writes codec fails (codec.encode_json written) t h in
      ap (keyring_of codec) (lossless.json written t (encoded-IsAscii (k ∷ keys) b) encoded)
      ∙ ap (make_keyring codec) (decode_keys-map (k ∷ keys) b)
