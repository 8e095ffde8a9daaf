-- ===== src/Settings/Tests.antt =====
-- An interface with three addresses, and a keyring file under codecs of digits.
use cserf.Prelude.{
  ℕ, ◌+◌, ◌-◌, ◌*◌, ◌/◌, ◌%◌, ◌≡◌, ◌⊎◌, refl, sym, ap, ◌∙◌, ◌++◌, append-nil, append_assoc, nat_eq,
  if◌then◌else◌, true, false, none, some, List, [], ◌∷◌, Text, bytes, text_eq, All, Option, arith,
}
use cserf.Serf.{or_empty}
use cserf.Settings.{
  IfaceAddr, ip_addr, other_addr, Interfaces, get_iface, bind_iface, bound, no_address, any_addr,
  KeyCodec, write_keyring_file, load_keyring, load_config, load_panic,
}
use cserf.Settings.Bind.{IsFirst, Unfit, bind_iface_lem}
use cserf.Settings.Keyring.{IsAscii, AreBytes, IsLossless, load_keyring-write}

abbrev addrs : List IfaceAddr
addrs = other_addr ∷ ip_addr (bytes "169.254.0.1") true ∷ ip_addr (bytes "10.0.0.1") false ∷ []

abbrev by_name : Interfaces
by_name name = some (record { addrs = some addrs })

bind_iface_lem_example :
    ((t : Text) × (bind_iface by_name (bytes "en0") any_addr ≡ bound t)
      × IsFirst (text_eq any_addr any_addr) any_addr addrs t)
    ⊎ ((bind_iface by_name (bytes "en0") any_addr ≡ no_address)
        × All (Unfit (text_eq any_addr any_addr) any_addr) addrs)
unfolding get_iface
bind_iface_lem_example =
    bind_iface_lem by_name (bytes "en0") any_addr (record { addrs = some addrs }) addrs refl refl

-- A file without the memberlist's part leaves a nil pointer.
no_memberlist :
    load_config by_name (some (record { net_interface = []; bind_addr = none })) ≡ load_panic
unfolding load_config
no_memberlist = refl

-- A codec for lists of one text.
-- Two digits for each byte, and texts that each end with a byte that is no ASCII.
abbrev to_digits : Text → Text
to_digits [] = []
to_digits (b ∷ k) = (65 + b / 16) ∷ (65 + b % 16) ∷ to_digits k

abbrev add_byte : ℕ → ℕ → Option Text → Option Text
add_byte c d none = none
add_byte c d (some k) = some (((c - 65) * 16 + (d - 65)) ∷ k)

abbrev of_digits : Text → Option Text
of_digits [] = some []
of_digits (c ∷ []) = none
of_digits (c ∷ d ∷ t) = add_byte c d (of_digits t)

abbrev to_file : List Text → Text
to_file [] = []
to_file (t ∷ ts) = t ++ (200 ∷ to_file ts)

abbrev of_file : Text → Text → List Text
of_file front [] = []
of_file front (c ∷ t) = if nat_eq c 200 then front ∷ of_file [] t else of_file (front ++ (c ∷ [])) t

abbrev codec : KeyCodec (List Text)
codec = record {
  encode_json = λ l. some (to_file l);
  decode_json = λ t. some (of_file [] t);
  encode_base64 = to_digits;
  decode_base64 = of_digits;
  make = λ ks k. some ks;
}

to_digits-IsAscii : (k : Text) → AreBytes k → IsAscii (to_digits k)
to_digits-IsAscii [] h = tt
to_digits-IsAscii (b ∷ k) (hb, h) = (omega arith, (omega arith, to_digits-IsAscii k h))

of_digits_lem : (k : Text) → of_digits (to_digits k) ≡ some k
of_digits_lem [] = refl
of_digits_lem (b ∷ k) =
    ap (add_byte (65 + b / 16) (65 + b % 16)) (of_digits_lem k)
    ∙ ap (λ n. some (n ∷ k)) (omega arith)

of_file-append :
    (front t rest : Text)
    → IsAscii t
    → of_file front (t ++ (200 ∷ rest)) ≡ (front ++ t) ∷ of_file [] rest
of_file-append front [] rest h = ap (λ z. z ∷ of_file [] rest) (sym (append-nil front))
of_file-append front (c ∷ t) rest (hc, h) =
    ground (arith, hc, of_file-append (front ++ (c ∷ [])) t rest h, append_assoc front (c ∷ []) t)

of_file_lem : (l : List Text) → All IsAscii l → of_file [] (to_file l) ≡ l
of_file_lem [] h = refl
of_file_lem (t ∷ ts) (ht, h) =
    of_file-append [] t (to_file ts) ht ∙ ap (λ z. t ∷ z) (of_file_lem ts h)

codec-IsLossless : IsLossless codec
codec-IsLossless = record {
  ascii = to_digits-IsAscii;
  base64 = λ k h. of_digits_lem k;
  json = λ l t h e. ap (λ o. some (of_file [] (or_empty o))) (sym e) ∙ ap some (of_file_lem l h);
}

abbrev two_keys : Text
two_keys = to_file (to_digits (7 ∷ 255 ∷ []) ∷ to_digits (0 ∷ 16 ∷ []) ∷ [])

load_keyring-write_example :
    load_keyring codec (some two_keys)
    ≡ codec.make ((7 ∷ 255 ∷ []) ∷ (0 ∷ 16 ∷ []) ∷ []) (7 ∷ 255 ∷ [])
unfolding write_keyring_file
load_keyring-write_example =
    load_keyring-write codec codec-IsLossless (bytes "keyring.json") false (7 ∷ 255 ∷ [])
      ((0 ∷ 16 ∷ []) ∷ []) two_keys
      ((omega arith, (omega arith, tt)), ((omega arith, (omega arith, tt)), tt)) refl
