-- ===== src/Settings.antt =====
-- The settings of the RPC server, rpc/server/config.go, and the keyring file that key_query.go writes and the
-- server loads. The interfaces of the machine, the files, YAML, JSON and base64 are parameters.
pub mod Bind
pub mod Keyring
mod Tests
use cserf.Prelude.{
  ℕ, Bool, true, false, Option, none, some, List, [], ◌∷◌, map, Text, bytes, text_eq, if◌then◌else◌,
}

-- An address of an interface: an IP address, with whether it is link-local, or one of another kind.
pub data IfaceAddr : Type 0 where
  ip_addr : Text → Bool → IfaceAddr
  other_addr : IfaceAddr

-- `net.Interface`, with what its method `Addrs` returns.
pub record Iface : Type 0 where
  pub addrs : Option (List IfaceAddr)

-- `net.InterfaceByName`
abbrev pub Interfaces : Type 0
Interfaces = Text → Option Iface

unfoldable pub get_iface : Interfaces → Text → Option Iface
get_iface by_name [] = none
get_iface by_name (c ∷ name) = by_name (c ∷ name)

-- `extractIP`
unfoldable pub extract_ip : IfaceAddr → Option (Text × Bool)
extract_ip (ip_addr t local) = some (t, local)
extract_ip other_addr = none

-- The body of the loop of `bindIface` at an address that is an IP address: the address to bind, if it will do.
abbrev pub choose : Bool → Text → Text × Bool → Option Text
choose any_is_fine addr (t, local) =
    if any_is_fine
    then (if local then none else some t)
    else if text_eq t addr
    then some addr
    else none

abbrev pub chosen : Bool → Text → Option (Text × Bool) → Option Text
chosen any_is_fine addr none = none
chosen any_is_fine addr (some p) = choose any_is_fine addr p

-- The loop of `bindIface`: the first address that will do.
unfoldable pub find_addr : Bool → Text → List IfaceAddr → Option Text
unfolding extract_ip
find_addr any_is_fine addr [] = none
find_addr any_is_fine addr (a ∷ more) =
    let rest = find_addr any_is_fine addr more in
    elim (chosen any_is_fine addr (extract_ip a)) [ none ↦ rest | some t ↦ some t ]

pub data Binding : Type 0 where
  bound : Text → Binding
  addrs_error no_address : Binding

abbrev pub any_addr : Text
any_addr = bytes "0.0.0.0"

abbrev pub or_no_address : Option Text → Binding
or_no_address none = no_address
or_no_address (some t) = bound t

abbrev pub bind_addrs : Text → Option (List IfaceAddr) → Binding
bind_addrs addr none = addrs_error
bind_addrs addr (some l) = or_no_address (find_addr (text_eq addr any_addr) addr l)

-- `bindIface`. The error of `getIface` is dropped, so an unknown name is like no name.
unfoldable pub bind_iface : Interfaces → Text → Text → Binding
unfolding get_iface find_addr
bind_iface by_name name addr = elim (get_iface by_name name) [
  | none ↦ bound addr
  | some i ↦ bind_addrs addr i.addrs
]

-- The fields of `ServerConfig` that `LoadConfig` reads and sets; `bind_addr` is a field of `MemberlistConfig`,
-- which is a nil pointer if the file has no such part.
pub record Conf : Type 0 where
  pub net_interface : Text
  pub bind_addr : Option Text

pub data Loading : Type 0 where
  loaded : Conf → Loading
  load_error load_panic : Loading

abbrev pub with_binding : Conf → Binding → Loading
with_binding c (bound t) = loaded (record c { bind_addr = some t })
with_binding c addrs_error = load_error
with_binding c no_address = load_error

abbrev pub bind_conf : Interfaces → Conf → Option Text → Loading
bind_conf by_name c none = load_panic
bind_conf by_name c (some addr) = with_binding c (bind_iface by_name c.net_interface addr)

-- `LoadConfig`; `read` is the file as YAML, none if it cannot be read or decoded.
unfoldable pub load_config : Interfaces → Option Conf → Loading
unfolding bind_iface
load_config by_name none = load_error
load_config by_name (some c) = bind_conf by_name c c.bind_addr

-- The codecs of the keyring file. `make` is `NewKeyring` of the memberlist.
pub record KeyCodec (K : Type 0) : Type 0 where
  pub encode_json : List Text → Option Text
  pub decode_json : Text → Option (List Text)
  pub encode_base64 : Text → Text
  pub decode_base64 : Text → Option Text
  pub make : List Text → Text → Option K

module _ {K : Type 0} (codec : KeyCodec K) where
  -- What `writeKeyringFile` does to the file system: the text that is written, if any; or an error.
  pub data Writing : Type 0 where
    nothing : Writing
    writes : Text → Writing
    encode_error write_error : Writing

  abbrev pub write_text : Bool → Option Text → Writing
  write_text fails none = encode_error
  write_text fails (some t) = if fails then write_error else writes t

  -- `writeKeyringFile`; `fails` is whether `os.WriteFile` returns an error.
  unfoldable pub write_keyring_file : Text → Bool → List Text → Writing
  write_keyring_file [] fails keys = nothing
  write_keyring_file (c ∷ path) fails keys =
      write_text fails (codec.encode_json (map codec.encode_base64 keys))

  abbrev pub cons_key : Option Text → Option (List Text) → Option (List Text)
  cons_key none o = none
  cons_key (some k) none = none
  cons_key (some k) (some ks) = some (k ∷ ks)

  -- The loop of `loadKeyring`.
  unfoldable pub decode_keys : List Text → Option (List Text)
  decode_keys [] = some []
  decode_keys (e ∷ es) = cons_key (codec.decode_base64 e) (decode_keys es)

  abbrev pub make_keyring : Option (List Text) → Option K
  make_keyring none = none
  make_keyring (some []) = none
  make_keyring (some (k ∷ ks)) = codec.make (k ∷ ks) k

  abbrev pub keyring_of : Option (List Text) → Option K
  keyring_of none = none
  keyring_of (some es) = make_keyring (decode_keys es)

  -- `loadKeyring` at what the file holds, none if it cannot be read.
  unfoldable pub load_keyring : Option Text → Option K
  unfolding decode_keys
  load_keyring none = none
  load_keyring (some t) = keyring_of (codec.decode_json t)
