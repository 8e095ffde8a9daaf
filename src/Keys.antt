-- ===== src/Keys.antt =====
-- key_query.go: queries that install, use, remove and list encryption keys, and the collection of their
-- responses.
pub mod Collect
pub mod Truncate
mod Tests
use cserf.Prelude.{
  ℕ, zero, suc, ◌+◌, ◌/◌, Bool, true, false, ◌||◌, Option, none, some, List, [], ◌∷◌, ◌++◌, map,
  Text, bytes, text_eq, text_key, Dict, get, put, nat_eq, ltb, length, take, if◌then◌else◌,
}
use cserf.Buffer.{slice_bytes}
use cserf.Messages.{QueryResponse, QueryEvent, Event, on_query, on_action, on_member, on_members}
use cserf.Serf.{Serf, Env, Error}
use cserf.Serf.Relay.{respond_to_query_event}

pub record KeyQueryResponse : Type 0 where
  pub num_node : ℕ
  pub num_resp : ℕ
  pub num_err : ℕ
  pub err_from : Dict Text Text
  pub primary_key_count : Dict Text ℕ
  pub key_count : Dict Text ℕ

pub record KeyResponse : Type 0 where
  pub success : Bool
  pub err : Text
  pub keys : List Text
  pub primary_key : Text

unfoldable pub is_key_command : Text → Bool
is_key_command c =
    text_eq c (bytes "install")
    || (text_eq c (bytes "use") || (text_eq c (bytes "remove") || text_eq c (bytes "list")))

unfoldable pub key_command_to_query_name : Text → Text
key_command_to_query_name c = c ++ bytes "-key"

unfoldable pub is_valid_key_query_name : Text → Bool
is_valid_key_query_name n =
    text_eq n (bytes "install-key")
    || (text_eq n (bytes "use-key")
        || (text_eq n (bytes "remove-key") || text_eq n (bytes "list-key")))

abbrev or_zero : Option ℕ → ℕ
or_zero none = 0
or_zero (some n) = n

-- `m[key]++`
abbrev pub increment : Dict Text ℕ → Text → Dict Text ℕ
increment m key = put m key (or_zero (get m key) + 1)

unfoldable pub count_keys : Dict Text ℕ → List Text → Dict Text ℕ
count_keys m [] = m
count_keys m (k ∷ ks) = count_keys (increment m k) ks

abbrev pub msg_key_resp_type : ℕ
msg_key_resp_type = 4

abbrev pub is_empty_text : Text → Bool
is_empty_text [] = true
is_empty_text (c ∷ cs) = false

-- A response that could not be read.
unfoldable pub add_error : KeyQueryResponse → Text → Text → KeyQueryResponse
add_error kr from what = record kr {
  err_from = put kr.err_from from what;
  num_err = kr.num_err + 1;
}

-- The end of a round, for a decoded response.
unfoldable pub add_response : KeyQueryResponse → Text → KeyResponse → KeyQueryResponse
unfolding count_keys
add_response kr from r = record kr {
  num_err = if r.success then kr.num_err else kr.num_err + 1;
  err_from = if is_empty_text r.err then kr.err_from else put kr.err_from from r.err;
  key_count = count_keys kr.key_count r.keys;
  primary_key_count =
      if is_empty_text r.primary_key
      then kr.primary_key_count
      else increment kr.primary_key_count r.primary_key;
}

abbrev pub counted : KeyQueryResponse → KeyQueryResponse
counted kr = record kr { num_resp = kr.num_resp + 1 }

module _ (decode : Text → Option KeyResponse) where
  unfoldable pub read_payload : KeyQueryResponse → Text → Text → KeyQueryResponse
  unfolding add_error add_response
  read_payload kr from [] = add_error kr from (bytes "query response doesn't contain key response")
  read_payload kr from (t ∷ rest) =
      if nat_eq t msg_key_resp_type
      then (elim (decode rest) [
        | none ↦ add_error kr from (bytes "fail to decode query response")
        | some r ↦ add_response kr from r
      ])
      else add_error kr from (bytes "query response doesn't contain key response")

  -- The loop over what the response channel delivers until it is closed.
  unfoldable pub collect_key_response : KeyQueryResponse → List QueryResponse → KeyQueryResponse
  unfolding read_payload
  collect_key_response kr [] = kr
  collect_key_response kr (r ∷ rs) =
      let rest =
        collect_key_response (read_payload (counted kr) r.from (slice_bytes r.payload)) rs in
      if nat_eq kr.num_resp kr.num_node then kr else rest

-- What a key command takes from the memberlist's keyring, from the encoders and from the file system.
pub record KeyEnv : Type 0 where
  pub encryption_enabled : Bool
  pub encode : KeyResponse → Option Text
  pub encode_base64 : Text → Text
  pub get_primary_key : List Text → Text
  pub add_key : List Text → Text → Option (List Text)
  pub use_key : List Text → Text → Option (List Text)
  pub remove_key : List Text → Text → Option (List Text)
  pub keyring_error : Text
  pub write_fails : List Text → Bool
  pub write_error : Text

unfoldable pub send_key_response :
    Env → KeyEnv → Serf → QueryEvent → KeyResponse → Option Error × Serf
send_key_response env k s q r = elim (k.encode r) [
  | none ↦ (some Error.encode_error, s)
  | some m ↦ respond_to_query_event env s q (some m)
]

abbrev pub is_limit : Option Error → Bool
is_limit (some Error.query_resp_limit_exceed) = true
is_limit _ = false

-- A response cut to `i` keys of `all`.
unfoldable pub cut : KeyResponse → ℕ → ℕ → KeyResponse
cut r all i = record r {
  keys = take i r.keys;
  err = if ltb i all then bytes "key-list truncated" else r.err;
}

-- The loop of `trySendlistKeyResponse`, from `i` keys down; `all` is the number of keys before it. `r` keeps
-- the keys of the last round.
unfoldable pub try_send : Env → KeyEnv → Serf → QueryEvent → KeyResponse → ℕ → ℕ → Serf
unfolding send_key_response cut
try_send env k s q r all zero = s
try_send env k s q r all (suc i) =
    let shorter = cut r all (suc i) in
    let rest = try_send env k s q shorter all i in
    let (e, s') = send_key_response env k s q shorter in if is_limit e then rest else s'

abbrev pub min : ℕ → ℕ → ℕ
min m n = if ltb n m then n else m

unfoldable pub try_send_list_key_response : Env → KeyEnv → Serf → QueryEvent → KeyResponse → Serf
unfolding try_send
try_send_list_key_response env k s q r =
    try_send env k s q r (length r.keys) (min (s.query_response_size_limit / 25) (length r.keys))

-- `handleListKey`
unfoldable pub handle_list_key : Env → KeyEnv → Serf → List Text → QueryEvent → Serf
unfolding try_send_list_key_response
handle_list_key env k s keyring q = try_send_list_key_response env k s q (record {
  success = true;
  err = [];
  keys = map k.encode_base64 keyring;
  primary_key = k.encode_base64 (k.get_primary_key keyring);
})

-- The switch of `handleKeyQuery`: the keyring after the command, or the error.
unfoldable pub change_keyring : KeyEnv → List Text → Text → Text → Option (List Text)
change_keyring k keyring name key =
    if text_eq name (bytes "install-key")
    then k.add_key keyring key
    else if text_eq name (bytes "use-key")
    then k.use_key keyring key
    else if text_eq name (bytes "remove-key")
    then k.remove_key keyring key
    else none

abbrev answer : Bool → Text → KeyResponse
answer success err = record { success = success; err = err; keys = []; primary_key = [] }

-- A keyring that was changed stays changed when its file cannot be written.
unfoldable pub handle_key_query : Env → KeyEnv → Serf → List Text → QueryEvent → Serf × List Text
unfolding handle_list_key change_keyring send_key_response
handle_key_query env k s keyring q =
    if k.encryption_enabled
    then (if text_eq q.name (bytes "list-key")
        then (handle_list_key env k s keyring q, keyring)
        else elim (change_keyring k keyring q.name (slice_bytes q.payload)) [
          | none ↦ ((send_key_response env k s q (answer false k.keyring_error)).1, keyring)
          | some keyring' ↦
              if k.write_fails keyring'
              then ((send_key_response env k s q (answer false k.write_error)).1, keyring')
              else ((send_key_response env k s q (answer true [])).1, keyring')
        ])
    else ((send_key_response env k s q (answer false (bytes "encryption not enabled"))).1, keyring)

-- One round of `receiveKeyEvents`: the node, the keyring, and what is passed on.
unfoldable pub receive_key_event :
    Env → KeyEnv → Serf → List Text → Event → (Serf × List Text) × List Event
unfolding handle_key_query is_valid_key_query_name
receive_key_event env k s keyring (on_query q) =
    if is_valid_key_query_name q.name
    then (handle_key_query env k s keyring q, [])
    else ((s, keyring), on_query q ∷ [])
receive_key_event env k s keyring (on_action e) = ((s, keyring), on_action e ∷ [])
receive_key_event env k s keyring (on_member e) = ((s, keyring), on_member e ∷ [])
receive_key_event env k s keyring (on_members e) = ((s, keyring), on_members e ∷ [])
