-- ===== src/Commands.antt =====
-- cmd/*.go and cmd/utils/output.go: what each command checks, what it asks of the server and what it prints.
-- Flags, the connection and the calls of the gRPC stub are parameters, and so is the printing of JSON. A stub
-- returns nil with an error.
pub mod Members
pub mod Reach
pub mod Payload
pub mod TagFilters
mod Tests
use cserf.Prelude.{
  ℕ, suc, Bool, true, false, not, ◌||◌, Option, none, some, List, [], ◌∷◌, ◌++◌, Text, bytes,
  text_eq, text_key, Dict, split, length, ltb, if◌then◌else◌,
}
use cserf.Decimal.{print_u64}
use cserf.Keys.{KeyQueryResponse}
use cserf.Tags.{to_tag_map}

-- A line on the standard output or the error output.
pub data Line : Type 0 where
  out err : Text → Line

-- What `json.MarshalIndent` returns.
pub data Marshalled : Type 0 where
  json unmarshalled : Text → Marshalled

unfoldable pub info : Text → Line
info s = Line.out (bytes ">> " ++ s)

unfoldable pub error : Text → Line
error e = Line.err (bytes "***** error: " ++ e)

abbrev pub result_prefix : Text
result_prefix = bytes "====> output: "

-- `Result`, where `none` is a nil object.
unfoldable pub result : Text → Option Marshalled → Line
unfolding error
result name none = Line.out (result_prefix ++ name)
result name (some (Marshalled.json j)) = Line.out (result_prefix ++ (name ++ (bytes ": " ++ j)))
result name (some (Marshalled.unmarshalled e)) = error e

-- The lines of a command that returns, or of one that panics.
pub data Ran : Type 0 where
  returned panicked : List Line → Ran

-- The answer of a call: an error, or a message.
pub data Reply (A : Type 0) : Type 0 where
  failed : Text → Reply A
  answered : A → Reply A

-- `getClientFromCmd`: `key` is the value of `SERF_RPC_AUTH`, and `create` is `CreateClient`.
unfoldable pub get_client_from_cmd : (Text → Option Text) → Text → Option Text
get_client_from_cmd create [] = some (bytes "empty auth key")
get_client_from_cmd create (c ∷ key) = create (c ∷ key)

abbrev pub connected : Line
connected = info (bytes "connect successfully to server...")

abbrev pub closed : Line
closed = info (bytes "client closed")

-- What every command does with the client; the deferred call runs after a panic, too.
unfoldable pub with_client : Option Text → Ran → Ran
unfolding info error
with_client (some e) body = Ran.returned (error e ∷ [])
with_client none (Ran.returned ls) = Ran.returned (connected ∷ (ls ++ (closed ∷ [])))
with_client none (Ran.panicked ls) = Ran.panicked (connected ∷ (ls ++ (closed ∷ [])))

-- The end of most commands.
abbrev pub shown : {A : Type 0} → (A → Line) → Reply A → Ran
shown show (Reply.failed e) = Ran.returned (error e ∷ [])
shown show (Reply.answered a) = Ran.returned (show a ∷ [])

abbrev pub refused : Text → Ran
refused e = Ran.returned (error e ∷ [])

abbrev pub at_least_one_arg : Text
at_least_one_arg = bytes "require at least 1 argument"

-- The payload of `ActionCommand`: the test reads the length of the name, so `none` is a panic.
unfoldable pub action_payload : Text → List Text → Option Text
action_payload name more =
    if ltb 1 (length name) then (elim more [ [] ↦ none | p ∷ ps ↦ some p ]) else some []

unfoldable pub send_action : Option Text → (Text → Text → Reply Unit) → Text → Option Text → Ran
unfolding error result with_client
send_action client action name none = Ran.panicked []
send_action client action name (some payload) =
    with_client client (shown (λ _. result (bytes "success") none) (action name payload))

unfoldable pub action_command : Option Text → (Text → Text → Reply Unit) → List Text → Ran
unfolding error send_action action_payload
action_command client action [] = refused at_least_one_arg
action_command client action (name ∷ more) =
    send_action client action name (action_payload name more)

unfoldable pub is_valid_key_command : Text → Bool
is_valid_key_command s =
    text_eq s (bytes "install")
    || (text_eq s (bytes "use") || (text_eq s (bytes "remove") || text_eq s (bytes "list")))

-- The key of `KeyCommand`: `none` if it is missing.
unfoldable pub key_of : Text → List Text → Option Text
key_of command more =
    if text_eq command (bytes "list")
    then some []
    else (elim more [ [] ↦ none | key ∷ ks ↦ some key ])

-- `quote` prints with `%q`, and `to_json` is `json.MarshalIndent`.
unfoldable pub key_command :
    (Text → Text)
    → (KeyQueryResponse → Marshalled)
    → Option Text
    → (Text → Text → Reply KeyQueryResponse)
    → List Text
    → Ran
unfolding error result with_client is_valid_key_command key_of
key_command quote to_json client key [] = refused at_least_one_arg
key_command quote to_json client key (command ∷ more) =
    if not (is_valid_key_command command)
    then refused (bytes "not a key command " ++ quote command)
    else (elim (key_of command more) [
      | none ↦ refused (bytes "expect key for command: " ++ command)
      | some k ↦
          with_client client
            (shown (λ r. result (bytes "key response") (some (to_json r))) (key command k))
    ])

-- `pb.TagRequest`
pub record TagRequest : Type 0 where
  pub command : Text
  pub tags : Dict Text Text
  pub keys : List Text

unfoldable pub is_valid_tag_command : Text → Bool
is_valid_tag_command s = text_eq s (bytes "unset") || text_eq s (bytes "update")

unfoldable pub to_tag_request : Text → Text → TagRequest
unfolding to_tag_map split
to_tag_request command text = record {
  command = command;
  tags = if text_eq command (bytes "update") then to_tag_map text else [];
  keys = if text_eq command (bytes "unset") then split 44 [] text else [];
}

unfoldable pub tags_command : Option Text → (TagRequest → Reply Unit) → List Text → Ran
unfolding error result with_client is_valid_tag_command to_tag_request
tags_command client tag (command ∷ text ∷ more) =
    if not (is_valid_tag_command command)
    then refused (bytes "not a valid tag command " ++ command)
    else (elim text [
      | [] ↦ refused (bytes "data should not be empty")
      | c ∷ cs ↦ with_client client (
          shown
            (λ _.
              result (bytes "successfully " ++ (command ++ (bytes " tags with " ++ (c ∷ cs)))) none)
            (tag (to_tag_request command (c ∷ cs))))
    ])
tags_command client tag _ = refused (bytes "require at least 2 arguments")

-- `JoinCommand` after the call: the error, and the number of joins unless the message is nil.
unfoldable pub show_joins : (Text → Marshalled) → List Text → Option Text → Option ℕ → Ran
unfolding error result
show_joins to_json addrs none none = Ran.panicked []
show_joins to_json addrs (some e) none = Ran.returned (error e ∷ [])
show_joins to_json addrs e (some n) = Ran.returned (
    (elim e [ none ↦ [] | some m ↦ error m ∷ [] ])
    ++ (result (bytes "num of successful joins")
          (some (to_json (print_u64 n ++ (47 ∷ print_u64 (length addrs)))))
        ∷ []))

unfoldable pub join_command :
    (Text → Marshalled)
    → Option Text
    → (List Text → Bool → Option Text × Option ℕ)
    → Bool
    → List Text
    → Ran
unfolding show_joins with_client error
join_command to_json client join ignore_old [] = refused at_least_one_arg
join_command to_json client join ignore_old (a ∷ addrs) =
    let (e, n) = join (a ∷ addrs) ignore_old in
    with_client client (show_joins to_json (a ∷ addrs) e n)

unfoldable pub leave_command : Option Text → Reply Unit → Ran
unfolding error result with_client info
leave_command client leave =
    elim (with_client client (shown (λ _. result (bytes "leave successfully") none) leave)) [
      | Ran.returned ls ↦ Ran.returned (info (bytes "gonna leave, don't be clingy to me ...") ∷ ls)
      | Ran.panicked ls ↦ Ran.panicked (info (bytes "gonna leave, don't be clingy to me ...") ∷ ls)
    ]

-- `RttCommand`: no second node means the one of the server.
unfoldable pub rtt_command :
    (Text → Marshalled) → Option Text → (Text → Text → Reply Text) → List Text → Ran
unfolding error result with_client
rtt_command to_json client rtt [] = refused at_least_one_arg
rtt_command to_json client rtt (first ∷ more) = with_client client (
    shown (λ d. result (bytes "rtt") (some (to_json d)))
      (rtt first (elim more [ [] ↦ [] | second ∷ rest ↦ second ])))
