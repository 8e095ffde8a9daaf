-- ===== src/Scripts.antt =====
-- The scripts that event_handlers.go runs for events: their environment, what they read, and how the output
-- answers a query. The process and the ring that keeps the end of its output are parameters. A tag's name is
-- the list of its characters here, which are its bytes where it is ASCII.
pub mod Environment
pub mod Answers
mod Tests
use cserf.Prelude.{
  ℕ, ◌<◌, Bool, true, false, ◌&&◌, ◌||◌, Option, none, some, List, [], ◌∷◌, ◌++◌, map, Text, bytes,
  Dict, nat_eq, ltb, leb, if◌then◌else◌,
}
use cserf.Buffer.{slice_bytes}
use cserf.Decimal.{print_u64}
use cserf.Messages.{Event, on_query, on_action, on_member, on_members, event_type, event_name}
use cserf.Serf.{Serf, Env, get_tag}
use cserf.Serf.Relay.{respond_to_query_event}
use cserf.Filters.{
  stdin_payload, StreamManager, ScriptManager, handle_script_event, handle_stream_event,
}
use cserf.Tags.{stdin_member_data}

-- What running one script takes from outside: the characters' upper case, the environment of the process, the
-- codec and printer of the member data, which calls fail, and the output: how much was written, and its end.
pub record ScriptIo : Type 0 where
  pub upper : ℕ → ℕ
  pub is_windows : Bool
  pub environ : List Text
  pub decode_tags : Text → Option (Dict Text Text)
  pub show_ip : Text → Text
  pub pipe_fails : Bool
  pub start_fails : Bool
  pub script_fails : Bool
  pub total_written : ℕ
  pub output : Text

-- `exec.Cmd`: the arguments, the environment, and what is written to its input.
pub record Cmd : Type 0 where
  pub shell : Text
  pub flag : Text
  pub script : Text
  pub env : List Text
  pub stdin : Text

-- The characters that `invalidShellChars` leaves alone.
abbrev pub is_shell_char : ℕ → Bool
is_shell_char c = (leb 65 c && leb c 90) || ((leb 48 c && leb c 57) || nat_eq c 95)

abbrev pub shell_char : ℕ → ℕ
shell_char c = if is_shell_char c then c else 95

unfoldable pub to_valid_shell_name : (ℕ → ℕ) → Text → Text
to_valid_shell_name upper [] = []
to_valid_shell_name upper (c ∷ cs) = shell_char (upper c) ∷ to_valid_shell_name upper cs

-- An entry of the environment.
abbrev pub variable : Text → Text → Text
variable name value = name ++ (61 ∷ value)

abbrev pub tag_prefix : Text
tag_prefix = bytes "SERF_TAG_"

-- The loop of `setupScriptCmd` over the tags.
unfoldable pub tag_envs : (ℕ → ℕ) → Dict Text Text → List Text
unfolding to_valid_shell_name
tag_envs upper [] = []
tag_envs upper ((name, val) ∷ m) =
    variable (tag_prefix ++ to_valid_shell_name upper name) val ∷ tag_envs upper m

unfoldable pub setup_script_cmd : ScriptIo → Serf → Text → Cmd
unfolding tag_envs get_tag
setup_script_cmd io s script = record {
  shell = if io.is_windows then bytes "cmd" else bytes "/bin/sh";
  flag = if io.is_windows then bytes "/C" else bytes "-c";
  script = script;
  env =
      io.environ
      ++ (variable (bytes "SERF_LOCAL_ID") s.id
          ∷ variable (bytes "SERF_LOCAL_ROLE") (get_tag s (bytes "role"))
          ∷ tag_envs io.upper s.tags);
  stdin = [];
}

-- The variables that tell of the event.
unfoldable pub event_envs : Event → List Text
unfolding event_type event_name
event_envs (on_action e) =
    variable (bytes "SERF_EVENT") (event_name (event_type (on_action e)))
    ∷ variable (bytes "SERF_ACTION_EVENT") e.name
    ∷ variable (bytes "SERF_ACTION_LTIME") (print_u64 e.ltime)
    ∷ []
event_envs (on_query e) =
    variable (bytes "SERF_EVENT") (event_name (event_type (on_query e)))
    ∷ variable (bytes "SERF_QUERY_NAME") e.name
    ∷ variable (bytes "SERF_QUERY_LTIME") (print_u64 e.ltime)
    ∷ []
event_envs (on_member e) = variable (bytes "SERF_EVENT") (event_name e.type) ∷ []
event_envs (on_members e) = variable (bytes "SERF_EVENT") (event_name e.type) ∷ []

-- What is written to the script; an event of a single member is not known to it.
unfoldable pub event_stdin : ScriptIo → Event → Option Text
unfolding stdin_member_data stdin_payload
event_stdin io (on_members e) = some (stdin_member_data io.decode_tags io.show_ip e.members)
event_stdin io (on_action e) = some (stdin_payload (slice_bytes e.payload))
event_stdin io (on_query e) = some (stdin_payload (slice_bytes e.payload))
event_stdin io (on_member e) = none

unfoldable pub script_cmd : ScriptIo → Serf → Text → Event → Text → Cmd
unfolding setup_script_cmd event_envs
script_cmd io s script e stdin =
    let cmd = setup_script_cmd io s script in
    record cmd { env = cmd.env ++ event_envs e; stdin = stdin }

pub data ScriptError : Type 0 where
  pipe_error unknown_event start_error script_error : ScriptError

-- The result of `invokeEventScript`, with the command that was started, if one was.
pub record Invocation : Type 0 where
  pub error : Option ScriptError
  pub started : Option Cmd
  pub serf : Serf

-- A query is answered with what is kept of the output; an error in sending it is only logged.
unfoldable pub answer : ScriptIo → Env → Serf → Event → Serf
answer io env s (on_query q) =
    if ltb 0 io.total_written then (respond_to_query_event env s q (some io.output)).1 else s
answer io env s (on_action e) = s
answer io env s (on_member e) = s
answer io env s (on_members e) = s

abbrev pub run_cmd : ScriptIo → Env → Serf → Event → Cmd → Invocation
run_cmd io env s e cmd =
    if io.start_fails
    then record { error = some start_error; started = none; serf = s }
    else if io.script_fails
    then record { error = some script_error; started = some cmd; serf = s }
    else record { error = none; started = some cmd; serf = answer io env s e }

unfoldable pub invoke_event_script : ScriptIo → Env → Serf → Text → Event → Invocation
unfolding event_stdin script_cmd answer
invoke_event_script io env s script e =
    if io.pipe_fails
    then record { error = some pipe_error; started = none; serf = s }
    else elim (event_stdin io e) [
      | none ↦ record { error = some unknown_event; started = none; serf = s }
      | some stdin ↦ run_cmd io env s e (script_cmd io s script e stdin)
    ]

-- The loop of `receiveInvokeScripts` over what is sent to `invokeScriptCh`; each script has a run of its own.
unfoldable pub receive_invoke_scripts : List (ScriptIo × Text × Event) → Env → Serf → Serf
unfolding invoke_event_script
receive_invoke_scripts [] env s = s
receive_invoke_scripts ((io, script, e) ∷ more) env s =
    receive_invoke_scripts more env (invoke_event_script io env s script e).serf

-- `eventHandlerManager` and its `handleEvent`.
pub record EventManager : Type 0 where
  pub script : ScriptManager
  pub stream : StreamManager

unfoldable pub handle_event : EventManager → Event → EventManager
handle_event m e = record {
  script = handle_script_event m.script e;
  stream = handle_stream_event m.stream e;
}

-- The loop of `receiveEvents` of event_handlers.go.
unfoldable pub receive_events : EventManager → List Event → EventManager
unfolding handle_event
receive_events m [] = m
receive_events m (e ∷ es) = receive_events (handle_event m e) es
