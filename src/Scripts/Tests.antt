-- ===== src/Scripts/Tests.antt =====
-- Scripts of a node with two tags.
use cserf.Prelude.{
  ℕ, ◌-◌, ◌≡◌, refl, true, false, none, some, List, [], ◌∷◌, ◌++◌, Text, bytes, get, text_key, ltb,
  if◌then◌else◌,
}
use cserf.Fixtures.{serf, env}
use cserf.Messages.{Event, QueryEvent, on_query, on_action}
use cserf.Serf.{Serf}
use cserf.Scripts.{ScriptIo, tag_prefix, to_valid_shell_name, script_cmd, receive_invoke_scripts}
use cserf.Scripts.Environment.{shell_tags, or_else, getenv, getenv-script_cmd}
use cserf.Scripts.Answers.{answers, respond_all, receive_invoke_scripts_lem}

abbrev upper : ℕ → ℕ
upper c = if ltb 96 c then c - 32 else c

abbrev io : ScriptIo
io = record {
  upper = upper;
  is_windows = false;
  environ = bytes "HOME=/" ∷ [];
  decode_tags = λ t. none;
  show_ip = λ t. t;
  pipe_fails = false;
  start_fails = false;
  script_fails = false;
  total_written = 2;
  output = bytes "ok";
}

abbrev tagged : Serf
tagged = record serf { tags = (bytes "role", bytes "web") ∷ (bytes "data-dc", bytes "e=1") ∷ [] }

abbrev event : Event
event = on_action (record { ltime = 3; name = bytes "deploy"; payload = none })

getenv-script_cmd_example :
    getenv (script_cmd io tagged (bytes "./x") event []).env (tag_prefix ++ bytes "DATA_DC")
    ≡ or_else
        (get (shell_tags io.upper tagged.tags) (bytes "DATA_DC"))
        (getenv io.environ (tag_prefix ++ bytes "DATA_DC"))
unfolding to_valid_shell_name get
getenv-script_cmd_example =
    getenv-script_cmd io tagged (bytes "./x") [] event (bytes "DATA_DC") (refl, (refl, tt))

data_dc : get (shell_tags upper tagged.tags) (bytes "DATA_DC") ≡ some (bytes "e=1")
unfolding to_valid_shell_name get
data_dc = refl

abbrev query : QueryEvent
query = record {
  name = bytes "load";
  ltime = 3;
  id = 9;
  source_ip = [];
  source_port = 0;
  node_id = bytes "b";
  num_relays = 0;
  payload = none;
  deadline = 9;
}

abbrev runs : List (ScriptIo × Text × Event)
runs =
    (io, bytes "./x", event)
    ∷ (record io { script_fails = true }, bytes "./y", on_query query)
    ∷ (io, bytes "./z", on_query query)
    ∷ []

receive_invoke_scripts_lem_example :
    receive_invoke_scripts runs env serf ≡ respond_all env serf (answers runs)
receive_invoke_scripts_lem_example = receive_invoke_scripts_lem runs env serf
