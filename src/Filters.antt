-- ===== src/Filters.antt =====
-- event_handlers.go: which events the streams and the scripts get. What is sent to `invokeScriptCh` is kept in
-- a list; the running of a script is in Scripts. Handlers are numbered, as the source compares pointers.
pub mod Streams
pub mod Parse
mod Tests
use cserf.Prelude.{
  ℕ, Bool, true, false, ◌||◌, ◌&&◌, Option, none, some, List, [], ◌∷◌, ◌++◌, map, Text, bytes,
  text_eq, split, has_prefix, nat_eq, ltb, nat_key, Dict, get, put, remove, length, drop,
  if◌then◌else◌,
}
use cserf.Messages.{Event, on_query, on_action, on_member, on_members, event_type, event_name}

-- `eventFilter`
pub record EventFilter : Type 0 where
  pub event_type : Text
  pub name : Text

-- Whether the event is a query of another name.
abbrev pub is_other_query : Text → Event → Bool
is_other_query name (on_query q) = if text_eq q.name name then false else true
is_other_query name (on_action e) = false
is_other_query name (on_member e) = false
is_other_query name (on_members e) = false

unfoldable pub matches : EventFilter → Event → Bool
unfolding event_name event_type
matches f e =
    if text_eq f.event_type (bytes "*")
    then true
    else if text_eq (event_name (event_type e)) f.event_type
    then (if text_eq f.name [] then true else if is_other_query f.name e then false else true)
    else false

unfoldable pub is_valid_event_filter : EventFilter → Bool
is_valid_event_filter f =
    text_eq f.event_type (bytes "member-join")
    || (text_eq f.event_type (bytes "member-leave")
        || (text_eq f.event_type (bytes "member-failed")
            || (text_eq f.event_type (bytes "member-update")
                || (text_eq f.event_type (bytes "member-reap")
                    || (text_eq f.event_type (bytes "action")
                        || (text_eq f.event_type (bytes "query")
                            || text_eq f.event_type (bytes "*")))))))

-- The filter that `parseEventFilter` builds before it is checked.
unfoldable pub to_filter : Text → EventFilter
to_filter s =
    if has_prefix s (bytes "query:")
    then record { event_type = bytes "query"; name = drop 6 s }
    else if has_prefix s (bytes "action:")
    then record { event_type = bytes "action"; name = drop 7 s }
    else record { event_type = s; name = [] }

unfoldable pub parse_event_filter : Text → Option EventFilter
unfolding to_filter is_valid_event_filter
parse_event_filter s = if is_valid_event_filter (to_filter s) then some (to_filter s) else none

-- The loop of `ParseEventFilters`.
unfoldable pub keep_filters : List Text → List EventFilter
keep_filters [] = []
keep_filters (s ∷ ss) =
    let rest = keep_filters ss in elim (parse_event_filter s) [ none ↦ rest | some f ↦ f ∷ rest ]

unfoldable pub parse_event_filters : Text → List EventFilter
unfolding keep_filters split
parse_event_filters [] = record { event_type = bytes "*"; name = [] } ∷ []
parse_event_filters (c ∷ cs) = keep_filters (split 44 [] (c ∷ cs))

-- `StreamEventHandler`: `received` is what waits in its channel, which holds `capacity` events.
pub record StreamEventHandler : Type 0 where
  pub filters : List EventFilter
  pub capacity : ℕ
  pub received : List Event

unfoldable pub create_stream_handler : ℕ → Text → StreamEventHandler
unfolding parse_event_filters
create_stream_handler capacity filter = record {
  filters = parse_event_filters filter;
  capacity = capacity;
  received = [];
}

-- The loop of `(*StreamEventHandler).HandleEvent`.
unfoldable pub is_accepted : List EventFilter → Event → Bool
unfolding matches
is_accepted [] e = false
is_accepted (f ∷ fs) e = if matches f e then true else is_accepted fs e

-- `forwardEvent`: an event is dropped when the channel is full.
unfoldable pub forward_event : StreamEventHandler → Event → StreamEventHandler
forward_event h e =
    if ltb (length h.received) h.capacity then record h { received = h.received ++ (e ∷ []) } else h

unfoldable pub handle_event : StreamEventHandler → Event → StreamEventHandler
unfolding is_accepted forward_event
handle_event h e = if is_accepted h.filters e then forward_event h e else h

-- `streamEventHandlerManager`: `store` stands for the handlers that the pointers lead to.
pub record StreamManager : Type 0 where
  pub store : Dict ℕ StreamEventHandler
  pub handler_map : Dict ℕ (Unit {0})
  pub handler_list : List ℕ

-- The loop that copies the map's keys.
unfoldable pub keys : Dict ℕ (Unit {0}) → List ℕ
keys [] = []
keys ((h, u) ∷ m) = h ∷ keys m

unfoldable pub register : StreamManager → ℕ → StreamManager
unfolding keys
register m h = record m {
  handler_map = put m.handler_map h tt;
  handler_list = keys (put m.handler_map h tt);
}

unfoldable pub deregister : StreamManager → ℕ → StreamManager
unfolding keys
deregister m h = record m {
  handler_map = remove m.handler_map h;
  handler_list = keys (remove m.handler_map h);
}

-- The loop of the manager's `handleEvent`: the event goes to each handler of the list.
unfoldable pub tell : List ℕ → Event → Dict ℕ StreamEventHandler → Dict ℕ StreamEventHandler
unfolding handle_event
tell [] e store = store
tell (h ∷ hs) e store = elim (get store h) [
  | none ↦ tell hs e store
  | some s ↦ tell hs e (put store h (handle_event s e))
]

unfoldable pub handle_stream_event : StreamManager → Event → StreamManager
unfolding tell
handle_stream_event m e = record m { store = tell m.handler_list e m.store }

-- `ScriptEventHandler`
pub record ScriptEventHandler : Type 0 where
  pub script : Text
  pub filter : EventFilter

pub record ScriptManager : Type 0 where
  pub handlers : List ScriptEventHandler
  pub new_handlers : List ScriptEventHandler
  pub invoked : List (Text × Event)

unfoldable pub update : ScriptManager → List ScriptEventHandler → ScriptManager
update m handlers = record m { new_handlers = handlers }

-- The scripts whose filter matches, which are sent to `invokeScriptCh`.
unfoldable pub invoke : List ScriptEventHandler → Event → List (Text × Event)
invoke [] e = []
invoke (h ∷ hs) e =
    let rest = invoke hs e in if matches h.filter e then (h.script, e) ∷ rest else rest

-- The handlers in force: new ones replace the old, unless there are none.
abbrev pub in_force : List ScriptEventHandler → List ScriptEventHandler → List ScriptEventHandler
in_force old [] = old
in_force old (h ∷ hs) = h ∷ hs

unfoldable pub handle_script_event : ScriptManager → Event → ScriptManager
unfolding invoke
handle_script_event m e = record {
  handlers = in_force m.handlers m.new_handlers;
  new_handlers = [];
  invoked = m.invoked ++ invoke (in_force m.handlers m.new_handlers) e;
}

-- `strings.SplitN(s, "=", 2)`: what stands before and behind the first sign.
unfoldable pub split_equals : Text → Option (Text × Text)
split_equals [] = none
split_equals (c ∷ cs) =
    let rest = split_equals cs in
    if nat_eq c 61 then some ([], cs) else elim rest [ none ↦ none | some (a, b) ↦ some (c ∷ a, b) ]

abbrev pub with_script : Text → EventFilter → ScriptEventHandler
with_script script f = record { script = script; filter = f }

unfoldable pub create_script_handlers : Text → List ScriptEventHandler
unfolding split_equals
create_script_handlers [] = []
create_script_handlers (c ∷ cs) = elim (split_equals (c ∷ cs)) [
  | none ↦ map (with_script (c ∷ cs)) (parse_event_filters [])
  | some (filter, script) ↦ map (with_script script) (parse_event_filters filter)
]

-- `escapeWhiteSpace`: its two replacements, of tabs and of line feeds.
unfoldable pub replace : ℕ → Text → Text → Text
replace old new [] = []
replace old new (c ∷ cs) =
    let rest = replace old new cs in if nat_eq c old then new ++ rest else c ∷ rest

unfoldable pub escape_white_space : Text → Text
unfolding replace
escape_white_space s = replace 10 (92 ∷ 110 ∷ []) (replace 9 (92 ∷ 116 ∷ []) s)

-- The line feed that `stdinPayload` adds to a payload without one.
unfoldable pub ends_line : Text → Bool
ends_line [] = true
ends_line (c ∷ []) = nat_eq c 10
ends_line (c ∷ d ∷ cs) = ends_line (d ∷ cs)

unfoldable pub stdin_payload : Text → Text
unfolding ends_line
stdin_payload buf = if ends_line buf then buf else buf ++ (10 ∷ [])
