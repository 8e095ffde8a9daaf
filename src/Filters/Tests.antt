-- ===== src/Filters/Tests.antt =====
-- Filters on small runs.
use cserf.Prelude.{split, ◌≡◌, refl, arith, true, none, List, [], ◌∷◌, bytes, get, nat_key}
use cserf.Messages.{Event, on_action, event_type, event_name}
use cserf.Filters.{
  StreamManager, StreamEventHandler, matches, parse_event_filters, keep_filters, parse_event_filter,
  to_filter, is_valid_event_filter,
}
use cserf.Filters.Streams.{IsListed, Call, registers, deregisters}

abbrev deploy : Event
deploy = on_action (record { ltime = 3; name = bytes "deploy"; payload = none })

parses :
    parse_event_filters (bytes "action:foo,bar")
    ≡ record { event_type = bytes "action"; name = bytes "foo" } ∷ []
unfolding parse_event_filters keep_filters split parse_event_filter to_filter is_valid_event_filter
parses = refl

-- The name in a filter of actions is not looked at.
action_name_ignored :
    matches (record { event_type = bytes "action"; name = bytes "foo" }) deploy ≡ true
unfolding matches event_type event_name
action_name_ignored = refl

abbrev handler : StreamEventHandler
handler = record {
  filters = record { event_type = bytes "*"; name = [] } ∷ [];
  capacity = 8;
  received = [];
}

abbrev manager : StreamManager
manager = record { store = (4, handler) ∷ (5, handler) ∷ []; handler_map = []; handler_list = [] }

manager-IsListed : IsListed manager
unfolding get
manager-IsListed = record { map = tt; listed = λ h. refl }

abbrev some_calls : List Call
some_calls = registers 4 ∷ registers 5 ∷ deregisters 4 ∷ []

abbrev listening : StreamManager
listening = record { store = (4, handler) ∷ []; handler_map = (4, tt) ∷ []; handler_list = 4 ∷ [] }

listening-IsListed : IsListed listening
unfolding get
listening-IsListed = record { map = (refl, tt); listed = λ h. ground arith }
