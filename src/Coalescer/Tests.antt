-- ===== src/Coalescer/Tests.antt =====
-- The coalescer on small runs.
use cserf.Prelude.{
  ◌≡◌, refl, Bool, true, false, none, [], ◌∷◌, ◌++◌, get, text_key, bytes, Text, IsMap,
}
use cserf.Messages.{MemberNode, EventType, type_key}
use cserf.Coalescer.{Change, Coalescer, Groups, equal, emit, flush, is_member_event}
use cserf.Coalescer.Flush.{extend, changed, flush_lem}

abbrev node : Text → MemberNode
node id = record { id = id; ip = []; port = 0; tags = [] }

-- Only stands in for `reflect.DeepEqual` on nodes without tags.
abbrev same : MemberNode → MemberNode → Bool
same m n = true

abbrev joined : Text → Text × Change
joined id = (id, record { type = EventType.member_join; node = node id })

abbrev pending : Coalescer
pending = record {
  new_events = joined (bytes "a") ∷ joined (bytes "b") ∷ [];
  old_events = joined (bytes "a") ∷ [];
  out = [];
}

abbrev idle : Coalescer
idle = record { new_events = []; old_events = []; out = [] }

pending-IsMap : IsMap pending.new_events
unfolding get
pending-IsMap = (refl, (refl, tt))

flush_lem_example :
    (groups : Groups) × ((flush same pending).out ≡ [] ++ emit groups)
    × IsMap groups
    × ((t : EventType)
        → get groups t ≡ extend none t (changed same t pending.old_events pending.new_events))
    × ((flush same pending).new_events ≡ [])
flush_lem_example = flush_lem same pending pending-IsMap

differs :
    equal same
      (record { type = EventType.member_join; node = node (bytes "a") })
      (get idle.old_events (bytes "a"))
    ≡ false
unfolding equal get
differs = refl

is_member : is_member_event EventType.member_join ≡ true
unfolding is_member_event
is_member = refl
