-- ===== src/Coalescer/Repeat.antt =====
-- A flush of a single event, and the same event once more.
use cserf.Prelude.{
  ◌≡◌, refl, Bool, true, false, Option, none, some, [], ◌∷◌, ◌++◌, text_key, get, put, arith,
  append_assoc,
}
use cserf.Messages.{MemberNode, EventType, type_key, Event, on_member, on_members}
use cserf.Coalescer.{
  Coalescer, equal, group, flush_round, flush_rounds, emit, flush, receive, is_member_event,
}

abbrev pub alone : EventType → MemberNode → Event
alone t n = on_members (record { type = t; members = n ∷ [] })

abbrev pub member : EventType → MemberNode → Event
member t n = on_member (record { type = t; member = some n })

module _ (deep_equal : MemberNode → MemberNode → Bool) where
  -- An event comes in, and the flush ticker fires.
  unfoldable pub receive_flush : Coalescer → Event → Option Coalescer
  receive_flush c e = elim (receive c e) [ none ↦ none | some c' ↦ some (flush deep_equal c') ]

  receive_flush-alone :
      (c : Coalescer) (t : EventType) (n : MemberNode)
      → c.new_events ≡ []
      → is_member_event t ≡ true
      → equal deep_equal (record { type = t; node = n }) (get c.old_events n.id) ≡ false
      → receive_flush c (member t n)
        ≡ some
            (record { new_events = []; old_events = c.old_events; out = c.out ++ (alone t n ∷ []) })
  unfolding receive_flush receive flush flush_rounds flush_round group emit get put
  receive_flush-alone c t n empty is_member differs = ground (arith, empty, is_member, differs)

  -- When an event of a member comes alone between two flushes, and differs from the last one remembered
  -- of its node, it is sent; when the very same event comes again before the next flush, it is sent
  -- again.
  pub repeat_sent :
      (c : Coalescer) (t : EventType) (n : MemberNode)
      → c.new_events ≡ []
      → is_member_event t ≡ true
      → equal deep_equal (record { type = t; node = n }) (get c.old_events n.id) ≡ false
      → (c' c'' : Coalescer) × (receive_flush c (member t n) ≡ some c')
        × (receive_flush c' (member t n) ≡ some c'')
        × (c''.out ≡ c.out ++ (alone t n ∷ alone t n ∷ []))
  repeat_sent c t n empty is_member differs =
      let c' : Coalescer = record {
        new_events = [];
        old_events = c.old_events;
        out = c.out ++ (alone t n ∷ []);
      } in
      (
        c',
        record c' { out = c'.out ++ (alone t n ∷ []) },
        receive_flush-alone c t n empty is_member differs,
        receive_flush-alone c' t n refl is_member differs,
        append_assoc c.out (alone t n ∷ []) (alone t n ∷ []),
      )
