-- ===== src/Snapshot/Known.antt =====
-- Which members a snapshotter knows, told from the events alone.
use cserf.Prelude.{
  ℕ, ◌≡◌, refl, ap, subst, ◌∙◌, false, Option, none, some, List, Text, leb, if_lem, text_key,
  text_eq, get, put, remove, get-put, get-remove, if◌then◌else◌, arith, if_both,
}
use cserf.Messages.{MemberNode, EventType, Event, on_query, on_action, on_member, on_members}
use cserf.Snapshot.{
  Snapshotter, append_line, compact, record_action_clock, record_query_clock, record_member_event,
  record_known, record_event,
}
use cserf.Snapshot.Receive.{Signal, receive_signals}
use cserf.Snapshot.Told.{tell, receive_signals-tell}

-- The two have the same alive nodes, and both are leaving or not.
record Agree (s t : Snapshotter) : Type 0 where
  alive : s.alive_nodes ≡ t.alive_nodes
  leaving : s.leaving ≡ t.leaving

append_line-Agree : (s : Snapshotter) (l : Text) → Agree (append_line s l) s
unfolding append_line compact
append_line-Agree s l =
    if_both (λ (z : Snapshotter). Agree z s) _ (record { alive = refl; leaving = refl })
      (record { alive = refl; leaving = refl })

module _ (tcp_addr : Text → ℕ → Text) where
  -- The address under which `id` is known after a member event.
  abbrev after_member : Text → Option Text → EventType → MemberNode → Option Text
  after_member id o EventType.member_join m =
      if text_eq m.id id then some (tcp_addr m.ip m.port) else o
  after_member id o EventType.member_leave m = if text_eq m.id id then none else o
  after_member id o EventType.member_failed m = if text_eq m.id id then none else o
  after_member id o _ m = o

  abbrev after_option : Text → Option Text → EventType → Option MemberNode → Option Text
  after_option id o t none = o
  after_option id o t (some m) = after_member id o t m

  abbrev after_event : Text → Option Text → Event → Option Text
  after_event id o (on_member e) = after_option id o e.type e.member
  after_event id o _ = o

  -- The same after signals: a join tells the address, a leave or a failure makes it unknown, and after a call
  -- of `Leave` nothing changes any more.
  abbrev pub known : Text → Option Text → List Signal → Option Text
  known id = tell (after_event id)

  module _ (id : Text) where
    -- A snapshotter that is not leaving and has `v` as the address of `id`, if there is one.
    Knows : Option Text → Option Snapshotter → Type 0
    Knows v o = (s : Snapshotter) → o ≡ some s → (get s.alive_nodes id ≡ v) × (s.leaving ≡ false)

    Knows-some :
        (v : Option Text) (t : Snapshotter)
        → get t.alive_nodes id ≡ v
        → t.leaving ≡ false
        → Knows v (some t)
    unfolding Knows
    Knows-some v t e l s same =
        let eq : t ≡ s = ground (arith, same) in
        subst (λ s. (get s.alive_nodes id ≡ v) × (s.leaving ≡ false)) eq (e, l)

    Knows-append_line :
        (v : Option Text) (t : Snapshotter) (l : Text)
        → get t.alive_nodes id ≡ v
        → t.leaving ≡ false
        → Knows v (some (append_line t l))
    Knows-append_line v t l e stays =
        let a = append_line-Agree t l in
        Knows-some v (append_line t l) (ap (λ m. get m id) a.alive ∙ e) (a.leaving ∙ stays)

    Knows-member :
        (s : Snapshotter) (t : EventType) (o : Option MemberNode)
        → s.leaving ≡ false
        → Knows
            (after_option id (get s.alive_nodes id) t o)
            (record_member_event tcp_addr s (record { type = t; member = o }))
    unfolding record_member_event Knows
    Knows-member s EventType.member_join none l = Knows-some (get s.alive_nodes id) s refl l
    Knows-member s EventType.member_leave none l = λ s' e. absurd (ground (arith, e))
    Knows-member s EventType.member_failed none l = λ s' e. absurd (ground (arith, e))
    Knows-member s EventType.member_update none l = Knows-some (get s.alive_nodes id) s refl l
    Knows-member s EventType.member_reap none l = Knows-some (get s.alive_nodes id) s refl l
    Knows-member s EventType.query none l = Knows-some (get s.alive_nodes id) s refl l
    Knows-member s EventType.action none l = Knows-some (get s.alive_nodes id) s refl l
    Knows-member s EventType.member_join (some m) l =
        Knows-append_line _
          (record s { alive_nodes = put s.alive_nodes m.id (tcp_addr m.ip m.port) }) _
          (get-put s.alive_nodes m.id id (tcp_addr m.ip m.port)) l
    Knows-member s EventType.member_leave (some m) l =
        Knows-append_line _ (record s { alive_nodes = remove s.alive_nodes m.id }) _
          (get-remove s.alive_nodes m.id id) l
    Knows-member s EventType.member_failed (some m) l =
        Knows-append_line _ (record s { alive_nodes = remove s.alive_nodes m.id }) _
          (get-remove s.alive_nodes m.id id) l
    Knows-member s EventType.member_update (some m) l = Knows-some (get s.alive_nodes id) s refl l
    Knows-member s EventType.member_reap (some m) l = Knows-some (get s.alive_nodes id) s refl l
    Knows-member s EventType.query (some m) l = Knows-some (get s.alive_nodes id) s refl l
    Knows-member s EventType.action (some m) l = Knows-some (get s.alive_nodes id) s refl l

    Knows-known :
        (s : Snapshotter) (e : Event)
        → s.leaving ≡ false
        → Knows (after_event id (get s.alive_nodes id) e) (record_known tcp_addr s e)
    unfolding record_known record_action_clock record_query_clock
    Knows-known s (on_member e) l = Knows-member s e.type e.member l
    Knows-known s (on_members e) l = Knows-some (get s.alive_nodes id) s refl l
    Knows-known s (on_action e) l =
        if_both (λ z. Knows (get s.alive_nodes id) (some z)) (leb e.ltime s.last_action_clock)
          (Knows-some (get s.alive_nodes id) s refl l)
          (Knows-append_line _ (record s { last_action_clock = e.ltime }) _ refl l)
    Knows-known s (on_query e) l =
        if_both (λ z. Knows (get s.alive_nodes id) (some z)) (leb e.ltime s.last_query_clock)
          (Knows-some (get s.alive_nodes id) s refl l)
          (Knows-append_line _ (record s { last_query_clock = e.ltime }) _ refl l)

    Knows-event :
        (s : Snapshotter) (e : Event)
        → s.leaving ≡ false
        → Knows (after_event id (get s.alive_nodes id) e) (record_event tcp_addr s e)
    unfolding record_event
    Knows-event s e l =
        if_lem (Knows (after_event id (get s.alive_nodes id) e)) s.leaving
          (λ h. absurd (ground (arith, h, l))) (λ _. Knows-known s e l)

    -- A snapshotter that is not leaving knows, after any signals, what the signals tell.
    pub receive_signals-known :
        (gs : List Signal) (s s' : Snapshotter)
        → s.leaving ≡ false
        → receive_signals tcp_addr s gs ≡ some s'
        → get s'.alive_nodes id ≡ known id (get s.alive_nodes id) gs
    unfolding Knows
    receive_signals-known =
        receive_signals-tell tcp_addr (λ (s : Snapshotter). get s.alive_nodes id) (after_event id)
          (λ s l. ap (λ m. get m id) (append_line-Agree s l).alive) (λ s. refl)
          (λ s t e l r. Knows-event s e l t r)
