-- ===== src/Coalescer/Flush.antt =====
-- What one flush sends.
use cserf.Prelude.{
  ◌≡◌, ◌≢◌, refl, ◌∙◌, Bool, Option, none, some, List, [], ◌∷◌, ◌++◌, Text, text_eq_iff, text_key,
  Dict, get, get-put, IsMap, put-IsMap, arith, if◌then◌else◌, Bool-cases, inl, inr, append_assoc,
}
use cserf.Messages.{MemberNode, EventType, type_eq, type_eq_iff, type_key, CoalescedMemberEvent}
use cserf.Coalescer.{
  Change, Coalescer, Groups, equal, group, flush_round, flush_rounds, emit, flush,
}

-- A group with more nodes behind it.
abbrev pub extend :
    Option CoalescedMemberEvent → EventType → List MemberNode → Option CoalescedMemberEvent
extend o t [] = o
extend none t (n ∷ ns) = some (record { type = t; members = n ∷ ns })
extend (some g) t (n ∷ ns) = some (record g { members = g.members ++ (n ∷ ns) })

extend-some :
    (g : CoalescedMemberEvent) (t : EventType) (n : MemberNode) (ns : List MemberNode)
    → extend (some (record g { members = g.members ++ (n ∷ []) })) t ns ≡ extend (some g) t (n ∷ ns)
extend-some g t n [] = refl
extend-some g t n (m ∷ ns) = rw append_assoc

extend-extend :
    (o : Option CoalescedMemberEvent) (t : EventType) (n : MemberNode) (ns : List MemberNode)
    → extend (extend o t (n ∷ [])) t ns ≡ extend o t (n ∷ ns)
extend-extend none t n [] = refl
extend-extend none t n (m ∷ ns) = refl
extend-extend (some g) t n ns = extend-some g t n ns

module _ (deep_equal : MemberNode → MemberNode → Bool) where
  -- The nodes of the new events of type `t` that differ from the old event of their node, in order.
  pub changed : EventType → Dict Text Change → Dict Text Change → List MemberNode
  changed t old [] = []
  changed t old ((id, e) ∷ news) =
      let rest = changed t old news in
      if type_eq e.type t
      then (if equal deep_equal e (get old id) then rest else e.node ∷ rest)
      else rest

  -- What a round does to the group of each type.
  get-flush_round :
      (id : Text) (e : Change) (groups : Groups) (old : Dict Text Change) (t : EventType)
      → get (flush_round deep_equal id e (groups, old)).0 t ≡ (
          if type_eq e.type t
          then (if equal deep_equal e (get old id)
              then get groups t
              else extend (get groups t) t (e.node ∷ []))
          else get groups t)
  unfolding flush_round group
  get-flush_round id e groups old t = elim (Bool-cases (equal deep_equal e (get old id))) [
    | inl same ↦ rw same (ground arith)
    | inr differ ↦ rw differ (go (get groups e.type) refl)
  ]
    where
      go :
          (o : Option CoalescedMemberEvent)
          → get groups e.type ≡ o
          → get (group id e (get groups e.type) (groups, old)).0 t
            ≡ (if type_eq e.type t then extend (get groups t) t (e.node ∷ []) else get groups t)
      go none h = ground (
        arith,
        h,
        get-put groups e.type t (record { type = e.type; members = e.node ∷ [] }),
        type_eq_iff e.type t,
      )
      go (some g) h = ground (
        arith,
        h,
        get-put groups e.type t (record g { members = g.members ++ (e.node ∷ []) }),
        type_eq_iff e.type t,
      )

  -- A round changes the old events at its own id at most, and keeps the groups a map.
  old-flush_round :
      (id j : Text) (e : Change) (groups : Groups) (old : Dict Text Change)
      → id ≢ j
      → get (flush_round deep_equal id e (groups, old)).1 j ≡ get old j
  unfolding flush_round group
  old-flush_round id j e groups old ne = ground (arith, get-put old id j e, text_eq_iff id j)

  groups-flush_round :
      (id : Text) (e : Change) (groups : Groups) (old : Dict Text Change)
      → IsMap groups
      → IsMap (flush_round deep_equal id e (groups, old)).0
  unfolding flush_round group
  groups-flush_round id e groups old h = elim (Bool-cases (equal deep_equal e (get old id))) [
    | inl same ↦ rw same h
    | inr differ ↦ rw differ (go (get groups e.type))
  ]
    where
      go : (o : Option CoalescedMemberEvent) → IsMap (group id e o (groups, old)).0
      go none = put-IsMap groups e.type _ h
      go (some g) = put-IsMap groups e.type _ h

  -- The old events of the ids that are still to come are those before the flush.
  abbrev Untouched : Dict Text Change → Dict Text Change → Dict Text Change → Type 0
  Untouched old' old [] = Unit
  Untouched old' old ((id, e) ∷ news) = (get old' id ≡ get old id) × Untouched old' old news

  Untouched-round :
      (id : Text) (e : Change) (groups : Groups) (old' old news : Dict Text Change)
      → get news id ≡ none
      → Untouched old' old news
      → Untouched (flush_round deep_equal id e (groups, old')).1 old news
  unfolding get
  Untouched-round id e groups old' old [] absent h = tt
  Untouched-round id e groups old' old ((j, f) ∷ news) absent h = (
    old-flush_round id j e groups old' (λ p. ground (arith, text_eq_iff j id, p)) ∙ h.0,
    Untouched-round id e groups old' old news (ground arith) h.1,
  )

  -- The groups after the loop are those before it, each with the changed nodes of its type.
  flush_rounds_lem :
      (news : Dict Text Change) (groups : Groups) (old' old : Dict Text Change)
      → IsMap news
      → IsMap groups
      → Untouched old' old news
      → IsMap (flush_rounds deep_equal news (groups, old')).0
        × ((t : EventType)
            → get (flush_rounds deep_equal news (groups, old')).0 t
              ≡ extend (get groups t) t (changed t old news))
  unfolding flush_rounds changed
  flush_rounds_lem [] groups old' old h k u = (k, λ t. refl)
  flush_rounds_lem ((id, e) ∷ news) groups old' old h k u =
      let s = flush_round deep_equal id e (groups, old') in
      let ih =
        flush_rounds_lem news s.0 s.1 old h.1 (groups-flush_round id e groups old' k)
          (Untouched-round id e groups old' old news h.0 u.1) in
      (
        ih.0,
        λ t. ground (
          arith,
          ih.1 t,
          get-flush_round id e groups old' t,
          u.0,
          extend-extend (get groups t) t e.node (changed t old news),
        ),
      )

  Untouched-refl : (old news : Dict Text Change) → Untouched old old news
  Untouched-refl old [] = tt
  Untouched-refl old ((id, e) ∷ news) = (refl, Untouched-refl old news)

  -- A flush sends one event for each type, at most one, and the event of a type holds exactly the nodes
  -- whose new event has this type and differs from the old one, in the order of the iteration; a type
  -- with no such node has no event. The new events are empty then.
  pub flush_lem :
      (c : Coalescer)
      → IsMap c.new_events
      → (groups : Groups) × ((flush deep_equal c).out ≡ c.out ++ emit groups)
        × IsMap groups
        × ((t : EventType) → get groups t ≡ extend none t (changed t c.old_events c.new_events))
        × ((flush deep_equal c).new_events ≡ [])
  unfolding flush get
  flush_lem c h =
      let r =
        flush_rounds_lem c.new_events [] c.old_events c.old_events h tt
          (Untouched-refl c.old_events c.new_events) in
      ((flush_rounds deep_equal c.new_events ([], c.old_events)).0, refl, r.0, r.1, refl)
