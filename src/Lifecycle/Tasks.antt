-- ===== src/Lifecycle/Tasks.antt =====
-- The tasks that a node runs from time to time, `reap` and `reconnect` of inactive.go. The memberlist's
-- `Join` is a parameter, and so is the random throttle of `shouldConnect`, which is on floats.
use cserf.Prelude.{
  ℕ, ◌≡◌, refl, sym, ◌∙◌, Bool, Option, none, some, List, [], ◌∷◌, ◌++◌, append-nil, append_assoc,
  map, Text, text_key, get-remove, nat_eq, if◌then◌else◌, arith,
}
use cserf.Messages.{MemberNode, Event, on_member, EventType}
use cserf.Inactive
use cserf.Inactive.{InactiveNodes, pick_random_failed, remove_failed}
use cserf.Coordinate.{Floats}
use cserf.Ping.{PingDelegate, remove_cached_coord, get_cached_coord}
use cserf.Lifecycle.Joining.{is_listed}

module _ (fl : Floats) where
  -- The parts of a node that the tasks change; `events` is what has been sent to `inEventCh`.
  pub record Tasks : Type 0 where
    pub inactive : InactiveNodes
    pub ping : PingDelegate fl
    pub events : List Event

  abbrev pub reap_event : MemberNode → Event
  reap_event n = on_member (record { type = EventType.member_reap; member = some n })

  -- The loop of `reap` over the nodes that were removed.
  unfoldable pub tell_removed : Tasks → List MemberNode → Tasks
  unfolding remove_cached_coord
  tell_removed t [] = t
  tell_removed t (n ∷ ns) =
      tell_removed
        (record t {
          ping = remove_cached_coord fl t.ping n.id;
          events = t.events ++ (reap_event n ∷ []);
        })
        ns

  unfoldable pub run_reap : ℕ → Tasks → Tasks
  unfolding tell_removed
  run_reap now t =
      let (gone, i) = Inactive.reap t.inactive now in tell_removed (record t { inactive = i }) gone

  -- `reconnect` with the node that was picked; `joined` is the result of `Join`, none for an error.
  unfoldable pub reconnect_to :
      (MemberNode → Option ℕ) → InactiveNodes → Option MemberNode → InactiveNodes
  reconnect_to joined i none = i
  reconnect_to joined i (some n) = elim (joined n) [
    | none ↦ i
    | some k ↦ if nat_eq k 1 then remove_failed i n.id else i
  ]

  -- `reconnect`; without failed nodes none is picked. `throttle` is the result of `shouldConnect`, and `raw` a
  -- random number.
  unfoldable pub reconnect : Bool → ℕ → (MemberNode → Option ℕ) → InactiveNodes → InactiveNodes
  unfolding reconnect_to
  reconnect should_connect raw joined i =
      if should_connect then reconnect_to joined i (pick_random_failed i raw) else i

  abbrev pub ids : List MemberNode → List Text
  ids [] = []
  ids (n ∷ ns) = n.id ∷ ids ns

  tell_removed_lem :
      (t : Tasks) (gone : List MemberNode) (id : Text)
      → ((tell_removed t gone).events ≡ t.events ++ map reap_event gone)
        × ((tell_removed t gone).inactive ≡ t.inactive)
        × (get_cached_coord fl (tell_removed t gone).ping id
            ≡ (if is_listed id (ids gone) then none else get_cached_coord fl t.ping id))
  unfolding tell_removed remove_cached_coord get_cached_coord
  tell_removed_lem t [] id = (sym (append-nil t.events), refl, refl)
  tell_removed_lem t (n ∷ ns) id =
      let t' : Tasks = record t {
        ping = remove_cached_coord fl t.ping n.id;
        events = t.events ++ (reap_event n ∷ []);
      } in
      let (e, i, c) = tell_removed_lem t' ns id in
      (
        e ∙ append_assoc t.events (reap_event n ∷ []) (map reap_event ns),
        i,
        c ∙ ground (arith, get-remove t.ping.coord_cache n.id id),
      )

  -- A reap tells of each node that it removes, in order, with one event, and forgets the cached coordinates
  -- of these nodes and of no other.
  pub run_reap_lem :
      (now : ℕ) (t : Tasks) (id : Text)
      → ((run_reap now t).events ≡ t.events ++ map reap_event ((Inactive.reap t.inactive now).0))
        × ((run_reap now t).inactive ≡ (Inactive.reap t.inactive now).1)
        × (get_cached_coord fl (run_reap now t).ping id ≡ (
            if is_listed id (ids ((Inactive.reap t.inactive now).0))
            then none
            else get_cached_coord fl t.ping id))
  unfolding run_reap
  run_reap_lem now t id =
      tell_removed_lem (record t { inactive = (Inactive.reap t.inactive now).1 })
        ((Inactive.reap t.inactive now).0) id
