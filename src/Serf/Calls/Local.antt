-- ===== src/Serf/Calls/Local.antt =====
-- What a node's own actions do to it.
use cserf.Prelude.{
  ℕ, ◌+◌, ◌≤◌, ◌<◌, ◌≡◌, ◌∙◌, refl, true, false, Option, none, some, List, [], ◌∷◌, ◌++◌, Text,
  length, drop, arith, u64,
}
use cserf.Clock
use cserf.Clock.{lt-witness}
use cserf.Buffer.{LItem, LBuffer, LGroupItem, slice_bytes, has_item, is_too_old, group_at}
use cserf.Buffer.History
use cserf.Buffer.Agree.{Refines, known_in, Fits-here}
use cserf.Managers.{action_item}
use cserf.Serf.{Serf, Env}
use cserf.Serf.Net.{handle_action, take_action, to_action_event}
use cserf.Serf.Net.Action.{decide, decide_lem, take_action_lem}
use cserf.Serf.Calls.{call_action, new_action}

-- The codec gives back the action that it encoded, and both sizes are within the limit.
pub record IsSendable (env : Env) (s : Serf) (name : Text) (payload : Option Text) : Type 0 where
  pub encoded : Text
  pub encodes : env.encode_action (new_action s name payload) ≡ some encoded
  pub decodes : env.decode_action (drop 1 encoded) ≡ (true, new_action s name payload)
  pub payload_fits : length (slice_bytes payload) ≤ s.action_size_limit
  pub encoded_fits : length encoded ≤ s.action_size_limit

-- No history holds an item of the present time.
now_unseen :
    {clock : ℕ} {b : LBuffer} {seen : List LItem} (item : LItem)
    → Refines clock b seen
    → item.ltime ≡ clock
    → (has_item seen item ≡ false) × (is_too_old (length b) (clock + 1) item ≡ false)
unfolding is_too_old known_in
now_unseen {clock} {b} {seen} item r now =
    (go (group_at b item.ltime) refl, ground (arith, r.nonempty))
  where
    go : (o : Option LGroupItem) → group_at b item.ltime ≡ o → has_item seen item ≡ false
    go none e = ground (arith, r.agree item)
    go (some g) e = ground (arith, r.agree item, (Fits-here r item g e).past)

witness_now : (clock : ℕ) → clock + 1 < u64 → Clock.witness clock clock ≡ clock + 1
unfolding Clock.witness
witness_now clock h = ground arith

module _ (env : Env) (s : Serf) (seen : List LItem) (name : Text) (payload : Option Text)
    (r : Refines s.action.clock s.action.buffers seen) (small : s.action.clock + 1 < u64)
    (ok : IsSendable env s name payload) where
  call_action-take :
      {s' : Serf}
      → take_action s (new_action s name payload) ≡ some s'
      → call_action env s name payload ≡ some (none, s')
  unfolding call_action handle_action
  call_action-take e = ground (arith, ok.encodes, ok.decodes, ok.payload_fits, ok.encoded_fits, e)

  -- A local action that is not below the minimum time is delivered: the call returns no error, the event
  -- and the broadcast are each added once, and the clock moves on by one. The payload and the encoded
  -- message are within the limit, the codec gives back what it encoded, the buffer agrees with a
  -- history, and the clock is not at its last 64-bit time.
  pub call_action_lem :
      s.action.action_min_time ≤ s.action.clock
      → (s' : Serf) × (call_action env s name payload ≡ some (none, s'))
        × (s'.events ≡ s.events ++ (to_action_event (new_action s name payload) ∷ []))
        × (s'.action_broadcasts ≡ s.action_broadcasts ++ (new_action s name payload ∷ []))
        × (s'.action.clock ≡ s.action.clock + 1)
  unfolding History.add_item
  call_action_lem young =
      let a = new_action s name payload in
      let same =
        decide_lem (length s.action.buffers) s.action.action_min_time s.action.clock seen a in
      let t = take_action_lem s seen a r small in
      let fresh = now_unseen (action_item a) r refl in
      (
        t.after,
        call_action-take t.returns,
        ground (arith, t.events, same, fresh, witness_now s.action.clock small),
        ground (arith, t.broadcasts, same, fresh, witness_now s.action.clock small),
        t.clock ∙ witness_now s.action.clock small,
      )

  -- A local action below the minimum time is lost: the call returns no error all the same, and neither
  -- the event channel nor the broadcast queue gets anything. The payload and the encoded message are
  -- within the limit, the codec gives back what it encoded, the buffer agrees with a history, and the
  -- clock is not at its last 64-bit time.
  pub call_action_lost :
      s.action.clock < s.action.action_min_time
      → (s' : Serf) × (call_action env s name payload ≡ some (none, s'))
        × (s'.events ≡ s.events)
        × (s'.action_broadcasts ≡ s.action_broadcasts)
        × (s'.action.clock ≡ s.action.clock + 1)
  unfolding decide
  call_action_lost old =
      let a = new_action s name payload in
      let t = take_action_lem s seen a r small in
      (
        t.after,
        call_action-take t.returns,
        ground (arith, t.events),
        ground (arith, t.broadcasts),
        t.clock ∙ witness_now s.action.clock small,
      )
