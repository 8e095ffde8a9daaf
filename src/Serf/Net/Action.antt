-- ===== src/Serf/Net/Action.antt =====
-- `handleAction` of net_handlers.go against the full history of actions.
use cserf.Prelude.{
  ℕ, ◌+◌, ◌<◌, ◌≡◌, refl, sym, subst, Bool, true, false, none, some, List, nat_eq, text_eq, ◌&&◌,
  ◌||◌, [], ◌∷◌, ◌++◌, ltb, length, arith, if◌then◌else◌, u64, Bool-cases, inl, inr,
}
use cserf.Clock
use cserf.Clock.{lt-witness, le-witness}
use cserf.Buffer.{LItem, slice_bytes, is_too_old, has_item, equal}
use cserf.Buffer.History
use cserf.Buffer.Agree.{Refines}
use cserf.Buffer.Refine.{Adds, add_item-Adds}
use cserf.Buffer.Delivery.{advance_refines}
use cserf.Messages.{MsgAction}
use cserf.Managers.{ActionManager, add_action, action_item}
use cserf.Serf.{Serf}
use cserf.Serf.Net.{take_action, witness_action, to_action_event}

-- An item of the history that stands for the action: it has the time of the action, and its payload, or no
-- payload and the id of all actions. Names are not compared.
unfoldable pub stands_for : LItem → MsgAction → Bool
stands_for i a =
    nat_eq i.ltime a.ltime
    && (elim i.payload [ none ↦ nat_eq i.id 0 | some p ↦ text_eq p (slice_bytes a.payload) ])

unfoldable pub is_known : List LItem → MsgAction → Bool
unfolding stands_for
is_known [] a = false
is_known (i ∷ is) a = stands_for i a || is_known is a

-- The specification: what a node that forgets no item decides on an action, and what it remembers.
unfoldable pub decide : (size min clock : ℕ) → List LItem → MsgAction → Bool × List LItem
unfolding is_known
decide size min clock seen a =
    if ltb a.ltime min
      || (is_too_old size (Clock.witness clock a.ltime) (action_item a) || is_known seen a)
    then (false, seen)
    else (true, seen ++ (action_item a ∷ []))

is_known_lem : (seen : List LItem) (a : MsgAction) → has_item seen (action_item a) ≡ is_known seen a
unfolding has_item equal is_known stands_for
is_known_lem [] a = refl
is_known_lem (i ∷ is) a = ground (arith, is_known_lem is a)

-- The same by the history of the ring.
abbrev by_history : (size min clock : ℕ) → List LItem → MsgAction → Bool × List LItem
by_history size min clock seen a =
    if ltb a.ltime min
    then (false, seen)
    else History.add_item size seen (Clock.witness clock a.ltime) (action_item a)

pub decide_lem :
    (size min clock : ℕ) (seen : List LItem) (a : MsgAction)
    → decide size min clock seen a ≡ by_history size min clock seen a
unfolding decide History.add_item
decide_lem size min clock seen a = ground (arith, is_known_lem seen a)

abbrev pub verdict : Serf → List LItem → MsgAction → Bool × List LItem
verdict s seen a = decide (length s.action.buffers) s.action.action_min_time s.action.clock seen a

-- What taking an action does to the node, at a verdict and the history behind it.
pub record TakesAs (s : Serf) (a : MsgAction) (v : Bool × List LItem) : Type 0 where
  pub after : Serf
  pub returns : take_action s a ≡ some after
  pub clock : after.action.clock ≡ Clock.witness s.action.clock a.ltime
  pub min_time : after.action.action_min_time ≡ s.action.action_min_time
  pub size : length after.action.buffers ≡ length s.action.buffers
  pub refines : Refines after.action.clock after.action.buffers (v.1)
  pub events : after.events ≡ (if v.0 then s.events ++ (to_action_event a ∷ []) else s.events)
  pub broadcasts :
      after.action_broadcasts
      ≡ (if v.0 then s.action_broadcasts ++ (a ∷ []) else s.action_broadcasts)
  pub query : after.query ≡ s.query

abbrev pub Takes : Serf → List LItem → MsgAction → Type 0
Takes s seen a = TakesAs s a (verdict s seen a)

module _ (s : Serf) (seen : List LItem) (a : MsgAction)
    (r : Refines s.action.clock s.action.buffers seen) (small : a.ltime + 1 < u64) where
  abbrev found : Bool × List LItem
  found = by_history (length s.action.buffers) s.action.action_min_time s.action.clock seen a

  witnessed : Refines (Clock.witness s.action.clock a.ltime) s.action.buffers seen
  witnessed =
      advance_refines (Clock.witness s.action.clock a.ltime) r
        (le-witness s.action.clock a.ltime small)

  take_old : ltb a.ltime s.action.action_min_time ≡ true → TakesAs s a found
  unfolding take_action
  take_old old = record {
    after = witness_action s a.ltime;
    returns = rw old;
    clock = refl;
    min_time = refl;
    size = refl;
    refines = rw old witnessed;
    events = rw old;
    broadcasts = rw old;
    query = refl;
  }

  module _ (c : Adds (Clock.witness s.action.clock a.ltime) s.action.buffers seen (action_item a))
      (young : ltb a.ltime s.action.action_min_time ≡ false) where
    stored : ActionManager
    stored = record (witness_action s a.ltime).action { buffers = c.after }

    take_refused : found.0 ≡ false → TakesAs s a found
    unfolding take_action add_action stored
    take_refused no_it = record {
      after = record s { action = stored };
      returns = ground (arith, young, c.returns, no_it);
      clock = refl;
      min_time = refl;
      size = c.size;
      refines = rw young c.refines;
      events = ground (arith, no_it);
      broadcasts = ground (arith, no_it);
      query = refl;
    }

    take_accepted : found.0 ≡ true → TakesAs s a found
    unfolding take_action add_action stored
    take_accepted yes_it = record {
      after = record s {
        action = stored;
        action_broadcasts = s.action_broadcasts ++ (a ∷ []);
        events = s.events ++ (to_action_event a ∷ []);
      };
      returns = ground (arith, young, c.returns, yes_it);
      clock = refl;
      min_time = refl;
      size = c.size;
      refines = rw young c.refines;
      events = ground (arith, yes_it);
      broadcasts = ground (arith, yes_it);
      query = refl;
    }

  take_found : TakesAs s a found
  take_found = elim (Bool-cases (ltb a.ltime s.action.action_min_time)) [
    | inl old ↦ take_old old
    | inr young ↦ elim (Bool-cases found.0) [
      | inl yes_it ↦ take_accepted adds young yes_it
      | inr no_it ↦ take_refused adds young no_it
    ]
  ]
    where
      adds : Adds (Clock.witness s.action.clock a.ltime) s.action.buffers seen (action_item a)
      adds = add_item-Adds witnessed (action_item a) (lt-witness s.action.clock a.ltime small)

  -- At a decoded action whose time is not the last 64-bit one, on a node whose buffer agrees with a history of
  -- items, `handleAction` returns. It delivers the action to the event channel and to the broadcast queue, once
  -- each, exactly if the action is not below the minimum time, not too old for the buffer, and no item of the
  -- history has its time together with its payload, or with no payload and the id 0: the names of actions are not
  -- compared, so that another action of that time and payload counts as the same. The buffer agrees with the
  -- history afterwards, to which an action that is delivered is added.
  pub take_action_lem : Takes s seen a
  take_action_lem =
      subst (TakesAs s a)
        (sym (decide_lem (length s.action.buffers) s.action.action_min_time s.action.clock seen a))
        take_found
