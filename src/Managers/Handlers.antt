-- ===== src/Managers/Handlers.antt =====
-- The response handlers and their timers.
use cserf.Prelude.{
  ℕ, suc, ◌+◌, ◌-◌, ◌<◌, ◌≡◌, ◌≢◌, Option-cases, inl, inr, length, refl, false, Option, none, some,
  List, [], ◌∷◌, get, nat_key, text_key, remove, get-put, get-remove, nat_eq, if◌then◌else◌, arith,
}
use cserf.Managers.{
  ResponseHandler, QueryManager, new_query_manager, set_response_handler, fire, drop_timer, mem_ℕ,
  is_some,
}

abbrev pub count : ℕ → List ℕ → ℕ
count t [] = 0
count t (x ∷ xs) = if nat_eq x t then suc (count t xs) else count t xs

-- A time has one pending timer if it has a handler, and none if not; the handlers' channels are open
-- and different.
pub record IsTimed (m : QueryManager) : Type 0 where
  pub handled : (t : ℕ) → count t m.timers ≡ (if is_some (get m.handlers t) then 1 else 0)
  pub open_chan :
      (t : ℕ) (h : ResponseHandler) → get m.handlers t ≡ some h → mem_ℕ h.chan m.closed ≡ false
  pub own_chan :
      (t u : ℕ) (h k : ResponseHandler)
      → get m.handlers t ≡ some h
      → get m.handlers u ≡ some k
      → h.chan ≡ k.chan
      → t ≡ u

count-drop_timer :
    (t u : ℕ) (ts : List ℕ)
    → count u (drop_timer t ts) ≡ (if nat_eq t u then count u ts - 1 else count u ts)
unfolding drop_timer
count-drop_timer t u [] = ground arith
count-drop_timer t u (x ∷ ts) = ground (arith, count-drop_timer t u ts)

pub new_query_manager-IsTimed : (size : ℕ) → IsTimed (new_query_manager size)
unfolding new_query_manager get
new_query_manager-IsTimed size = record {
  handled = λ t. refl;
  open_chan = λ t h e. ground arith;
  own_chan = λ t u h k e e' same. ground arith;
}

module _ {m : QueryManager} (v : IsTimed m) (t : ℕ) where
  fired : ResponseHandler → QueryManager
  fired h = record m {
    closed = h.chan ∷ m.closed;
    handlers = remove m.handlers t;
    timers = drop_timer t m.timers;
  }

  get-fired :
      (u : ℕ) (k : ResponseHandler)
      → get (remove m.handlers t) u ≡ some k
      → (t ≢ u) × (get m.handlers u ≡ some k)
  get-fired u k e =
      (λ p. ground (arith, get-remove m.handlers t u, p), ground (arith, get-remove m.handlers t u))

  fired-IsTimed : (h : ResponseHandler) → get m.handlers t ≡ some h → IsTimed (fired h)
  unfolding fired
  fired-IsTimed h e = record {
    handled =
        λ u. ground (arith, count-drop_timer t u m.timers, get-remove m.handlers t u, v.handled u);
    open_chan = λ u k eu.
        let (ne, old) = get-fired u k eu in
        ground (arith, v.open_chan u k old, v.own_chan t u h k e old);
    own_chan =
        λ u w k l eu ew same. v.own_chan u w k l (get-fired u k eu).1 (get-fired w l ew).1 same;
  }

-- Where each handled time has one pending timer and the handlers have open channels of their own, a
-- timer that is pending fires without a panic: it closes one channel, forgets the handler of its time,
-- and leaves the other timers and handlers in this order.
pub fire_lem :
    (m : QueryManager) (t : ℕ)
    → IsTimed m
    → 0 < count t m.timers
    → (m' : QueryManager) × (fire m t ≡ some m')
      × IsTimed m'
      × (get m'.handlers t ≡ none)
      × (length m'.closed ≡ length m.closed + 1)
unfolding fire fired
fire_lem m t v pending = elim (Option-cases (get m.handlers t)) [
  | inl e ↦ absurd (ground (arith, v.handled t))
  | inr (h, e) ↦ (
    fired v t h,
    ground (arith, e, v.open_chan t h e),
    fired-IsTimed v t h e,
    ground (arith, get-remove m.handlers t t),
    omega arith,
  )
]

-- Registering a handler keeps this order of timers and handlers (each handled time has one pending
-- timer, and the handlers have open channels of their own), given a time with no handler and an open
-- channel that no other handler has.
pub set_response_handler-IsTimed :
    (m : QueryManager) (t id ch : ℕ)
    → IsTimed m
    → get m.handlers t ≡ none
    → mem_ℕ ch m.closed ≡ false
    → ((u : ℕ) (h : ResponseHandler) → get m.handlers u ≡ some h → h.chan ≢ ch)
    → IsTimed (set_response_handler m t id ch)
unfolding set_response_handler
set_response_handler-IsTimed m t id ch v none_yet is_open own = record {
  handled = λ u. ground (arith, get-put m.handlers t u new, v.handled u);
  open_chan = λ u h e. ground (arith, get-put m.handlers t u new, v.open_chan u h);
  own_chan = λ u w h k eu ew same. ground (
    arith,
    get-put m.handlers t u new,
    get-put m.handlers t w new,
    v.own_chan u w h k,
    own u h,
    own w k,
  );
}
  where
    new : ResponseHandler
    new = record { id = id; chan = ch; received = [] }

abbrev pub fire_twice : QueryManager → ℕ → Option QueryManager
fire_twice m t = elim (fire m t) [ none ↦ none | some m' ↦ fire m' t ]

-- The second timer of a time finds no handler.
pub fire_again :
    (m : QueryManager) (t : ℕ) (o : Option ResponseHandler)
    → get m.handlers t ≡ o
    → fire_twice m t ≡ none
unfolding fire
fire_again m t none e = ground (arith, e)
fire_again m t (some h) e = ground (arith, e, get-remove m.handlers t t)
