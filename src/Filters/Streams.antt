-- ===== src/Filters/Streams.antt =====
-- Which stream handlers get an event.
use cserf.Prelude.{
  ℕ, suc, ◌≡◌, refl, ap, ◌∙◌, Option, none, some, List, [], ◌∷◌, nat_eq, nat_eq_iff, nat_key, Dict,
  get, put, remove, get-put, IsMap, put-IsMap, remove-IsMap, if◌then◌else◌, arith, Bool-cases, inl,
  inr,
}
use cserf.Messages.{Event}
use cserf.Managers.{is_some}
use cserf.Filters.{
  StreamManager, StreamEventHandler, keys, register, deregister, tell, handle_event,
  handle_stream_event,
}

abbrev pub times : ℕ → List ℕ → ℕ
times h [] = 0
times h (x ∷ xs) = if nat_eq x h then suc (times h xs) else times h xs

-- The list holds the keys of the map, once each.
pub record IsListed (m : StreamManager) : Type 0 where
  pub map : IsMap m.handler_map
  pub listed : (h : ℕ) → times h m.handler_list ≡ (if is_some (get m.handler_map h) then 1 else 0)

times-keys :
    (m : Dict ℕ (Unit {0})) (h : ℕ)
    → IsMap m
    → times h (keys m) ≡ (if is_some (get m h) then 1 else 0)
unfolding keys get
times-keys [] h v = refl
times-keys ((j, u) ∷ m) h v = ground (arith, times-keys m h v.1, v.0, nat_eq_iff j h)

pub register-IsListed : (m : StreamManager) (h : ℕ) → IsListed m → IsListed (register m h)
unfolding register
register-IsListed m h v = record {
  map = put-IsMap m.handler_map h tt v.map;
  listed = λ g. times-keys (put m.handler_map h tt) g (put-IsMap m.handler_map h tt v.map);
}

pub deregister-IsListed : (m : StreamManager) (h : ℕ) → IsListed m → IsListed (deregister m h)
unfolding deregister
deregister-IsListed m h v = record {
  map = remove-IsMap m.handler_map h v.map;
  listed = λ g. times-keys (remove m.handler_map h) g (remove-IsMap m.handler_map h v.map);
}

abbrev pub told : Option StreamEventHandler → Event → Option StreamEventHandler
told none e = none
told (some s) e = some (handle_event s e)

abbrev Store : Type 0
Store = Dict ℕ StreamEventHandler

-- One round of the loop over the handlers.
abbrev tell_one : ℕ → Event → Option StreamEventHandler → Store → Store
tell_one x e none store = store
tell_one x e (some s) store = put store x (handle_event s e)

tell-cons :
    (x : ℕ) (hs : List ℕ) (e : Event) (store : Store) (o : Option StreamEventHandler)
    → get store x ≡ o
    → tell (x ∷ hs) e store ≡ tell hs e (tell_one x e o store)
unfolding tell
tell-cons x hs e store none p = ground (arith, p)
tell-cons x hs e store (some s) p = ground (arith, p)

get-tell_one :
    (x : ℕ) (e : Event) (store : Store) (o : Option StreamEventHandler) (h : ℕ)
    → get store x ≡ o
    → get (tell_one x e o store) h ≡ (if nat_eq x h then told o e else get store h)
get-tell_one x e store none h p = ground (arith, p)
get-tell_one x e store (some s) h p = ground (arith, get-put store x h (handle_event s e))

tell_others :
    (hs : List ℕ) (e : Event) (store : Store) (h : ℕ)
    → times h hs ≡ 0
    → get (tell hs e store) h ≡ get store h
unfolding tell
tell_others [] e store h none_there = refl
tell_others (x ∷ hs) e store h none_there =
    let next = tell_one x e (get store x) store in
    ap (λ st. get st h) (tell-cons x hs e store (get store x) refl)
    ∙ tell_others hs e next h (ground arith)
    ∙ get-tell_one x e store (get store x) h refl
    ∙ ground arith

tell_once :
    (hs : List ℕ) (e : Event) (store : Store) (h : ℕ)
    → times h hs ≡ 1
    → get (tell hs e store) h ≡ told (get store h) e
tell_once [] e store h once = absurd (omega arith)
tell_once (x ∷ hs) e store h once =
    let next = tell_one x e (get store x) store in
    ap (λ st. get st h) (tell-cons x hs e store (get store x) refl)
    ∙ elim (Bool-cases (nat_eq x h)) [
      | inl same ↦
          tell_others hs e next h (ground arith)
          ∙ get-tell_one x e store (get store x) h refl
          ∙ rw same (ap (λ k. told (get store k) e) ((nat_eq_iff x h).0 same))
      | inr other ↦
          tell_once hs e next h (ground arith)
          ∙ ap (λ o. told o e) (get-tell_one x e store (get store x) h refl ∙ rw other refl)
    ]

-- An event is handed to each registered handler exactly once, and every handler that is not registered is
-- left as it was. The list of handlers and the
-- map agree, as they do after every registration and deregistration.
pub handle_stream_event_lem :
    (m : StreamManager) (e : Event) (h : ℕ)
    → IsListed m
    → get (handle_stream_event m e).store h
      ≡ (if is_some (get m.handler_map h) then told (get m.store h) e else get m.store h)
unfolding handle_stream_event
handle_stream_event_lem m e h v = elim (Bool-cases (is_some (get m.handler_map h))) [
  | inl on ↦ rw on (tell_once m.handler_list e m.store h (ground (arith, v.listed h)))
  | inr off ↦ rw off (tell_others m.handler_list e m.store h (ground (arith, v.listed h)))
]

pub data Call : Type 0 where
  registers : ℕ → Call
  deregisters : ℕ → Call

abbrev call : StreamManager → Call → StreamManager
call m (registers h) = register m h
call m (deregisters h) = deregister m h

abbrev pub calls : StreamManager → List Call → StreamManager
calls m [] = m
calls m (c ∷ cs) = calls (call m c) cs

-- Whatever handlers are registered and deregistered, the list that events go to holds exactly the registered
-- ones, once each.
pub calls-IsListed : (cs : List Call) (m : StreamManager) → IsListed m → IsListed (calls m cs)
calls-IsListed [] m v = v
calls-IsListed (registers h ∷ cs) m v = calls-IsListed cs (register m h) (register-IsListed m h v)
calls-IsListed (deregisters h ∷ cs) m v =
    calls-IsListed cs (deregister m h) (deregister-IsListed m h v)
