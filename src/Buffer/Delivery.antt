-- ===== src/Buffer/Delivery.antt =====
-- Runs of calls on one manager of actions or queries: the clock witnesses times, and items are
-- offered to the buffer, in any order that the goroutines' locks and atomic accesses give.
use cserf.Prelude.{
  ℕ, ◌+◌, ◌≤◌, ◌<◌, ◌≡◌, refl, ap, subst₂, ◌∙◌, Bool, true, false, Option, none, some, List, [],
  ◌∷◌, ◌++◌, arith, length, u64,
}
use cserf.Clock
use cserf.Clock.{le-witness}
use cserf.Buffer.{LItem, LBuffer, add_item, is_too_old, has_item, equal}
use cserf.Buffer.History
use cserf.Buffer.History.{has_item-append}
use cserf.Buffer.Agree.{Refines}
use cserf.Buffer.Refine.{add_item-Adds}

pub data Move : Type 0 where
  witness : ℕ → Move
  offer : LItem → Move

-- What the offers of a run return, in order; `none` if one panics.
unfoldable pub run : ℕ → LBuffer → List Move → Option (List Bool)
run clock b [] = some []
run clock b (witness t ∷ ms) = run (Clock.witness clock t) b ms
run clock b (offer item ∷ ms) = elim (add_item b clock item) [
  | none ↦ none
  | some (r, b') ↦ elim (run clock b' ms) [ none ↦ none | some rs ↦ some (r ∷ rs) ]
]

-- The same over the full history.
unfoldable pub run_history : ℕ → ℕ → List LItem → List Move → List Bool
run_history size clock seen [] = []
run_history size clock seen (witness t ∷ ms) = run_history size (Clock.witness clock t) seen ms
run_history size clock seen (offer item ∷ ms) =
    let (r, seen') = History.add_item size seen clock item in r ∷ run_history size clock seen' ms

-- Each offer comes when the clock is past its item, as `Witness` before `addToBuffer` makes it, and
-- no time is the last of the 64-bit ones.
abbrev pub IsOrderly : ℕ → List Move → Type 0
IsOrderly clock [] = Unit
IsOrderly clock (witness t ∷ ms) = (t + 1 < u64) × IsOrderly (Clock.witness clock t) ms
IsOrderly clock (offer item ∷ ms) = (item.ltime < clock) × IsOrderly clock ms

fresh_before :
    (size c c' : ℕ) (x : LItem)
    → c ≤ c'
    → is_too_old size c' x ≡ false
    → is_too_old size c x ≡ false
unfolding is_too_old
fresh_before size c c' x le h = ground arith

pub advance_refines :
    {c : ℕ} (c' : ℕ) {b : LBuffer} {seen : List LItem}
    → Refines c b seen
    → c ≤ c'
    → Refines c' b seen
advance_refines {c} c' {b} r le = record {
  nonempty = r.nonempty;
  fits = λ i g e. let f = r.fits i g e in record { home = f.home; past = omega arith; own = f.own };
  agree = λ x fresh. r.agree x (fresh_before (length b) c c' x le fresh);
}

-- From a buffer that agrees with a history on, no orderly run of `Witness` and `addItem` tells the ring from the full
-- history: no call panics, and every offer is accepted or refused as a node that forgets no item would do it, which
-- tells items apart by `Equal`. A run is orderly if the clock is past the time of each item that is offered, and no
-- witnessed time is the last 64-bit one.
pub run_refines :
    (ms : List Move) {clock : ℕ} {b : LBuffer} {seen : List LItem}
    → Refines clock b seen
    → IsOrderly clock ms
    → run clock b ms ≡ some (run_history (length b) clock seen ms)
unfolding run run_history
run_refines [] r h = refl
run_refines (witness t ∷ ms) {clock} r h =
    run_refines ms (advance_refines (Clock.witness clock t) r (le-witness clock t h.0)) h.1
run_refines (offer item ∷ ms) {clock} {b} {seen} r h =
    let a = add_item-Adds r item h.0 in
    ground (arith, a.returns, run_refines ms a.refines h.1, a.size)

has_item-later :
    (size : ℕ) (ms : List Move) (clock : ℕ) (seen : List LItem) (x : LItem)
    → has_item seen x ≡ true
    → run_history size clock seen (ms ++ (offer x ∷ []))
      ≡ run_history size clock seen ms ++ (false ∷ [])
unfolding run_history History.add_item
has_item-later size [] clock seen x h = ground arith
has_item-later size (witness t ∷ ms) clock seen x h =
    has_item-later size ms (Clock.witness clock t) seen x h
has_item-later size (offer item ∷ ms) clock seen x h = ground (
  arith,
  has_item-append seen item x,
  has_item-later size ms clock seen x,
  has_item-later size ms clock (seen ++ (item ∷ [])) x,
)

IsOrderly-append : (ms ns : List Move) (clock : ℕ) → IsOrderly clock (ms ++ ns) → IsOrderly clock ms
IsOrderly-append [] ns clock h = tt
IsOrderly-append (witness t ∷ ms) ns clock h =
    (h.0, IsOrderly-append ms ns (Clock.witness clock t) h.1)
IsOrderly-append (offer item ∷ ms) ns clock h = (h.0, IsOrderly-append ms ns clock h.1)

pub accepted_seen :
    (size clock : ℕ) (seen : List LItem) (item : LItem)
    → (History.add_item size seen clock item).0 ≡ true
    → (History.add_item size seen clock item).1 ≡ seen ++ (item ∷ [])
unfolding History.add_item
accepted_seen size clock seen item h = ground arith

-- What an accepting call leaves agrees with the history that holds the item too.
pub accepted_refines :
    (item : LItem) {clock : ℕ} {b b' : LBuffer} {seen : List LItem}
    → Refines clock b seen
    → item.ltime < clock
    → add_item b clock item ≡ some (true, b')
    → Refines clock b' (seen ++ (item ∷ [])) × (length b' ≡ length b)
accepted_refines item {clock} {b} {b'} {seen} r lt ok =
    let a = add_item-Adds r item lt in
    let same : a.after ≡ b' = cc (a.returns, ok) in
    let yes_it : (History.add_item (length b) seen clock item).0 ≡ true = cc (a.returns, ok) in
    (
      subst₂ (Refines clock) same (accepted_seen (length b) clock seen item yes_it) a.refines,
      rw (← same) a.size,
    )

-- From a buffer that agrees with a history on: once `addItem` has accepted an item that the clock has
-- passed, no equal item is accepted again. Whatever orderly calls come between, they run without a
-- panic and the later offer returns false.
pub accept_once :
    (item x : LItem) (ms : List Move) {clock : ℕ} {b b' : LBuffer} {seen : List LItem}
    → Refines clock b seen
    → item.ltime < clock
    → add_item b clock item ≡ some (true, b')
    → equal item x ≡ true
    → IsOrderly clock (ms ++ (offer x ∷ []))
    → (rs : List Bool) × (run clock b' ms ≡ some rs)
      × (run clock b' (ms ++ (offer x ∷ [])) ≡ some (rs ++ (false ∷ [])))
accept_once item x ms {clock} {b} {b'} {seen} r lt ok same h =
    let (r', size) = accepted_refines item r lt ok in
    let seen' : List LItem = seen ++ (item ∷ []) in
    (
      run_history (length b') clock seen' ms,
      run_refines ms r' (IsOrderly-append ms (offer x ∷ []) clock h),
      run_refines (ms ++ (offer x ∷ [])) r' h
          ∙ ap some (
              has_item-later (length b') ms clock seen' x
                (ground (arith, has_item-append seen item x))),
    )
