-- ===== src/Snapshot/Tee.antt =====
-- The goroutines around the snapshotter's channels in snapshot.go: `teeEvents` takes each event of `inEventCh`
-- and forwards it to the snapshotter and to the coalescer, which take it when they come to it. A step is one
-- operation on a channel, and the steps of the goroutines interleave in every order.
pub mod Flow
mod Tests
use cserf.Prelude.{ℕ, ◌<◌, ◌≡◌, Bool, true, false, List, [], ◌∷◌, ◌++◌, ltb, length, if◌then◌else◌}
use cserf.Messages.{Event}

-- `eventChSize`, and the capacity of `inEventCh` in `Build`.
abbrev pub event_ch_size : ℕ
event_ch_size = 2048

abbrev pub in_event_ch_size : ℕ
in_event_ch_size = 1024

-- `forwardEvent`: what the channel holds then. An event for a full channel is dropped.
unfoldable pub forward : List Event → Event → List Event
forward ch e = if ltb (length ch) event_ch_size then ch ++ (e ∷ []) else ch

-- Where `teeEvents` stands: in its loop, between its two calls of `forwardEvent`, in the deferred loop that
-- drains `inCh`, or at its end.
pub data Place : Type 0 where
  looping : Place
  holding : Event → Place
  draining : Place
  ended : Place

-- `in_ch`, `tee_ch` and `out_ch` are what waits in the channels. `sent` is all that was ever sent to `inCh`,
-- `recorded` what the snapshotter has taken, and `passed` what the coalescer has taken.
pub record Pipe : Type 0 where
  pub in_ch : List Event
  pub tee_ch : List Event
  pub out_ch : List Event
  pub place : Place
  pub closed : Bool
  pub sent : List Event
  pub recorded : List Event
  pub passed : List Event

abbrev pub new_pipe : Pipe
new_pipe = record {
  in_ch = [];
  tee_ch = [];
  out_ch = [];
  place = looping;
  closed = false;
  sent = [];
  recorded = [];
  passed = [];
}

pub data Step (p q : Pipe) : Type 0 where
  send :
      (e : Event)
      → length p.in_ch < in_event_ch_size
      → q ≡ record p { in_ch = p.in_ch ++ (e ∷ []); sent = p.sent ++ (e ∷ []) }
      → Step p q
  take :
      (e : Event) (more : List Event)
      → p.place ≡ looping
      → p.in_ch ≡ e ∷ more
      → q ≡ record p { in_ch = more; tee_ch = forward p.tee_ch e; place = holding e }
      → Step p q
  give :
      (e : Event)
      → p.place ≡ holding e
      → q ≡ record p { out_ch = forward p.out_ch e; place = looping }
      → Step p q
  stop : p.place ≡ looping → p.closed ≡ true → q ≡ record p { place = draining } → Step p q
  drain :
      (e : Event) (more : List Event)
      → p.place ≡ draining
      → p.in_ch ≡ e ∷ more
      → q ≡ record p { in_ch = more; tee_ch = forward p.tee_ch e }
      → Step p q
  finish : p.place ≡ draining → p.in_ch ≡ [] → q ≡ record p { place = ended } → Step p q
  record_one :
      (e : Event) (more : List Event)
      → p.tee_ch ≡ e ∷ more
      → q ≡ record p { tee_ch = more; recorded = p.recorded ++ (e ∷ []) }
      → Step p q
  pass_one :
      (e : Event) (more : List Event)
      → p.out_ch ≡ e ∷ more
      → q ≡ record p { out_ch = more; passed = p.passed ++ (e ∷ []) }
      → Step p q
  shut : q ≡ record p { closed = true } → Step p q

-- Any number of steps, the last one outermost.
pub data Run (p : Pipe) : Pipe → Type 0 where
  here : Run p p
  then_step : {q r : Pipe} → Run p q → Step q r → Run p r
