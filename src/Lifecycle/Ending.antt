-- ===== src/Lifecycle/Ending.antt =====
-- Sequences of `Leave` and `Shutdown`, and the attempts of `retryJoin`.
use cserf.Prelude.{
  ◌≡◌, refl, sym, Bool, true, false, Option, none, some, List, [], ◌∷◌, ◌++◌, append-nil,
  if◌then◌else◌,
}
use cserf.Lifecycle.{Life, StateType, Call, new_life, leave, shutdown}

-- A call by the user; the Boolean is whether the memberlist's `Leave` fails.
pub data Request : Type 0 where
  do_leave : Bool → Request
  do_shutdown : Request

unfoldable pub serve : Life → Request → Option Life
serve l (Request.do_leave fails) = some (leave fails l).1
serve l Request.do_shutdown = shutdown l

unfoldable pub serve_all : Life → List Request → Option Life
serve_all l [] = some l
serve_all l (r ∷ rs) = elim (serve l r) [ none ↦ none | some l' ↦ serve_all l' rs ]

-- Whether a `Shutdown` is among the calls.
abbrev pub ends : List Request → Bool
ends [] = false
ends (Request.do_leave fails ∷ rs) = ends rs
ends (Request.do_shutdown ∷ rs) = true

abbrev pub leave_calls : List Request → List Call
leave_calls (Request.do_leave fails ∷ rs) = Call.snapshot_leave ∷ Call.mlist_leave ∷ []
leave_calls _ = []

abbrev last_calls : List Call
last_calls = Call.mlist_shutdown ∷ Call.close_shutdown_ch ∷ Call.snapshot_wait ∷ []

abbrev pub shutdown_calls : List Request → List Call
shutdown_calls rs = if ends rs then last_calls else []

abbrev finished : List Call → Life
finished calls = record { state = StateType.serf_shutdown; closed = true; calls = calls }

abbrev gone : List Call → Life
gone calls = record { state = StateType.serf_left; closed = false; calls = calls }

finished-stays :
    (calls : List Call) (rs : List Request) → serve_all (finished calls) rs ≡ some (finished calls)
unfolding serve_all serve leave shutdown
finished-stays calls [] = refl
finished-stays calls (Request.do_leave fails ∷ rs) = finished-stays calls rs
finished-stays calls (Request.do_shutdown ∷ rs) = finished-stays calls rs

abbrev pub or_down : List Request → StateType → StateType
or_down rs t = if ends rs then StateType.serf_shutdown else t

abbrev pub final_state : List Request → StateType
final_state [] = StateType.serf_alive
final_state (Request.do_leave fails ∷ rs) = or_down rs StateType.serf_left
final_state (Request.do_shutdown ∷ rs) = StateType.serf_shutdown

pub record Ended (l : Life) (rs : List Request) (calls : List Call) (state : StateType)
    : Type 0 where
  pub after : Life
  pub returns : serve_all l rs ≡ some after
  pub called : after.calls ≡ calls
  pub reached : after.state ≡ state

gone-Ended :
    (calls : List Call) (rs : List Request)
    → Ended (gone calls) rs (calls ++ shutdown_calls rs) (or_down rs StateType.serf_left)
unfolding serve_all serve leave shutdown
gone-Ended calls [] = record {
  after = gone calls;
  returns = refl;
  called = sym (append-nil calls);
  reached = refl;
}
gone-Ended calls (Request.do_leave fails ∷ rs) =
    let r = gone-Ended calls rs in
    record { after = r.after; returns = r.returns; called = r.called; reached = r.reached }
gone-Ended calls (Request.do_shutdown ∷ rs) = record {
  after = finished (calls ++ last_calls);
  returns = finished-stays (calls ++ last_calls) rs;
  called = refl;
  reached = refl;
}

-- Calls of `Leave` and `Shutdown`, one after the other in any number and order, never panic: the channel is
-- closed once at most. The snapshotter and the memberlist leave exactly when `Leave` comes first, and then
-- before the rest; the memberlist is shut down once, exactly when there is a `Shutdown`, and the node ends in
-- the state `SerfShutdown` exactly then, or else in `SerfLeft` when there is a `Leave`.
pub serve_all_lem :
    (rs : List Request) → Ended new_life rs (leave_calls rs ++ shutdown_calls rs) (final_state rs)
unfolding serve_all serve leave shutdown
serve_all_lem [] = record { after = new_life; returns = refl; called = refl; reached = refl }
serve_all_lem (Request.do_leave fails ∷ rs) =
    let r = gone-Ended (Call.snapshot_leave ∷ Call.mlist_leave ∷ []) rs in
    record { after = r.after; returns = r.returns; called = r.called; reached = r.reached }
serve_all_lem (Request.do_shutdown ∷ rs) = record {
  after = finished last_calls;
  returns = finished-stays last_calls rs;
  called = refl;
  reached = refl;
}
