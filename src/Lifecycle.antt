-- ===== src/Lifecycle.antt =====
-- How a node joins, leaves and ends: serf.go, and `retryJoin` of rpc/server/server.go. The memberlist, the
-- snapshotter's channels and the resolver are parameters; what is called of them is kept in a list.
pub mod Ending
pub mod Joining
pub mod Race
pub mod Tasks
mod Tests
use cserf.Prelude.{
  ℕ, zero, suc, Bool, true, false, ◌||◌, Option, none, some, List, [], ◌∷◌, ◌++◌, map, Text,
  text_eq, nat_eq, length, if◌then◌else◌,
}
use cserf.Sync.{UserState, set_join, unset_join, set_ignore_act_on_join, unset_ignore_act_join}

-- `SerfStateType`
pub data StateType : Type 0 where
  serf_alive serf_left serf_shutdown : StateType

-- The calls of other parts in `Leave` and `Shutdown`; `close_shutdown_ch` closes the channel `shutdownCh`.
pub data Call : Type 0 where
  snapshot_leave mlist_leave mlist_shutdown close_shutdown_ch snapshot_wait : Call

pub record Life : Type 0 where
  pub state : StateType
  pub closed : Bool
  pub calls : List Call

abbrev pub new_life : Life
new_life = record { state = StateType.serf_alive; closed = false; calls = [] }

pub data LeaveError : Type 0 where
  already_left leave_after_shutdown mlist_error : LeaveError

abbrev pub has_left : Life → Bool
has_left l = elim l.state [ StateType.serf_left ↦ true | _ ↦ false ]

abbrev pub has_shutdown : Life → Bool
has_shutdown l = elim l.state [ StateType.serf_shutdown ↦ true | _ ↦ false ]

-- `Leave`; `fails` is whether the memberlist's `Leave` returns an error.
unfoldable pub leave : Bool → Life → Option LeaveError × Life
leave fails l =
    if has_left l
    then (some LeaveError.already_left, l)
    else if has_shutdown l
    then (some LeaveError.leave_after_shutdown, l)
    else (
      if fails then some LeaveError.mlist_error else none,
      record l {
        state = StateType.serf_left;
        calls = l.calls ++ (Call.snapshot_leave ∷ Call.mlist_leave ∷ []);
      },
    )

-- `Shutdown`; to close a channel twice panics.
unfoldable pub shutdown : Life → Option Life
shutdown l =
    if has_shutdown l
    then some l
    else if l.closed
    then none
    else some (record {
      state = StateType.serf_shutdown;
      closed = true;
      calls = l.calls ++ (Call.mlist_shutdown ∷ Call.close_shutdown_ch ∷ Call.snapshot_wait ∷ []);
    })

-- `ResolveAddr` of the memberlist and `net.JoinHostPort`.
pub record Resolver : Type 0 where
  pub resolve_addr : Text → Option (List Text × ℕ)
  pub join_host_port : Text → ℕ → Text

-- `resolveAddrs`, with the number of errors.
unfoldable pub resolve_addrs : Resolver → List Text → List Text × ℕ
resolve_addrs r [] = ([], 0)
resolve_addrs r (a ∷ more) =
    let (res, errs) = resolve_addrs r more in
    elim (r.resolve_addr a) [
      | none ↦ (res, suc errs)
      | some (ips, port) ↦ (map (λ ip. r.join_host_port ip port) ips ++ res, errs)
    ]

-- The loops of `Join` before and after the memberlist's `Join`.
unfoldable pub set_each : UserState → List Text → Bool → UserState
set_each u [] ignore_old = u
set_each u (a ∷ more) ignore_old =
    set_each (set_ignore_act_on_join (set_join u a) a ignore_old) more ignore_old

unfoldable pub unset_each : UserState → List Text → UserState
unset_each u [] = u
unset_each u (a ∷ more) = unset_each (unset_ignore_act_join (unset_join u a) a) more

-- `Join`. `mlist_join` is the memberlist's, with the state exchanges that it starts.
unfoldable pub join :
    {A : Type 0}
    → Resolver
    → (UserState → List Text → A × UserState)
    → UserState
    → List Text
    → Bool
    → A × UserState
unfolding resolve_addrs set_each unset_each
join r mlist_join u existing ignore_old =
    let res = (resolve_addrs r existing).0 in
    let (a, u') = mlist_join (set_each u res ignore_old) res in (a, unset_each u' res)

-- `NodeIDAddr`
pub record NodeIdAddr : Type 0 where
  pub id : Text
  pub addr : Text

-- The loop of `rejoinSnapshot`: the addresses that it tries. `joins` is whether the memberlist can join one.
unfoldable pub rejoin_snapshot : (Text → Bool) → Text → Text → List NodeIdAddr → List Text
rejoin_snapshot joins my_id my_addr [] = []
rejoin_snapshot joins my_id my_addr (n ∷ prev) =
    let rest = rejoin_snapshot joins my_id my_addr prev in
    if text_eq n.id my_id || text_eq n.addr my_addr
    then rest
    else if joins n.addr
    then n.addr ∷ []
    else n.addr ∷ rest

-- The loop of `retryJoin`: `left` attempts from the `i`-th on. It returns the attempts made, and whether one
-- succeeded.
unfoldable pub attempts : (ℕ → Bool) → ℕ → ℕ → ℕ × Bool
attempts joins i zero = (0, false)
attempts joins i (suc left) =
    let (made, ok) = attempts joins (suc i) left in if joins i then (1, true) else (suc made, ok)

abbrev pub or_one : ℕ → ℕ
or_one max = if nat_eq max 0 then 1 else max

-- `retryJoin`: the node is shut down when no attempt succeeds. The results are the number of attempts and the
-- node's state.
unfoldable pub retry_join : (ℕ → Bool) → List Text → ℕ → Life → ℕ × Option Life
unfolding attempts shutdown
retry_join joins [] max l = (0, some l)
retry_join joins (a ∷ more) max l =
    let (made, ok) = attempts joins 0 (or_one max) in (made, if ok then some l else shutdown l)
