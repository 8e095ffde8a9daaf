-- ===== src/Lifecycle/Joining.antt =====
-- The attempts of `retryJoin`, the addresses of `rejoinSnapshot` and the marks of `Join`.
use cserf.Prelude.{
  ℕ, zero, suc, ◌+◌, ◌<◌, ◌≡◌, ◌≢◌, ◌⊎◌, refl, ◌∙◌, Bool, true, false, some, List, [], ◌∷◌, Text,
  text_eq, text_eq_iff, text_key, get-remove, if◌then◌else◌, arith, if_lem, ◌||◌, ◌++◌, Bool-cases,
  inl, inr, subst, All,
}
use cserf.Sync.{UserState, is_join, unset_join, unset_ignore_act_join}
use cserf.Lifecycle.{
  Life, StateType, Call, has_shutdown, shutdown, attempts, retry_join, or_one, Resolver,
  resolve_addrs, set_each, unset_each, join, NodeIdAddr, rejoin_snapshot,
}

-- The attempts stop at the first that succeeds, or are all made.
Outcome : (ℕ → Bool) → ℕ → ℕ → ℕ × Bool → Type 0
Outcome joins i left result =
    ((k : ℕ) × (k < left)
      × (joins (i + k) ≡ true)
      × ((j : ℕ) → j < k → joins (i + j) ≡ false)
      × (result ≡ (suc k, true)))
    ⊎ (((j : ℕ) → j < left → joins (i + j) ≡ false) × (result ≡ (left, false)))

attempts-Outcome : (joins : ℕ → Bool) (i left : ℕ) → Outcome joins i left (attempts joins i left)
unfolding attempts Outcome
attempts-Outcome joins i zero = inr (λ j h. absurd (omega arith), refl)
attempts-Outcome joins i (suc left) = elim (Bool-cases (joins i)) [
  | inl ok ↦ inl (
    zero,
    omega arith,
    subst (λ m. joins m ≡ true) (omega arith) ok,
    λ j h. absurd (omega arith),
    rw ok refl,
  )
  | inr failed ↦ elim (attempts-Outcome joins (suc i) left) [
    | inl (k, lt, ok, before, e) ↦ inl (
      suc k,
      omega arith,
      subst (λ m. joins m ≡ true) (omega arith) ok,
      earlier k failed before,
      rw (failed, e) refl,
    )
    | inr (all, e) ↦ inr (earlier left failed all, rw (failed, e) refl)
  ]
]
  where
    earlier :
        (n : ℕ)
        → joins i ≡ false
        → ((j : ℕ) → j < n → joins (suc i + j) ≡ false)
        → (j : ℕ) → j < suc n
        → joins (i + j) ≡ false
    earlier n failed h zero lt = subst (λ m. joins m ≡ false) (omega arith) failed
    earlier n failed h (suc j) lt = subst (λ m. joins m ≡ false) (omega arith) (h j (omega arith))

has_shutdown_lem :
    (t : StateType) (closed : Bool) (calls : List Call)
    → has_shutdown (record { state = t; closed = closed; calls = calls }) ≡ true
    → t ≡ StateType.serf_shutdown
has_shutdown_lem StateType.serf_alive closed calls h = ground (arith, h)
has_shutdown_lem StateType.serf_left closed calls h = ground (arith, h)
has_shutdown_lem StateType.serf_shutdown closed calls h = refl

shutdown-some :
    (l : Life)
    → l.closed ≡ false
    → (l' : Life) × (shutdown l ≡ some l') × (l'.state ≡ StateType.serf_shutdown)
unfolding shutdown
shutdown-some l h = elim (Bool-cases (has_shutdown l)) [
  | inl down ↦ (l, rw down refl, has_shutdown_lem l.state l.closed l.calls down)
  | inr up ↦ (
    record {
      state = StateType.serf_shutdown;
      closed = true;
      calls = l.calls ++ (Call.mlist_shutdown ∷ Call.close_shutdown_ch ∷ Call.snapshot_wait ∷ []);
    },
    rw (up, h) refl,
    refl,
  )
]

-- `retryJoin` ends after as many attempts as are configured, at most, and one if none is configured: it stops
-- at the first attempt that succeeds and leaves the node as it is, or else makes all of them and shuts the
-- node down. This is for at least one address, and a node whose channel is not closed yet.
pub retry_join_lem :
    (joins : ℕ → Bool) (addr : Text) (more : List Text) (max : ℕ) (l : Life)
    → l.closed ≡ false
    → ((k : ℕ) × (k < or_one max)
        × (joins k ≡ true)
        × ((j : ℕ) → j < k → joins j ≡ false)
        × (retry_join joins (addr ∷ more) max l ≡ (suc k, some l)))
      ⊎ (((j : ℕ) → j < or_one max → joins j ≡ false)
          × ((l' : Life) × (retry_join joins (addr ∷ more) max l ≡ (or_one max, some l'))
              × (l'.state ≡ StateType.serf_shutdown)))
unfolding retry_join Outcome
retry_join_lem joins addr more max l h = elim (attempts-Outcome joins 0 (or_one max)) [
  | inl (k, lt, ok, before, e) ↦ inl (
    k,
    lt,
    subst (λ m. joins m ≡ true) (omega arith) ok,
    λ j lt'. subst (λ m. joins m ≡ false) (omega arith) (before j lt'),
    rw e refl,
  )
  | inr (all, e) ↦
      let (l', down, state) = shutdown-some l h in
      inr (
        λ j lt. subst (λ m. joins m ≡ false) (omega arith) (all j lt),
        (l', rw (e, down) refl, state),
      )
]

abbrev pub is_listed : Text → List Text → Bool
is_listed a [] = false
is_listed a (b ∷ bs) = if text_eq b a then true else is_listed a bs

is_join-unset_each :
    (u : UserState) (res : List Text) (a : Text)
    → is_join (unset_each u res) a ≡ (if is_listed a res then false else is_join u a)
unfolding unset_each unset_join unset_ignore_act_join
is_join-unset_each u [] a = refl
is_join-unset_each u (b ∷ res) a =
    is_join-unset_each (unset_ignore_act_join (unset_join u b) b) res a
    ∙ ground (arith, get-remove u.joining b a)

-- After `Join`, whatever the memberlist did in between, no address that was joined is marked any more, and
-- the other marks are as the memberlist left them.
is_join-join :
    {A : Type 0} (r : Resolver) (mlist_join : UserState → List Text → A × UserState) (u : UserState)
    (existing : List Text) (ignore_old : Bool) (a : Text)
    → is_join ((join r mlist_join u existing ignore_old).1) a ≡ (
        if is_listed a ((resolve_addrs r existing).0)
        then false
        else is_join
            ((mlist_join
              (set_each u ((resolve_addrs r existing).0) ignore_old)
              ((resolve_addrs r existing).0)).1)
            a)
unfolding join
is_join-join r mlist_join u existing ignore_old a =
    is_join-unset_each
      ((mlist_join (set_each u ((resolve_addrs r existing).0) ignore_old)
        ((resolve_addrs r existing).0)).1)
      ((resolve_addrs r existing).0) a

-- No address tried is the node's own.
rejoin_snapshot_avoids :
    (joins : Text → Bool) (my_id my_addr : Text) (prev : List NodeIdAddr)
    → All (λ a. a ≢ my_addr) (rejoin_snapshot joins my_id my_addr prev)
unfolding rejoin_snapshot
rejoin_snapshot_avoids joins my_id my_addr [] = tt
rejoin_snapshot_avoids joins my_id my_addr (n ∷ prev) =
    let rest = rejoin_snapshot_avoids joins my_id my_addr prev in
    if_lem (All (λ a. a ≢ my_addr)) (text_eq n.id my_id || text_eq n.addr my_addr) (λ _. rest)
      (λ other.
        if_lem (All (λ a. a ≢ my_addr)) (joins n.addr) (λ _. (apart n other, tt))
          (λ _. (apart n other, rest)))
  where
    apart :
        (n : NodeIdAddr) → (text_eq n.id my_id || text_eq n.addr my_addr) ≡ false → n.addr ≢ my_addr
    apart n other same = ground (arith, other, same, text_eq_iff n.addr my_addr)
