-- ===== src/Broadcasts/Limit.antt =====
-- The size of what is put on one packet.
use cserf.Prelude.{
  ℕ, ◌+◌, ◌-◌, ◌≤◌, ◌≡◌, List, [], ◌∷◌, ◌++◌, Text, leb, arith, Bool-cases, inl, inr,
}
use cserf.Broadcasts.{BroadcastManager, bytes_used, get_broadcasts}

bytes_used-append :
    (overhead : ℕ) (ms ns : List Text)
    → bytes_used overhead (ms ++ ns) ≡ bytes_used overhead ms + bytes_used overhead ns
unfolding bytes_used
bytes_used-append overhead [] ns = omega arith
bytes_used-append overhead (m ∷ ms) ns = omega (arith, bytes_used-append overhead ms ns)

-- A queue never returns more than the limit it is given, each message counted with its overhead.
abbrev pub RespectsLimit : (ℕ → ℕ → List Text) → Type 0
RespectsLimit get = (overhead limit : ℕ) → bytes_used overhead (get overhead limit) ≤ limit

-- From queues that keep to the limit they are given, the queries and the actions of one packet together
-- keep to the limit of the packet.
pub get_broadcasts_lem :
    (m : BroadcastManager) (overhead limit : ℕ)
    → RespectsLimit m.get_queries
    → RespectsLimit m.get_actions
    → bytes_used overhead (get_broadcasts m overhead limit) ≤ limit
unfolding get_broadcasts bytes_used
get_broadcasts_lem m overhead limit q a = elim (Bool-cases (leb limit overhead)) [
  | inl full ↦ rw full (omega arith)
  | inr room ↦ rw room (
      omega (
        arith,
        bytes_used-append overhead (m.get_queries overhead limit)
            (m.get_actions overhead (limit - bytes_used overhead (m.get_queries overhead limit))),
        q overhead limit,
        a overhead (limit - bytes_used overhead (m.get_queries overhead limit)),
      ))
]
