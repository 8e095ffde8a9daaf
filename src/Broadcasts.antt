-- ===== src/Broadcasts.antt =====
-- broadcasts.go: the messages that ride on the memberlist's packets. The queues are the memberlist's:
-- `get_messages overhead limit` is what `GetMessages` returns.
pub mod Limit
mod Tests
use cserf.Prelude.{
  ℕ, ◌+◌, ◌-◌, ◌*◌, List, [], ◌∷◌, ◌++◌, Text, leb, ltb, nat_eq, length, if◌then◌else◌,
}

pub record BroadcastManager : Type 0 where
  pub num_nodes : ℕ
  pub max_queue_depth : ℕ
  pub min_queue_depth : ℕ
  pub get_actions : ℕ → ℕ → List Text
  pub get_queries : ℕ → ℕ → List Text

-- The loop that adds up the bytes used.
unfoldable pub bytes_used : ℕ → List Text → ℕ
bytes_used overhead [] = 0
bytes_used overhead (m ∷ ms) = length m + overhead + bytes_used overhead ms

unfoldable pub get_broadcasts : BroadcastManager → ℕ → ℕ → List Text
unfolding bytes_used
get_broadcasts m overhead limit =
    if leb limit overhead
    then []
    else m.get_queries overhead limit
      ++ m.get_actions overhead (limit - bytes_used overhead (m.get_queries overhead limit))

unfoldable pub max_queue_len : BroadcastManager → ℕ
max_queue_len m =
    if ltb 0 m.min_queue_depth
    then (if ltb (2 * m.num_nodes) m.min_queue_depth then m.min_queue_depth else 2 * m.num_nodes)
    else m.max_queue_depth

-- The length of a queue after `manageQueueDepth`, where `Resize` cuts it to its argument.
unfoldable pub managed_len : BroadcastManager → ℕ → ℕ
unfolding max_queue_len
managed_len m len =
    if nat_eq (max_queue_len m) 0
    then len
    else if ltb (max_queue_len m) len
    then max_queue_len m
    else len
