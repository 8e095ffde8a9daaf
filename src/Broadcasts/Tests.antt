-- ===== src/Broadcasts/Tests.antt =====
-- Packets on a small run.
use cserf.Prelude.{ℕ, ◌+◌, ◌≡◌, refl, arith, List, [], ◌∷◌, Text, bytes, ltb, if◌then◌else◌}
use cserf.Broadcasts.{BroadcastManager, bytes_used, max_queue_len}
use cserf.Broadcasts.Limit.{RespectsLimit}

-- A queue of one message of three bytes.
abbrev one_message : ℕ → ℕ → List Text
one_message overhead limit = if ltb limit (3 + overhead) then [] else bytes "abc" ∷ []

one_message-RespectsLimit : RespectsLimit one_message
unfolding bytes_used
one_message-RespectsLimit overhead limit = ground arith

abbrev manager : BroadcastManager
manager = record {
  num_nodes = 5;
  max_queue_depth = 7;
  min_queue_depth = 12;
  get_actions = one_message;
  get_queries = one_message;
}

queue_len : max_queue_len manager ≡ 12
unfolding max_queue_len
queue_len = refl
