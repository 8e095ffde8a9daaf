-- ===== src/Rpc.antt =====
-- rpc/server/server.go and rpc/server/log.go: which members a request gets, and the ring that keeps the last
-- log lines for those who start to listen.
pub mod Logs
pub mod Status
pub mod Streams
pub mod Requests
pub mod Mdns
pub mod Client
pub mod Monitor
pub mod Server
pub mod Info
pub mod Handlers
mod Tests
use cserf.Prelude.{
  split, ℕ, zero, suc, ◌+◌, ◌%◌, Bool, true, false, not, ◌||◌, ◌&&◌, Option, none, some, List, [],
  ◌∷◌, ◌++◌, map, Text, bytes, text_eq, text_key, Dict, get, nat_eq, length, get_or, set, replicate,
  if◌then◌else◌,
}
use cserf.Serf.{or_empty}

-- The two states of `memberlist` that the source names, and all others.
pub data StateType : Type 0 where
  state_dead state_left : StateType
  other_state : ℕ → StateType

unfoldable pub is_active : StateType → Bool
is_active state_dead = false
is_active state_left = false
is_active (other_state n) = true

abbrev is_dead : StateType → Bool
is_dead state_dead = true
is_dead _ = false

abbrev is_left : StateType → Bool
is_left state_left = true
is_left _ = false

-- `(*statusFilter).match`
unfoldable pub match_filter : Text → StateType → Bool
unfolding is_active
match_filter f state =
    if text_eq f (bytes "active")
    then is_active state
    else if text_eq f (bytes "inactive")
    then not (is_active state)
    else if text_eq f (bytes "failed")
    then is_dead state
    else if text_eq f (bytes "left")
    then is_left state
    else true

unfoldable pub is_valid_status_filter : Text → Bool
is_valid_status_filter s =
    text_eq s (bytes "active")
    || (text_eq s (bytes "inactive") || (text_eq s (bytes "failed") || text_eq s (bytes "left")))

-- The loop of `toStatusFilters`.
unfoldable pub check_filters : List Text → Option (List Text)
unfolding is_valid_status_filter
check_filters [] = some []
check_filters (s ∷ ss) =
    let rest = check_filters ss in
    if is_valid_status_filter s then (elim rest [ none ↦ none | some fs ↦ some (s ∷ fs) ]) else none

unfoldable pub to_status_filters : Text → Option (List Text)
unfolding check_filters split
to_status_filters [] = some []
to_status_filters (c ∷ cs) = check_filters (split 44 [] (c ∷ cs))

-- The loop of `matchStatus`.
unfoldable pub match_any : StateType → List Text → Bool
unfolding match_filter
match_any state [] = false
match_any state (f ∷ fs) = if match_filter f state then true else match_any state fs

unfoldable pub match_status : StateType → List Text → Bool
unfolding match_any
match_status state [] = true
match_status state (f ∷ fs) = match_any state (f ∷ fs)

-- `regexFilter`: `matches` is the compiled expression.
pub record RegexFilter : Type 0 where
  pub key : Text
  pub matches : Text → Bool

pub record TagFilter : Type 0 where
  pub key : Text
  pub expr : Text

-- `toRegexFilters`; `compile` is `regexp.Compile`.
unfoldable pub to_regex_filters :
    (Text → Option (Text → Bool)) → List TagFilter → Option (List RegexFilter)
to_regex_filters compile [] = some []
to_regex_filters compile (f ∷ fs) =
    let rest = to_regex_filters compile fs in
    elim (compile f.expr) [
      | none ↦ none
      | some m ↦ elim rest [
        | none ↦ none
        | some gs ↦ some (record { key = f.key; matches = m } ∷ gs)
      ]
    ]

unfoldable pub match_tag : Dict Text Text → List RegexFilter → Bool
match_tag tags [] = true
match_tag tags (f ∷ fs) = if f.matches (or_empty (get tags f.key)) then match_tag tags fs else false

pub record Member : Type 0 where
  pub id : Text
  pub addr : Text
  pub tags : Dict Text Text
  pub state : StateType
  pub lives : ℕ

-- The loop of `Members`.
unfoldable pub keep_members : List RegexFilter → List Text → List Member → List Member
unfolding match_tag match_status
keep_members tag_filters status_filters [] = []
keep_members tag_filters status_filters (m ∷ ms) =
    let rest = keep_members tag_filters status_filters ms in
    if match_tag m.tags tag_filters
    then (if match_status m.state status_filters then m ∷ rest else rest)
    else rest

-- `Members`; `none` is an error.
unfoldable pub members :
    (Text → Option (Text → Bool)) → List Member → List TagFilter → Text → Option (List Member)
unfolding to_regex_filters to_status_filters keep_members
members compile ms tag_filters status_filter = elim (to_regex_filters compile tag_filters) [
  | none ↦ none
  | some ts ↦ elim (to_status_filters status_filter) [
    | none ↦ none
    | some fs ↦ some (keep_members ts fs ms)
  ]
]

-- `ringLogBuf`
pub record RingLogBuf : Type 0 where
  pub idx : ℕ
  pub buf : List Text

unfoldable pub new_ring_log_buf : RingLogBuf
new_ring_log_buf = record { idx = 0; buf = replicate 512 [] }

unfoldable pub write : RingLogBuf → Text → RingLogBuf
write r l = record { idx = (r.idx + 1) % length r.buf; buf = set r.buf r.idx l }

-- The line at the `i`-th round of `dump`.
unfoldable pub line_at : RingLogBuf → ℕ → Text
line_at r i = get_or r.buf ((r.idx + i) % length r.buf) []

-- `dump` with `rounds` to go: empty lines are skipped, the others streamed in this order.
unfoldable pub dump_from : RingLogBuf → ℕ → ℕ → List Text
unfolding line_at
dump_from r i zero = []
dump_from r i (suc rounds) =
    let rest = dump_from r (i + 1) rounds in
    if text_eq (line_at r i) [] then rest else line_at r i ∷ rest

unfoldable pub dump : RingLogBuf → List Text
unfolding dump_from
dump r = dump_from r 0 (length r.buf)
