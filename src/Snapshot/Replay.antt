-- ===== src/Snapshot/Replay.antt =====
-- What the replay makes of each line that the snapshotter writes.
use cserf.Prelude.{
  ℕ, ◌<◌, ◌≡◌, refl, ◌∙◌, Bool, true, false, Option, none, some, List, [], ◌∷◌, ◌++◌, Text,
  text_eq_iff, text_key, Dict, get, put, remove, get-put, IsMap, All, arith, u64,
}
use cserf.Decimal.{parse_uint-print}
use cserf.Snapshot.{
  Snapshotter, alive_line, not_alive_line, action_clock_line, query_clock_line, leave_lines,
  alive_lines, dump_lines, find_prefix, handle_alive_info, handle_info, handle_line, handle_lines,
}
use cserf.Snapshot.Lines.{IsLine, IsWord, split_last_space_lem}

module _ (s : Snapshotter) where
  pub handle_alive :
      (id addr : Text)
      → IsWord addr
      → handle_line s (alive_line id addr)
        ≡ some (record s { alive_nodes = put s.alive_nodes id addr })
  unfolding handle_line find_prefix handle_info handle_alive_info
  handle_alive id addr h = rw (split_last_space_lem id addr h)

  pub handle_not_alive :
      (id : Text)
      → handle_line s (not_alive_line id)
        ≡ some (record s { alive_nodes = remove s.alive_nodes id })
  unfolding handle_line find_prefix handle_info
  handle_not_alive id = refl

  pub handle_action_clock :
      (t : ℕ)
      → t < u64
      → handle_line s (action_clock_line t) ≡ some (record s { last_action_clock = t })
  unfolding handle_line find_prefix handle_info
  handle_action_clock t h = rw (parse_uint-print t h)

  pub handle_query_clock :
      (t : ℕ)
      → t < u64
      → handle_line s (query_clock_line t) ≡ some (record s { last_query_clock = t })
  unfolding handle_line find_prefix handle_info
  handle_query_clock t h = rw (parse_uint-print t h)

  handle_leave : (b : Bool) → handle_lines s (leave_lines b) ≡ some s
  unfolding handle_lines handle_line find_prefix handle_info
  handle_leave true = refl
  handle_leave false = refl

-- The entries of a map, put one after the other.
pub put_all : Dict Text Text → Dict Text Text → Dict Text Text
put_all b [] = b
put_all b ((id, addr) ∷ m) = put_all (put b id addr) m

abbrev pub or_else : Option Text → Option Text → Option Text
or_else none o = o
or_else (some x) o = some x

pub get-put_all :
    (b m : Dict Text Text) (k : Text) → IsMap m → get (put_all b m) k ≡ or_else (get m k) (get b k)
unfolding put_all get
get-put_all b [] k h = refl
get-put_all b ((id, addr) ∷ m) k h =
    ground (arith, get-put_all (put b id addr) m k h.1, get-put b id k addr, text_eq_iff id k, h.0)

abbrev pub IsEntry : Text × Text → Type 0
IsEntry (id, addr) = IsLine id × IsWord addr

handle_lines-cons :
    (s : Snapshotter) (l : Text) (ls : List Text) {s' : Snapshotter}
    → handle_line s l ≡ some s'
    → handle_lines s (l ∷ ls) ≡ handle_lines s' ls
unfolding handle_lines
handle_lines-cons s l ls e = ground (arith, e)

handle_alive_lines :
    (m : Dict Text Text) (s : Snapshotter) (rest : List Text)
    → All IsEntry m
    → handle_lines s (alive_lines m ++ rest)
      ≡ handle_lines (record s { alive_nodes = put_all s.alive_nodes m }) rest
unfolding alive_lines put_all
handle_alive_lines [] s rest h = refl
handle_alive_lines ((id, addr) ∷ m) s rest h =
    handle_lines-cons s _ _ (handle_alive s id addr h.0.1)
    ∙ handle_alive_lines m (record s { alive_nodes = put s.alive_nodes id addr }) rest h.1

handle_clocks :
    (s : Snapshotter) (t u : ℕ) (leaving : Bool)
    → t < u64
    → u < u64
    → handle_lines s (action_clock_line t ∷ query_clock_line u ∷ leave_lines leaving)
      ≡ some (record s { last_action_clock = t; last_query_clock = u })
handle_clocks s t u leaving h k =
    handle_lines-cons s _ _ (handle_action_clock s t h)
    ∙ handle_lines-cons (record s { last_action_clock = t }) _ _
        (handle_query_clock (record s { last_action_clock = t }) u k)
    ∙ handle_leave (record s { last_action_clock = t; last_query_clock = u }) leaving

-- The replay of a dump: the entries are put, and the clocks are set.
pub handle_dump :
    (s base : Snapshotter)
    → All IsEntry s.alive_nodes
    → s.last_action_clock < u64
    → s.last_query_clock < u64
    → handle_lines base (dump_lines s)
      ≡ some (record base {
        alive_nodes = put_all base.alive_nodes s.alive_nodes;
        last_action_clock = s.last_action_clock;
        last_query_clock = s.last_query_clock;
      })
unfolding dump_lines
handle_dump s base h t u =
    handle_alive_lines s.alive_nodes base _ h
    ∙ handle_clocks (record base { alive_nodes = put_all base.alive_nodes s.alive_nodes })
        s.last_action_clock s.last_query_clock s.leaving t u

pub handle_lines-snoc :
    (ls : List Text) (l : Text) (s r : Snapshotter)
    → handle_lines s ls ≡ some r
    → handle_lines s (ls ++ (l ∷ [])) ≡ handle_line r l
unfolding handle_lines
handle_lines-snoc [] l s r h = go (handle_line r l) (ground arith)
  where
    go :
        (o : Option Snapshotter)
        → handle_line s l ≡ o
        → (elim (handle_line s l) [ none ↦ none | some s' ↦ some s' ]) ≡ o
    go none e = rw e
    go (some x) e = rw e
handle_lines-snoc (x ∷ ls) l s r h = go (λ y. handle_lines-snoc ls l y r) (handle_line s x) h
  where
    go :
        ((y : Snapshotter)
          → handle_lines y ls ≡ some r
          → handle_lines y (ls ++ (l ∷ [])) ≡ handle_line r l)
        → (o : Option Snapshotter) → elim o [ none ↦ none | some s' ↦ handle_lines s' ls ] ≡ some r
        → elim o [ none ↦ none | some s' ↦ handle_lines s' (ls ++ (l ∷ [])) ] ≡ handle_line r l
    go later none e = cc
    go later (some y) e = later y e
