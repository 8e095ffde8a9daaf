-- ===== src/Serf/Relay/Picks.antt =====
-- Which nodes `pickRelayNodes` picks.
use native.Mathlib.Nat.{mod-lt, mod-eq_of_lt}
use cserf.Prelude.{
  ℕ, zero, suc, ◌+◌, ◌*◌, ◌≤◌, ◌<◌, ◌≡◌, ◌≢◌, refl, sym, false, ◌||◌, Option, none, some, List, [],
  ◌∷◌, ◌++◌, Text, text_eq, text_eq_iff, ltb, length, length-append, get_elem?, All, All-snoc,
  arith, u32, Bool-cases, inl, inr, ltb→lt,
}
use cserf.Messages.{MemberNode}
use cserf.Serf.Relay.{rand_int_n, is_picked, pick_one, pick_rounds, pick_relay_nodes}

-- No two picked nodes share an id.
abbrev pub IsDistinct : List MemberNode → Type 0
IsDistinct [] = Unit
IsDistinct (p ∷ ps) = All (λ (q : MemberNode). q.id ≢ p.id) ps × IsDistinct ps

-- A candidate: an active node that is neither the answering node nor the asking one.
pub record IsCandidate (nodes : List MemberNode) (self dest : Text) (n : MemberNode) : Type 0 where
  pub index : ℕ
  pub active : get_elem? nodes index ≡ some n
  pub not_self : n.id ≢ self
  pub not_dest : n.id ≢ dest

pub record IsPick (nodes : List MemberNode) (self dest : Text) (num : ℕ) (picked : List MemberNode)
    : Type 0 where
  pub few : length picked ≤ num
  pub distinct : IsDistinct picked
  pub candidates : All (IsCandidate nodes self dest) picked

-- A node is new among those that the loop of duplicates passes.
All-unpicked :
    (id : Text) (ps : List MemberNode)
    → is_picked id ps ≡ false
    → All (λ (q : MemberNode). q.id ≢ id) ps
unfolding is_picked
All-unpicked id [] new = tt
All-unpicked id (p ∷ ps) new = (
  λ e. ground (arith, new, text_eq_iff id p.id, text_eq_iff p.id id, e),
  All-unpicked id ps (ground (arith, new)),
)

IsDistinct-snoc :
    (ps : List MemberNode) (x : MemberNode)
    → IsDistinct ps
    → All (λ (q : MemberNode). q.id ≢ x.id) ps
    → IsDistinct (ps ++ (x ∷ []))
IsDistinct-snoc [] x h new = (tt, tt)
IsDistinct-snoc (p ∷ ps) x h new = (
  All-snoc (λ (q : MemberNode). q.id ≢ p.id) ps x h.0 (λ e. new.0 (sym e)),
  IsDistinct-snoc ps x h.1 new.1,
)

-- An index that is drawn is in range.
pub rand_int_n_lt : (raw n : ℕ) → 0 < n → n < u32 → rand_int_n raw n < n
unfolding rand_int_n
rand_int_n_lt raw n pos small = ground (arith, mod-eq_of_lt {n = n} {m = u32} small, mod-lt raw pos)

module _ (nodes : List MemberNode) (self dest : Text) (num : ℕ) where
  candidate :
      (i : ℕ) (x : MemberNode)
      → get_elem? nodes i ≡ some x
      → (text_eq x.id self || text_eq x.id dest) ≡ false
      → IsCandidate nodes self dest x
  candidate i x e other = record {
    index = i;
    active = e;
    not_self = λ p. ground (arith, text_eq_iff x.id self, p);
    not_dest = λ p. ground (arith, text_eq_iff x.id dest, p);
  }

  pick_one-IsPick :
      (i : ℕ) (o : Option MemberNode) (picked : List MemberNode)
      → get_elem? nodes i ≡ o
      → length picked < num
      → IsPick nodes self dest num picked
      → IsPick nodes self dest num (pick_one self dest o picked)
  unfolding pick_one
  pick_one-IsPick i none picked e room v = v
  pick_one-IsPick i (some x) picked e room v =
      elim (Bool-cases (text_eq x.id self || text_eq x.id dest)) [
        | inl skip ↦ rw skip v
        | inr other ↦ elim (Bool-cases (is_picked x.id picked)) [
          | inl dup ↦ rw (other, dup) v
          | inr new ↦
              rw (other, new)
                (record {
                  few = omega (arith, length-append picked (x ∷ []));
                  distinct = IsDistinct-snoc picked x v.distinct (All-unpicked x.id picked new);
                  candidates = All-snoc _ picked x v.candidates (candidate i x e other);
                })
        ]
      ]

  pick_rounds-IsPick :
      (draw : ℕ → ℕ) (rounds i : ℕ) (picked : List MemberNode)
      → IsPick nodes self dest num picked
      → IsPick nodes self dest num (pick_rounds draw nodes self dest num rounds i picked)
  unfolding pick_rounds
  pick_rounds-IsPick draw zero i picked v = v
  pick_rounds-IsPick draw (suc rounds) i picked v = elim (Bool-cases (ltb (length picked) num)) [
    | inl room ↦ rw room (
        pick_rounds-IsPick draw rounds (i + 1)
          (pick_one self dest (get_elem? nodes (rand_int_n (draw i) (length nodes))) picked)
          (pick_one-IsPick (rand_int_n (draw i) (length nodes)) _ picked refl (ltb→lt _ _ room) v))
    | inr full ↦ rw full v
  ]

-- Whatever the random numbers, the picked relays are active nodes with different ids, none of them the
-- answering node or the asking one, and at most as many as were asked for.
pub pick_relay_nodes-IsPick :
    (draw : ℕ → ℕ) (nodes : List MemberNode) (self : Text) (num : ℕ) (dest : Text)
    → IsPick nodes self dest num (pick_relay_nodes draw nodes self num dest)
unfolding pick_relay_nodes
pick_relay_nodes-IsPick draw nodes self num dest =
    pick_rounds-IsPick nodes self dest num draw (3 * length nodes) 0 []
      (record { few = omega arith; distinct = tt; candidates = tt })
