-- ===== src/Lifecycle/Race/Panics.antt =====
-- When a shutdown panics.
use cserf.Prelude.{
  ℕ, ◌≡◌, ◌≢◌, refl, sym, subst, ap, if_both, ◌∙◌, true, false, nat_eq, nat_eq_iff, arith,
  Bool-cases, inl, inr,
}
use cserf.Lifecycle.{new_life, StateType, has_left, has_shutdown}
use cserf.Lifecycle.Race.{
  Pc, idle, tested, marked, ended, Node, update, Step, test, mark, close, leave_test, leave_clear,
  leave_mark, Run, start_here, more,
}

-- Any goroutine may call `Shutdown`, or only the goroutine `i`.
abbrev pub Anyone : ℕ → Type 0
Anyone i = Unit

abbrev pub Only : ℕ → ℕ → Type 0
Only i j = j ≡ i

-- A goroutine that is not in `Shutdown`.
abbrev IsOut : Pc → Type 0
IsOut tested = ⊥
IsOut marked = ⊥
IsOut _ = Unit

-- A goroutine that may still close the channel.
abbrev IsBefore : Pc → Type 0
IsBefore tested = Unit
IsBefore marked = Unit
IsBefore idle = Unit
IsBefore _ = ⊥

-- Only `i` is in `Shutdown`, and once the channel is closed it is out of it for good.
record Alone (i : ℕ) (s : Node) : Type 0 where
  others : (j : ℕ) → j ≢ i → IsOut (s.pc j)
  over : s.life.closed ≡ true → ¬ IsBefore (s.pc i)
  whole : s.panicked ≡ false

update_self : (f : ℕ → Pc) (i : ℕ) (p : Pc) → update f i p i ≡ p
update_self f i p = ground arith

update_ne : (f : ℕ → Pc) (i j : ℕ) (p : Pc) → i ≢ j → update f i p j ≡ f j
update_ne f i j p h = ground (arith, h)

-- Two goroutines that call `Shutdown` at the same time can panic: from every node that is not shut down, whose
-- channel is open, both can pass the test of the state before either changes it, and then the channel is closed
-- twice.
pub shutdown_twice_panics :
    (s : Node) (i j : ℕ)
    → i ≢ j
    → has_shutdown s.life ≡ false
    → s.pc i ≡ idle
    → s.pc j ≡ idle
    → (u : Node) × Run Anyone s u × (u.panicked ≡ true)
shutdown_twice_panics s i j ne alive p q = (
  s6,
  more
      (more
        (more
          (more {u = s2}
            (more {u = s1} (more start_here (test i tt p (rw alive refl)))
              (test j tt (update_ne s.pc i j tested ne ∙ q) (rw alive refl)))
            (mark i (update_ne f1 j i tested (λ e. ne (sym e)) ∙ update_self s.pc i tested) refl))
          (mark j (update_ne f2 i j marked ne ∙ update_self f1 j tested) refl))
        (close i (update_ne f3 j i marked (λ e. ne (sym e)) ∙ update_self f2 i marked) refl))
      (close j (update_ne f4 i j ended ne ∙ update_self f3 j marked) refl),
  refl,
)
  where
    f1 : ℕ → Pc
    f1 = update s.pc i tested

    f2 : ℕ → Pc
    f2 = update f1 j tested

    f3 : ℕ → Pc
    f3 = update f2 i marked

    f4 : ℕ → Pc
    f4 = update f3 j marked

    s1 : Node
    s1 = record s { pc = f1 }

    s2 : Node
    s2 = record s { pc = f2 }

    s6 : Node
    s6 = record {
      life = record s.life { state = StateType.serf_shutdown; closed = true };
      pc = update (update f4 i ended) j ended;
      panicked = true;
    }

-- A goroutine at a place where it is out of `Shutdown` moves to such a place.
moved-IsOut :
    (s : Node) (i k : ℕ) (p : Pc)
    → ((j : ℕ) → j ≢ i → IsOut (s.pc j))
    → (k ≢ i → IsOut p)
    → (j : ℕ) → j ≢ i
    → IsOut (update s.pc k p j)
moved-IsOut s i k p h o j ne = elim (Bool-cases (nat_eq k j)) [
  | inl same ↦ rw same (o (λ e. ne (sym ((nat_eq_iff k j).0 same) ∙ e)))
  | inr other ↦ rw other (h j ne)
]

over_stays :
    (s : Node) (i k : ℕ) (p : Pc)
    → (s.life.closed ≡ true → ¬ IsBefore (s.pc i))
    → (IsBefore p → IsBefore (s.pc k))
    → s.life.closed ≡ true
    → ¬ IsBefore (update s.pc k p i)
over_stays s i k p over before closed = elim (Bool-cases (nat_eq k i)) [
  | inl same ↦
      rw same
        (λ b. over closed (subst (λ j. IsBefore (s.pc j)) ((nat_eq_iff k i).0 same) (before b)))
  | inr other ↦ rw other (over closed)
]

is_same : (s : Node) (i k : ℕ) (p : Pc) → Alone i s → s.pc k ≡ p → (¬ IsOut p) → k ≡ i
is_same s i k p a e busy = elim (Bool-cases (nat_eq k i)) [
  | inl same ↦ (nat_eq_iff k i).0 same
  | inr other ↦ absurd (busy (subst IsOut e (a.others k (λ h. cc (other, (nat_eq_iff k i).1 h)))))
]

-- A step of `k` to `p` that leaves the channel alone.
keeps :
    (s : Node) (i k : ℕ) (state : StateType) (p : Pc)
    → Alone i s
    → (k ≢ i → IsOut p)
    → (IsBefore p → IsBefore (s.pc k))
    → Alone i (record s { life = record s.life { state = state }; pc = update s.pc k p })
keeps s i k state p a out before = record {
  others = moved-IsOut s i k p a.others out;
  over = over_stays s i k p a.over before;
  whole = a.whole;
}

Alone-Step : {i : ℕ} {s u : Node} → Step (Only i) s u → Alone i s → Alone i u
Alone-Step {i} {s} (test k may p d) a =
    rw d (keeps s i k s.life.state _ a (λ ne. absurd (ne may)) (λ b. subst IsBefore (sym p) tt))
Alone-Step {i} {s} (mark k p d) a = rw d (
    keeps s i k StateType.serf_shutdown marked a
      (λ ne. absurd (ne (is_same s i k tested a p (λ b. b)))) (λ b. subst IsBefore (sym p) tt))
Alone-Step {i} {s} (close k p d) a =
    let here : k ≡ i = is_same s i k marked a p (λ b. b) in
    rw d (record {
      others = moved-IsOut s i k ended a.others (λ ne. tt);
      over = λ c.
          subst (λ j. ¬ IsBefore (update s.pc k ended j)) here
            (rw (update_self s.pc k ended) (λ b. b));
      whole = elim (Bool-cases s.life.closed) [
        | inl shut ↦ absurd (a.over shut (subst IsBefore (sym (ap s.pc (sym here) ∙ p)) tt))
        | inr still ↦ rw still a.whole
      ];
    })
Alone-Step {i} {s} (leave_test k p d) a = rw d (
    keeps s i k s.life.state _ a (λ ne. if_both IsOut (has_left s.life) tt tt)
      (λ b. subst IsBefore (sym p) tt))
Alone-Step {i} {s} (leave_clear k p d) a = rw d (
    keeps s i k s.life.state _ a (λ ne. if_both IsOut (has_shutdown s.life) tt tt)
      (λ b. absurd (if_both (λ q. ¬ IsBefore q) (has_shutdown s.life) (λ x. x) (λ x. x) b)))
Alone-Step {i} {s} (leave_mark k p d) a =
    rw d (keeps s i k StateType.serf_left ended a (λ ne. tt) (λ b. absurd b))

Alone-Run : {i : ℕ} {s u : Node} → Run (Only i) s u → Alone i s → Alone i u
Alone-Run start_here a = a
Alone-Run (more r st) a = Alone-Step st (Alone-Run r a)

-- A node at its start: no goroutine has made its call.
abbrev pub new_node : Node
new_node = record { life = new_life; pc = λ i. idle; panicked = false }

-- If a single goroutine calls `Shutdown`, no interleaving with any number of calls of `Leave` panics.
pub shutdown_alone : {i : ℕ} {u : Node} → Run (Only i) new_node u → u.panicked ≡ false
shutdown_alone {i} r =
    (Alone-Run r (record { others = λ j ne. tt; over = λ c. cc; whole = refl })).whole
