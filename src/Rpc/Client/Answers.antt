-- ===== src/Rpc/Client/Answers.antt =====
-- When a client has read all answers, and which clients a server accepts.
use cserf.Prelude.{
  ℕ, zero, suc, ◌+◌, ◌<◌, ◌≤◌, ◌≡◌, ◌≢◌, refl, ap, ◌∙◌, Bool, true, false, Option, none, some, List,
  [], ◌∷◌, Text, arith, if◌then◌else◌,
}
use cserf.Rpc.Client.{
  StreamError, Recv, value, fails, should_stop_streaming, cons_answer, receive_answers,
}

-- Whether the call of `Recv` ends the reading.
abbrev pub is_end : Recv → Bool
is_end (value t) = false
is_end (fails err) = should_stop_streaming err

-- The answers among the first `n` results from the `i`-th on.
abbrev pub values : ℕ → (ℕ → Recv) → ℕ → List Text
values zero recv i = []
values (suc n) recv i = elim (recv i) [
  | value t ↦ t ∷ values n recv (suc i)
  | fails err ↦ values n recv (suc i)
]

-- One round of the loop, at a result that does not end it.
go_on :
    (r : Recv) (rest : Option (List Text))
    → is_end r ≡ false
    → elim r [
      | value t ↦ cons_answer t rest
      | fails err ↦ if should_stop_streaming err then some [] else rest
    ]
      ≡ elim r [ value t ↦ cons_answer t rest | fails err ↦ rest ]
go_on (value t) rest h = refl
go_on (fails err) rest h = rw h refl

at_end :
    (r : Recv) (rest : Option (List Text))
    → is_end r ≡ true
    → elim r [
      | value t ↦ cons_answer t rest
      | fails err ↦ if should_stop_streaming err then some [] else rest
    ]
      ≡ some []
at_end (value t) rest h = cc
at_end (fails err) rest h = rw h refl

with_value :
    (r : Recv) (ts : List Text)
    → elim r [ value t ↦ cons_answer t (some ts) | fails err ↦ some ts ]
      ≡ some (elim r [ value t ↦ t ∷ ts | fails err ↦ ts ])
with_value (value t) ts = refl
with_value (fails err) ts = refl

never :
    (r : Recv) (rest : Option (List Text))
    → r ≢ fails StreamError.unavailable
    → r ≢ fails StreamError.eof
    → rest ≡ none
    → elim r [
      | value t ↦ cons_answer t rest
      | fails err ↦ if should_stop_streaming err then some [] else rest
    ]
      ≡ none
unfolding should_stop_streaming
never (value t) rest h k e = rw e refl
never (fails StreamError.unavailable) rest h k e = absurd (h refl)
never (fails StreamError.eof) rest h k e = absurd (k refl)
never (fails StreamError.other) rest h k e = e

module _ (recv : ℕ → Recv) where
  ends_at :
      (k fuel i n : ℕ)
      → n ≡ i + k
      → ((j : ℕ) → i ≤ j → j < n → is_end (recv j) ≡ false)
      → is_end (recv n) ≡ true
      → k < fuel
      → receive_answers fuel recv i ≡ some (values k recv i)
  unfolding receive_answers
  ends_at k zero i n e going end lt = absurd (omega arith)
  ends_at zero (suc fuel) i n e going end lt =
      let here : i ≡ n = omega (arith, e) in
      at_end (recv i) (receive_answers fuel recv (suc i)) (ap (λ m. is_end (recv m)) here ∙ end)
  ends_at (suc k) (suc fuel) i n e going end lt =
      let later =
        ends_at k fuel (suc i) n (omega (arith, e)) (λ j p q. going j (omega arith) q) end
          (omega arith) in
      go_on (recv i) (receive_answers fuel recv (suc i)) (going i (omega arith) (omega (arith, e)))
      ∙ ap (λ rest. elim (recv i) [ value t ↦ cons_answer t rest | fails err ↦ rest ]) later
      ∙ with_value (recv i) (values k recv (suc i))

  -- A client has read all answers to a query at the first error that tells it to stop: it sends on the answers
  -- before that error, in order, passes over the other errors, and ends. Any fuel above the number of the call
  -- that fails is enough.
  pub receive_answers_lem :
      (n fuel : ℕ)
      → is_end (recv n) ≡ true
      → ((j : ℕ) → j < n → is_end (recv j) ≡ false)
      → n < fuel
      → receive_answers fuel recv 0 ≡ some (values n recv 0)
  receive_answers_lem n fuel end going lt =
      ends_at n fuel 0 n (omega arith) (λ j p q. going j q) end lt

  -- A stream whose errors are all of the other kind, as one whose deadline of five seconds has passed, is read
  -- without an end: no number of calls is enough, and the channel of the answers is never closed.
  pub receive_answers_spins :
      ((j : ℕ) → recv j ≢ fails StreamError.unavailable)
      → ((j : ℕ) → recv j ≢ fails StreamError.eof)
      → (fuel i : ℕ) → receive_answers fuel recv i ≡ none
  unfolding receive_answers
  receive_answers_spins h k zero i = refl
  receive_answers_spins h k (suc fuel) i =
      never (recv i) (receive_answers fuel recv (suc i)) (h i) (k i)
        (receive_answers_spins h k fuel (suc i))
