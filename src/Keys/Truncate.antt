-- ===== src/Keys/Truncate.antt =====
-- How many keys a `list-key` query returns.
use cserf.Prelude.{
  ℕ, zero, suc, ◌≤◌, ◌<◌, ◌≡◌, refl, ap, ◌∙◌, true, false, List, [], ◌∷◌, bytes, lt→ltb, take,
  if◌then◌else◌, arith, ℕ_discrete,
}
use cserf.Messages.{QueryEvent}
use cserf.Serf.{Serf, Env}
use cserf.Keys.{KeyEnv, KeyResponse, is_limit, cut, try_send, send_key_response}

take-take {ℓ} : {A : Type ℓ} (n m : ℕ) (xs : List A) → n ≤ m → take n (take m xs) ≡ take n xs
take-take zero m xs h = refl
take-take (suc n) zero xs h = absurd (omega arith)
take-take (suc n) (suc m) [] h = refl
take-take (suc n) (suc m) (x ∷ xs) h = ap (λ r. x ∷ r) (take-take n m xs (omega arith))

cut-cut : (r : KeyResponse) (all n m : ℕ) → n < m → m ≤ all → cut (cut r all m) all n ≡ cut r all n
unfolding cut
cut-cut r all n m lt le = rw (lt→ltb n all (omega arith)) (
    ap (λ ks. let c : KeyResponse = record r { keys = ks; err = bytes "key-list truncated" } in c)
      (take-take n m r.keys (omega arith)))

module _ (env : Env) (k : KeyEnv) (s : Serf) (q : QueryEvent) where
  try_send-suc :
      (r : KeyResponse) (all i : ℕ)
      → try_send env k s q r all (suc i) ≡ (
          if is_limit (send_key_response env k s q (cut r all (suc i))).0
          then try_send env k s q (cut r all (suc i)) all i
          else (send_key_response env k s q (cut r all (suc i))).1)
  unfolding try_send
  try_send-suc r all i = refl

  -- A `list-key` query is answered with the longest list of at most `n` keys whose response is not too
  -- large: the lists longer than `j` exceed the limit and the one of `j` does not.
  pub try_send_longest :
      (n j : ℕ) (r : KeyResponse) (all : ℕ)
      → 0 < j
      → j ≤ n
      → n ≤ all
      → ((i : ℕ) → j < i → i ≤ n → is_limit (send_key_response env k s q (cut r all i)).0 ≡ true)
      → is_limit (send_key_response env k s q (cut r all j)).0 ≡ false
      → try_send env k s q r all n ≡ (send_key_response env k s q (cut r all j)).1
  try_send_longest zero j r all pos le small long fits = absurd (omega arith)
  try_send_longest (suc n) j r all pos le small long fits = elim (ℕ_discrete j (suc n)) [
    | yes same ↦ try_send-suc r all n ∙ rw (← same) (ground (arith, fits))
    | no other ↦
        try_send-suc r all n
        ∙ rw (long (suc n) (omega arith) (omega arith)) (
            try_send_longest n j (cut r all (suc n)) all pos (omega arith) (omega arith)
              (λ i lt le'.
                ap (λ c. is_limit (send_key_response env k s q c).0)
                  (cut-cut r all i (suc n) (omega arith) small)
                ∙ long i lt (omega arith))
              (ap (λ c. is_limit (send_key_response env k s q c).0)
                  (cut-cut r all j (suc n) (omega arith) small)
                ∙ fits)
            ∙ ap (λ c. (send_key_response env k s q c).1)
                (cut-cut r all j (suc n) (omega arith) small))
  ]
