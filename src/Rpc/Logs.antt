-- ===== src/Rpc/Logs.antt =====
-- The ring of log lines.
use native.Mathlib.Nat.{mod-eq_of_lt, mod-add-mod, mod-eq-sub-mod}
use native.Mathlib.Decide.{dec_lt}
use cserf.Prelude.{
  ℕ, ◌+◌, ◌-◌, ◌%◌, ◌≤◌, ◌<◌, ◌≡◌, ◌≢◌, ap, ◌∙◌, [], Text, nat_eq, length, get_or, set, length-set,
  get_or-set_self, get_or-set_ne, if◌then◌else◌, arith, Bool-cases, inl, inr,
}
use cserf.Rpc.{RingLogBuf, write, line_at}

-- The position of the line that is `k` rounds behind the present one.
place : (i k n : ℕ) → i < n → k ≤ n → (k ≡ n → (i + k) % n ≡ i) × (0 < k → k < n → (i + k) % n ≢ i)
place i k n h le = elim (dec_lt (i + k) n) [
  | yes inside ↦ (
    λ e. absurd (omega arith),
    λ pos lt p. omega (arith, mod-eq_of_lt {n = i + k} {m = n} inside, p),
  )
  | no outside ↦
      (λ e. omega (arith, wrapped outside), λ pos lt p. omega (arith, wrapped outside, p))
]
  where
    wrapped : ((i + k < n) → ⊥) → (i + k) % n ≡ i + k - n
    wrapped outside =
        mod-eq-sub-mod {n = i + k} {m = n} (omega arith)
        ∙ mod-eq_of_lt {n = i + k - n} {m = n} (omega arith)

shift : (i j : ℕ) → i + 1 + j ≡ i + (j + 1)
shift i j = omega arith

-- A write to the ring forgets the oldest line and keeps the others in their order, with the new one last:
-- line `j` of the dump is then what was line `j + 1`, and the last line is the new one.
pub write_shifts :
    (r : RingLogBuf) (l : Text) (j : ℕ)
    → r.idx < length r.buf
    → j < length r.buf
    → line_at (write r l) j ≡ (if nat_eq (j + 1) (length r.buf) then l else line_at r (j + 1))
unfolding line_at write
write_shifts r l j h k =
    let n = length r.buf in
    let p = place r.idx (j + 1) n h (omega arith) in
    ap (λ m. get_or (set r.buf r.idx l) (((r.idx + 1) % n + j) % m) []) (length-set r.buf r.idx l)
    ∙ ap (λ m. get_or (set r.buf r.idx l) m [])
        (mod-add-mod (r.idx + 1) n j ∙ ap (λ m. m % n) (shift r.idx j))
    ∙ elim (Bool-cases (nat_eq (j + 1) n)) [
      | inl last ↦ rw last (
          ap (λ m. get_or (set r.buf r.idx l) m []) (p.0 (ground arith))
          ∙ get_or-set_self r.buf r.idx l [] h)
      | inr other ↦ rw other (
          get_or-set_ne r.buf r.idx ((r.idx + (j + 1)) % n) l []
            (λ e. p.1 (omega arith) (ground arith) (omega (arith, e))))
    ]
