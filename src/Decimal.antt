-- ===== src/Decimal.antt =====
-- The decimal numerals that snapshot.go writes with `%d` and reads with `strconv.ParseUint(s, 10, 64)`.
use native.Mathlib.Numerals.{unary_clauses}
use cserf.Prelude.{
  ℕ, zero, suc, ◌+◌, ◌-◌, ◌*◌, ◌/◌, ◌%◌, ◌^◌, ◌≤◌, ◌<◌, ◌≡◌, ◌≢◌, refl, Bool, true, false, ◌&&◌, [],
  ◌∷◌, ◌++◌, Text, ltb, leb, arith, if◌then◌else◌, u64, All, All-snoc, Bool-cases, inl, inr,
  append_assoc, ltb→lt, lt→ltb, ◌∙◌, ap, sym, append-nil,
}

-- The digits of `n`, at most `fuel` of them.
unfoldable pub print_digits : ℕ → ℕ → Text
print_digits zero n = []
print_digits (suc fuel) n =
    let front = print_digits fuel (n / 10) in
    if ltb n 10 then (48 + n) ∷ [] else front ++ ((48 + n % 10) ∷ [])

-- A 64-bit number has at most 20 digits.
unfoldable pub print_u64 : ℕ → Text
unfolding print_digits
print_u64 n = print_digits 20 n

-- What `ParseUint` returns: the value, and whether there is no error. At a byte that is no digit the value
-- is 0, and at a number that is too large it is the largest one.
unfoldable pub parse_digits : ℕ → Text → ℕ × Bool
parse_digits n [] = (n, true)
parse_digits n (c ∷ cs) =
    let rest = parse_digits (n * 10 + (c - 48)) cs in
    if leb 48 c && leb c 57
    then (if ltb (n * 10 + (c - 48)) u64 then rest else (u64 - 1, false))
    else (0, false)

unfoldable pub parse_uint : Text → ℕ × Bool
unfolding parse_digits
parse_uint [] = (0, false)
parse_uint (c ∷ cs) = parse_digits 0 (c ∷ cs)

print_digits-short : (fuel n : ℕ) → ltb n 10 ≡ true → print_digits (suc fuel) n ≡ (48 + n) ∷ []
unfolding print_digits
print_digits-short fuel n h = rw h

print_digits-long :
    (fuel n : ℕ)
    → ltb n 10 ≡ false
    → print_digits (suc fuel) n ≡ print_digits fuel (n / 10) ++ ((48 + n % 10) ∷ [])
unfolding print_digits
print_digits-long fuel n h = rw h

parse_digit :
    (n : ℕ) (rest : Text)
    → n < u64
    → parse_digits (n / 10) ((48 + n % 10) ∷ rest) ≡ parse_digits n rest
unfolding parse_digits
parse_digit n rest small =
    ground (arith, parse_same (n / 10 * 10 + (48 + n % 10 - 48)) n rest (omega arith))
  where
    parse_same : (m k : ℕ) (t : Text) → m ≡ k → parse_digits m t ≡ parse_digits k t
    parse_same m k t e = rw e

parse_first :
    (n : ℕ) (rest : Text) → n < 10 → parse_digits 0 ((48 + n) ∷ rest) ≡ parse_digits n rest
unfolding parse_digits
parse_first n rest small = ground arith

div_pow : (f n : ℕ) → n < 10 ^ suc (suc f) → n / 10 < 10 ^ suc f
div_pow f n h =
    let h' : n < 10 ^ f * 10 * 10 = simp unary_clauses at h in simp unary_clauses (omega arith)

parse-print_digits :
    (fuel n : ℕ) (rest : Text)
    → n < 10 ^ suc fuel
    → n < u64
    → parse_digits 0 (print_digits (suc fuel) n ++ rest) ≡ parse_digits n rest
parse-print_digits zero n rest h small =
    rw (print_digits-short zero n (lt→ltb n 10 (omega arith))) (parse_first n rest (omega arith))
parse-print_digits (suc fuel) n rest h small = elim (Bool-cases (ltb n 10)) [
  | inl short ↦ rw (print_digits-short (suc fuel) n short) (parse_first n rest (ltb→lt n 10 short))
  | inr long ↦
      rw (print_digits-long (suc fuel) n long, append_assoc)
        (parse-print_digits fuel (n / 10) ((48 + n % 10) ∷ rest) (div_pow fuel n h) (omega arith)
          ∙ parse_digit n rest small)
]

-- A digit is no line feed and no space.
abbrev pub IsDigit : ℕ → Type 0
IsDigit c = (48 ≤ c) × (c < 58)

no_digits : (n : ℕ) → All IsDigit (print_digits zero n)
unfolding print_digits
no_digits n = tt

print_digits-All : (fuel n : ℕ) → All IsDigit (print_digits fuel n)
print_digits-All zero n = no_digits n
print_digits-All (suc fuel) n = elim (Bool-cases (ltb n 10)) [
  | inl short ↦
      rw (print_digits-short fuel n short) ((omega arith, omega (arith, ltb→lt n 10 short)), tt)
  | inr long ↦ rw (print_digits-long fuel n long) (
      All-snoc IsDigit (print_digits fuel (n / 10)) (48 + n % 10) (print_digits-All fuel (n / 10))
        (omega arith, omega arith))
]

pub print_u64-All : (n : ℕ) → All IsDigit (print_u64 n)
unfolding print_u64
print_u64-All n = print_digits-All 20 n

parse_uint-cons :
    (t : Text) (n : ℕ) → parse_digits 0 t ≡ (n, true) → t ≢ [] → parse_uint t ≡ (n, true)
unfolding parse_uint
parse_uint-cons [] n h ne = absurd (ne refl)
parse_uint-cons (c ∷ cs) n h ne = h

append-cons : (s : Text) (c : ℕ) → s ++ (c ∷ []) ≢ []
append-cons [] c e = cc
append-cons (x ∷ s) c e = cc

print_digits-cons : (n : ℕ) → print_digits 20 n ≢ []
print_digits-cons n e = elim (Bool-cases (ltb n 10)) [
  | inl short ↦ cc (print_digits-short 19 n short, e)
  | inr long ↦ append-cons _ _ (sym (print_digits-long 19 n long) ∙ e)
]

parse_end : (m : ℕ) → parse_digits m [] ≡ (m, true)
unfolding parse_digits
parse_end m = refl

-- A 64-bit number that is written in decimals is read back.
pub parse_uint-print : (n : ℕ) → n < u64 → parse_uint (print_u64 n) ≡ (n, true)
unfolding print_u64
parse_uint-print n small = parse_uint-cons (print_digits 20 n) n whole (print_digits-cons n)
  where
    whole : parse_digits 0 (print_digits 20 n) ≡ (n, true)
    whole =
        ap (parse_digits 0) (sym (append-nil (print_digits 20 n)))
        ∙ parse-print_digits 19 n [] (omega arith) small
        ∙ parse_end n
