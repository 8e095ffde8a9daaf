-- ===== src/Snapshot/Lines.antt =====
-- The lines of the file, and how they are read back.
use cserf.Prelude.{
  ℕ, ◌≡◌, ◌≢◌, refl, sym, ap, ◌∙◌, none, some, List, [], ◌∷◌, ◌++◌, Text, bytes, All, arith,
  append_assoc, append-nil,
}
use cserf.Decimal.{print_u64, print_u64-All, IsDigit}
use cserf.Snapshot.{
  line, unlines, read_lines, split_last_space, alive_line, not_alive_line, action_clock_line,
  query_clock_line,
}

abbrev pub IsLine : Text → Type 0
IsLine l = All (λ c. c ≢ 10) l

abbrev pub IsWord : Text → Type 0
IsWord l = All (λ c. (c ≢ 10) × (c ≢ 32)) l

read_lines-line :
    (l front rest : Text)
    → IsLine l
    → read_lines front (line l ++ rest) ≡ (front ++ l) ∷ read_lines [] rest
unfolding read_lines
read_lines-line [] front rest h = ground (arith, append-nil front)
read_lines-line (c ∷ l) front rest h =
    ground
      (arith, h.0, read_lines-line l (front ++ (c ∷ [])) rest h.1, append_assoc front (c ∷ []) l)

read_nothing : read_lines [] [] ≡ []
unfolding read_lines
read_nothing = refl

-- What was written line by line is read line by line.
pub read_lines-unlines : (ls : List Text) → All IsLine ls → read_lines [] (unlines ls) ≡ ls
unfolding unlines
read_lines-unlines [] h = read_nothing
read_lines-unlines (l ∷ ls) h =
    read_lines-line l [] (unlines ls) h.0 ∙ ap (λ r. l ∷ r) (read_lines-unlines ls h.1)

pub unlines-snoc : (ls : List Text) (l : Text) → unlines (ls ++ (l ∷ [])) ≡ unlines ls ++ line l
unfolding unlines
unlines-snoc [] l = append-nil (line l)
unlines-snoc (x ∷ ls) l =
    ap (λ r. line x ++ r) (unlines-snoc ls l) ∙ sym (append_assoc (line x) (unlines ls) (line l))

no_space : (t : Text) → IsWord t → split_last_space t ≡ none
unfolding split_last_space
no_space [] h = refl
no_space (c ∷ t) h = ground (arith, no_space t h.1, h.0.1)

-- The address is what stands behind the last space, as it has none.
pub split_last_space_lem :
    (id addr : Text) → IsWord addr → split_last_space (id ++ (32 ∷ addr)) ≡ some (id, addr)
unfolding split_last_space
split_last_space_lem [] addr h = ground (arith, no_space addr h)
split_last_space_lem (c ∷ id) addr h = ground (arith, split_last_space_lem id addr h)

IsLine-word : (t : Text) → IsWord t → IsLine t
IsLine-word [] h = tt
IsLine-word (c ∷ t) h = (h.0.0, IsLine-word t h.1)

IsLine-digits : (t : Text) → All IsDigit t → IsLine t
IsLine-digits [] h = tt
IsLine-digits (c ∷ t) h = (omega (arith, h.0), IsLine-digits t h.1)

IsLine-append : (s t : Text) → IsLine s → IsLine t → IsLine (s ++ t)
IsLine-append [] t h k = k
IsLine-append (c ∷ s) t h k = (h.0, IsLine-append s t h.1 k)

pub alive_line-IsLine : (id addr : Text) → IsLine id → IsWord addr → IsLine (alive_line id addr)
alive_line-IsLine id addr h k =
    IsLine-append (bytes "alive: ") (id ++ (32 ∷ addr)) (ground arith)
      (IsLine-append id (32 ∷ addr) h (omega arith, IsLine-word addr k))

pub not_alive_line-IsLine : (id : Text) → IsLine id → IsLine (not_alive_line id)
not_alive_line-IsLine id h = IsLine-append (bytes "not-alive: ") id (ground arith) h

pub action_clock_line-IsLine : (t : ℕ) → IsLine (action_clock_line t)
action_clock_line-IsLine t =
    IsLine-append (bytes "action-clock: ") (print_u64 t) (ground arith)
      (IsLine-digits (print_u64 t) (print_u64-All t))

pub query_clock_line-IsLine : (t : ℕ) → IsLine (query_clock_line t)
query_clock_line-IsLine t =
    IsLine-append (bytes "query-clock: ") (print_u64 t) (ground arith)
      (IsLine-digits (print_u64 t) (print_u64-All t))
