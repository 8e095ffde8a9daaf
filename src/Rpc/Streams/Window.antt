-- ===== src/Rpc/Streams/Window.antt =====
-- The lines in the ring are the last ones written.
use cserf.Prelude.{
  ℕ, zero, suc, ◌+◌, ◌%◌, ◌<◌, ◌≡◌, refl, sym, ap, ap₂, ◌∙◌, List, [], ◌∷◌, ◌++◌, append_assoc,
  append-nil, Text, text_eq, length, length-set, drop, replicate, get_or-replicate, if◌then◌else◌,
  arith,
}
use native.Mathlib.Nat.{mod-lt}
use cserf.Rpc.{RingLogBuf, new_ring_log_buf, write, line_at, dump_from, dump}
use cserf.Rpc.Logs.{write_shifts}

-- Lines of the ring, from the `i`-th on.
lines_from : RingLogBuf → ℕ → ℕ → List Text
lines_from r i zero = []
lines_from r i (suc k) = line_at r i ∷ lines_from r (i + 1) k

pub lines : RingLogBuf → List Text
lines r = lines_from r 0 (length r.buf)

-- Without the empty ones, which `dump` skips.
unfoldable pub skip_empty : List Text → List Text
skip_empty [] = []
skip_empty (l ∷ ls) = let rest = skip_empty ls in if text_eq l [] then rest else l ∷ rest

skip_empty-lines_from : (r : RingLogBuf) (i k : ℕ) → dump_from r i k ≡ skip_empty (lines_from r i k)
unfolding dump_from skip_empty lines_from
skip_empty-lines_from r i zero = refl
skip_empty-lines_from r i (suc k) =
    ap (λ z. if text_eq (line_at r i) [] then z else line_at r i ∷ z)
      (skip_empty-lines_from r (i + 1) k)

pub dump-lines : (r : RingLogBuf) → dump r ≡ skip_empty (lines r)
unfolding dump lines
dump-lines r = skip_empty-lines_from r 0 (length r.buf)

lines_from-write :
    (r : RingLogBuf) (l : Text) (i k : ℕ)
    → r.idx < length r.buf
    → i + suc k ≡ length r.buf
    → lines_from (write r l) i (suc k) ≡ lines_from r (i + 1) k ++ (l ∷ [])
unfolding lines_from
lines_from-write r l i zero h e = ground (arith, write_shifts r l i h)
lines_from-write r l i (suc k) h e =
    ap₂ (λ a b. a ∷ b) (ground (arith, write_shifts r l i h))
      (lines_from-write r l (i + 1) k h (omega arith))

-- A ring that is in use has a place for a line, and writes to one of its places.
pub record IsRing (r : RingLogBuf) : Type 0 where
  pub inside : r.idx < length r.buf

write-IsRing : (r : RingLogBuf) (l : Text) → IsRing r → IsRing (write r l)
unfolding write
write-IsRing r l v = record {
  inside =
      ground (arith, v.inside, length-set r.buf r.idx l, mod-lt (r.idx + 1) {m = length r.buf});
}

length-write : (r : RingLogBuf) (l : Text) → length (write r l).buf ≡ length r.buf
unfolding write
length-write r l = length-set r.buf r.idx l

lines-write :
    (r : RingLogBuf) (l : Text) (k : ℕ)
    → IsRing r
    → length r.buf ≡ suc k
    → (lines r ≡ line_at r 0 ∷ lines_from r 1 k)
      × (lines (write r l) ≡ lines_from r 1 k ++ (l ∷ []))
unfolding lines lines_from
lines-write r l k v e = (
  ap (lines_from r 0) e,
  ap (lines_from (write r l) 0) (length-write r l ∙ e)
      ∙ lines_from-write r l 0 k v.inside (omega (arith, e)),
)

unfoldable pub write_each : RingLogBuf → List Text → RingLogBuf
write_each r [] = r
write_each r (l ∷ ls) = write_each (write r l) ls

lines-write_each :
    (r : RingLogBuf) (ls : List Text) (k : ℕ)
    → IsRing r
    → length r.buf ≡ suc k
    → lines (write_each r ls) ≡ drop (length ls) (lines r ++ ls)
unfolding write_each
lines-write_each r [] k v e = sym (append-nil (lines r))
lines-write_each r (l ∷ ls) k v e =
    let (before, after) = lines-write r l k v e in
    lines-write_each (write r l) ls k (write-IsRing r l v) (length-write r l ∙ e)
    ∙ ap (λ z. drop (length ls) (z ++ ls)) after
    ∙ ap (drop (length ls)) (append_assoc (lines_from r 1 k) (l ∷ []) ls)
    ∙ sym (ap (λ z. drop (suc (length ls)) (z ++ (l ∷ ls))) before)

lines_from-new : (i k : ℕ) → lines_from new_ring_log_buf i k ≡ replicate k []
unfolding lines_from line_at new_ring_log_buf
lines_from-new i zero = refl
lines_from-new i (suc k) =
    ap₂ (λ a b. a ∷ b) (get_or-replicate 512 ((0 + i) % length (replicate {A = Text} 512 [])) [])
      (lines_from-new (i + 1) k)

-- After any lines `ls`, the ring's lines are the last 512 of them, with empty ones before them at first.
pub lines-new :
    (ls : List Text)
    → lines (write_each new_ring_log_buf ls) ≡ drop (length ls) (replicate 512 [] ++ ls)
unfolding new_ring_log_buf lines
lines-new ls =
    lines-write_each new_ring_log_buf ls 511 (record { inside = omega arith }) refl
    ∙ ap (λ z. drop (length ls) (z ++ ls)) (lines_from-new 0 512)
