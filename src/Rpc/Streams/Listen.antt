-- ===== src/Rpc/Streams/Listen.antt =====
-- What a listener to the log receives.
use cserf.Prelude.{
  ℕ, zero, suc, ◌≤◌, ◌≡◌, ◌≢◌, refl, sym, ap, ◌∙◌, Bool, Option, none, some, List, [], ◌∷◌, ◌++◌,
  append_assoc, append-nil, Text, nat_key, Dict, get, get-put, length, length-append, take, drop,
  map, replicate, All, if◌then◌else◌, ltb, arith, Bool-cases, inl, inr,
}
use cserf.Rpc.{new_ring_log_buf, dump}
use cserf.Rpc.Streams.{
  LogStreamer, LogStreamManager, new_log_stream_manager, stream, stream_each, stream_all, register,
  write_line, write_log, strip_newline,
}
use cserf.Rpc.Streams.Window.{skip_empty, dump-lines, write_each, lines-new}

-- The lines that pass the listener's filter.
unfoldable pub keep : (Text → Bool) → List Text → List Text
keep check [] = []
keep check (l ∷ ls) = let rest = keep check ls in if check l then l ∷ rest else rest

take-full : (n : ℕ) (xs ys : List Text) → length xs ≡ n → take n (xs ++ ys) ≡ xs
take-full zero [] [] h = refl
take-full zero [] (y ∷ ys) h = refl
take-full zero (x ∷ xs) ys h = absurd (omega (arith, h))
take-full (suc n) [] ys h = absurd (omega (arith, h))
take-full (suc n) (x ∷ xs) ys h = ap (λ z. x ∷ z) (take-full n xs ys (omega arith))

take-all : (n : ℕ) (xs : List Text) → length xs ≤ n → take n xs ≡ xs
take-all zero [] h = refl
take-all zero (x ∷ xs) h = absurd (omega arith)
take-all (suc n) [] h = refl
take-all (suc n) (x ∷ xs) h = ap (λ z. x ∷ z) (take-all n xs (omega arith))

-- A channel takes lines until it is full.
stream_each_lem :
    (s : LogStreamer) (ls : List Text)
    → length s.log_ch ≤ s.capacity
    → stream_each s ls ≡ record s { log_ch = take s.capacity (s.log_ch ++ keep s.check ls) }
unfolding stream_each stream keep
stream_each_lem s [] h =
    ap (λ z. record s { log_ch = z })
      (sym (ap (take s.capacity) (append-nil s.log_ch) ∙ take-all s.capacity s.log_ch h))
stream_each_lem s (l ∷ ls) h = elim (Bool-cases (s.check l)) [
  | inr skipped ↦ rw skipped (stream_each_lem s ls h)
  | inl passed ↦ elim (Bool-cases (ltb (length s.log_ch) s.capacity)) [
    | inl room ↦
        rw (passed, room)
          (stream_each_lem (record s { log_ch = s.log_ch ++ (l ∷ []) }) ls
              (ground (arith, room, length-append s.log_ch (l ∷ [])))
            ∙ ap (λ z. record s { log_ch = take s.capacity z })
                (append_assoc s.log_ch (l ∷ []) (keep s.check ls)))
    | inr full ↦
        rw (passed, full)
          (stream_each_lem s ls h
            ∙ ap (λ z. record s { log_ch = z })
                (take-full s.capacity s.log_ch (keep s.check ls) (ground (arith, full))
                  ∙ sym
                      (take-full s.capacity s.log_ch (l ∷ keep s.check ls) (ground (arith, full)))))
  ]
]

-- The lines without their line feeds, one after the other.
unfoldable pub write_logs : LogStreamManager → List Text → Option LogStreamManager
write_logs m [] = some m
write_logs m (p ∷ ps) = elim (write_log m p) [ none ↦ none | some m' ↦ write_logs m' ps ]

write_lines : LogStreamManager → List Text → LogStreamManager
write_lines m [] = m
write_lines m (l ∷ ls) = write_lines (write_line m l) ls

write_logs-some :
    (m : LogStreamManager) (ps : List Text)
    → All (λ p. p ≢ []) ps
    → write_logs m ps ≡ some (write_lines m (map strip_newline ps))
unfolding write_logs write_lines write_log
write_logs-some m [] h = refl
write_logs-some m ([] ∷ ps) h = absurd (h.0 refl)
write_logs-some m ((c ∷ p) ∷ ps) h = write_logs-some (write_line m (strip_newline (c ∷ p))) ps (h.1)

abbrev streamed : Text → Option LogStreamer → Option LogStreamer
streamed l none = none
streamed l (some s) = some (stream s l)

get-stream_all :
    (m : Dict ℕ LogStreamer) (h : ℕ) (l : Text) → get (stream_all m l) h ≡ streamed l (get m h)
unfolding get stream_all
get-stream_all [] h l = refl
get-stream_all ((j, s) ∷ m) h l = ground (arith, get-stream_all m h l)

buf-write_lines :
    (m : LogStreamManager) (ls : List Text) → (write_lines m ls).buf ≡ write_each m.buf ls
unfolding write_lines write_line write_each
buf-write_lines m [] = refl
buf-write_lines m (l ∷ ls) = buf-write_lines (write_line m l) ls

get-write_lines :
    (m : LogStreamManager) (ls : List Text) (h : ℕ) (s : LogStreamer)
    → get m.streamer_map h ≡ some s
    → get (write_lines m ls).streamer_map h ≡ some (stream_each s ls)
unfolding write_lines write_line stream_each
get-write_lines m [] h s e = e
get-write_lines m (l ∷ ls) h s e =
    get-write_lines (write_line m l) ls h (stream s l)
      (get-stream_all m.streamer_map h l ∙ ap (streamed l) e)

get-register :
    (m : LogStreamManager) (h : ℕ) (s : LogStreamer)
    → get (register m h s).streamer_map h ≡ some (stream_each s (dump m.buf))
unfolding register
get-register m h s = ground (arith, get-put m.streamer_map h h (stream_each s (dump m.buf)))

stream_each-append :
    (s : LogStreamer) (ls ms : List Text)
    → stream_each (stream_each s ls) ms ≡ stream_each s (ls ++ ms)
unfolding stream_each
stream_each-append s [] ms = refl
stream_each-append s (l ∷ ls) ms = stream_each-append (stream s l) ls ms

-- The lines that a new ring dumps after the lines `ls`: the last 512, without the empty ones.
abbrev pub remembered : List Text → List Text
remembered ls = skip_empty (drop (length ls) (replicate 512 [] ++ ls))

remembered_lem : (ls : List Text) → dump (write_lines new_log_stream_manager ls).buf ≡ remembered ls
unfolding new_log_stream_manager
remembered_lem ls =
    ap dump (buf-write_lines new_log_stream_manager ls)
    ∙ dump-lines (write_each new_ring_log_buf ls)
    ∙ ap skip_empty (lines-new ls)

-- Who starts to listen gets every line once and in order: of a new manager that wrote the lines `ps` before
-- and `qs` after the registration, none of them empty, the listener's channel holds what it held, then the
-- last 512 lines of `ps`, without those that are only a line feed, and then all of `qs`: the ones that pass
-- its filter, without their line feeds, as far as the channel's capacity goes. No write panics.
pub listen_lem :
    (ps qs : List Text) (h : ℕ) (s : LogStreamer)
    → All (λ p. p ≢ []) ps
    → All (λ p. p ≢ []) qs
    → length s.log_ch ≤ s.capacity
    → (m m' : LogStreamManager) × (write_logs new_log_stream_manager ps ≡ some m)
      × (write_logs (register m h s) qs ≡ some m')
      × (get m'.streamer_map h
          ≡ some (record s {
            log_ch = take s.capacity (
                s.log_ch
                ++ keep s.check (remembered (map strip_newline ps) ++ map strip_newline qs));
          }))
listen_lem ps qs h s some_p some_q fits =
    let before = write_lines new_log_stream_manager (map strip_newline ps) in
    let after = map strip_newline qs in
    (
      before,
      write_lines (register before h s) after,
      write_logs-some new_log_stream_manager ps some_p,
      write_logs-some (register before h s) qs some_q,
      get-write_lines (register before h s) after h (stream_each s (dump before.buf))
            (get-register before h s)
          ∙ ap some (stream_each-append s (dump before.buf) after)
          ∙ ap (λ z. some (stream_each s (z ++ after))) (remembered_lem (map strip_newline ps))
          ∙ ap some (stream_each_lem s (remembered (map strip_newline ps) ++ after) fits),
    )
