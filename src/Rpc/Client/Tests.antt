-- ===== src/Rpc/Client/Tests.antt =====
-- A stream of two answers with an error between them, and one whose deadline has passed.
use cserf.Prelude.{ℕ, zero, suc, false, ◌<◌, ◌≡◌, refl, none, [], ◌∷◌, bytes, arith}
use cserf.Rpc.Client.{StreamError, Recv, value, fails, receive_answers, should_stop_streaming}
use cserf.Rpc.Client.Answers.{is_end, values, receive_answers_spins}

abbrev recv : ℕ → Recv
recv zero = value (bytes "a")
recv (suc zero) = fails StreamError.other
recv (suc (suc zero)) = value (bytes "b")
recv (suc (suc (suc n))) = fails StreamError.eof

going : (j : ℕ) → j < 3 → is_end (recv j) ≡ false
unfolding should_stop_streaming
going zero h = refl
going (suc zero) h = refl
going (suc (suc zero)) h = refl
going (suc (suc (suc n))) h = absurd (omega arith)

both : values 3 recv 0 ≡ bytes "a" ∷ bytes "b" ∷ []
both = refl

abbrev late : ℕ → Recv
late n = fails StreamError.other

receive_answers_spins_example : receive_answers 100 late 0 ≡ none
receive_answers_spins_example = receive_answers_spins late (λ j e. cc) (λ j e. cc) 100 0
