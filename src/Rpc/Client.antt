-- ===== src/Rpc/Client.antt =====
-- rpc/client/client.go: what a client sends with each call, and how it reads the answers to a query; with
-- rpc/server/utils.go. gRPC, TLS and bcrypt are parameters. The calls that only pass a request on to gRPC are
-- left out.
pub mod Answers
mod Tests
use cserf.Prelude.{
  ℕ, zero, suc, Bool, true, false, ◌||◌, Option, none, some, List, [], ◌∷◌, Text, bytes,
  if◌then◌else◌,
}

-- The errors of a gRPC stream that `ShouldStopStreaming` tells apart: a status with the code `Unavailable`,
-- `io.EOF`, and the rest.
pub data StreamError : Type 0 where
  unavailable eof other : StreamError

abbrev is_unavailable : StreamError → Bool
is_unavailable unavailable = true
is_unavailable _ = false

abbrev is_eof : StreamError → Bool
is_eof eof = true
is_eof _ = false

unfoldable pub should_stop_streaming : StreamError → Bool
should_stop_streaming err = is_unavailable err || is_eof err

-- `HashPwd` and `ComparePwdAndHash`; `generate` and `compare` are bcrypt's.
pub record Bcrypt : Type 0 where
  pub generate : Text → Option Text
  pub accepts : Text → Text → Bool

unfoldable pub hash_pwd : Bcrypt → Text → Option Text
hash_pwd b pwd = b.generate pwd

unfoldable pub compare_pwd_and_hash : Bcrypt → Text → Text → Bool
compare_pwd_and_hash b pwd hash = b.accepts hash pwd

-- `GetRequestMetadata`: the values under each key.
unfoldable pub get_request_metadata : Text → List (Text × List Text)
get_request_metadata auth_key = (bytes "authkey", auth_key ∷ []) ∷ []

-- What `stream.Recv` returns.
pub data Recv : Type 0 where
  value : Text → Recv
  fails : StreamError → Recv

abbrev pub cons_answer : Text → Option (List Text) → Option (List Text)
cons_answer t none = none
cons_answer t (some ts) = some (t ∷ ts)

-- The goroutine of `Query` from the `i`-th call of `Recv` on: the answers that it sends before it closes the
-- channel. `none` means that the fuel, the number of calls, ran out.
unfoldable pub receive_answers : ℕ → (ℕ → Recv) → ℕ → Option (List Text)
unfolding should_stop_streaming
receive_answers zero recv i = none
receive_answers (suc fuel) recv i =
    let rest = receive_answers fuel recv (suc i) in
    elim (recv i) [
      | value t ↦ cons_answer t rest
      | fails err ↦ if should_stop_streaming err then some [] else rest
    ]
