-- ===== src/Rpc/Requests/Tests.antt =====
-- Requests to the server on small inputs.
use cserf.Prelude.{
  ℕ, ◌≡◌, refl, Bool, none, some, [], ◌∷◌, bytes, Text, get, text_key, arith, text_eq,
}
use cserf.Messages.{on_action}
use cserf.Buffer.{slice_bytes}
use cserf.Decimal.{print_u64, print_digits}
use cserf.Coordinate.Fixtures.{small, config, sane}
use cserf.Coordinate.Run.{initial, initial-IsSound}
use cserf.Ping.{PingDelegate}
use cserf.Ping.Cache.{IsGood}
use cserf.Rpc.Streams.{strip_newline}
use cserf.Rpc.Requests.{Reply, auth_interceptor, response_lines, serve_query}
use cserf.Rpc.Requests.Print.{event_to_string, action_event_to_string, Printer}

abbrev delegate : PingDelegate small
delegate = record { id = bytes "a"; coord = initial small config; coord_cache = [] }

delegate-IsGood : IsGood small config sane delegate
unfolding get
delegate-IsGood = record {
  sound = initial-IsSound small config sane;
  cached = λ k c h. ground (arith, h);
}

-- Only stands in for bcrypt.
abbrev same : Text → Text → Bool
same = text_eq

admits :
    (auth_interceptor {A = ℕ} same (bytes "k") (some ((bytes "authkey", bytes "k" ∷ []) ∷ [])) 7
      ≡ Reply.handled 7)
    × (auth_interceptor {A = ℕ} same (bytes "k") (some ((bytes "authkey", []) ∷ [])) 7
        ≡ Reply.invalid_authkey)
    × (auth_interceptor {A = ℕ} same (bytes "k") none 7 ≡ Reply.missing_metadata)
unfolding auth_interceptor get
admits = (refl, refl, refl)

answers :
    serve_query none (record { from = bytes "b"; payload = some (111 ∷ 107 ∷ 10 ∷ []) } ∷ [])
    ≡ some (bytes "response from b: ok" ∷ bytes "total number of responses: 1" ∷ [])
unfolding serve_query response_lines slice_bytes strip_newline print_u64 print_digits
answers = refl

printed :
    (pr : Printer)
    → event_to_string pr (on_action (record { ltime = 12; name = bytes "up"; payload = none }))
      ≡ bytes "action 12 - up - "
unfolding event_to_string action_event_to_string slice_bytes print_u64 print_digits
printed pr = refl
