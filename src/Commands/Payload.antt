-- ===== src/Commands/Payload.antt =====
-- The payload of an action on the command line.
use cserf.Prelude.{
  ◌≡◌, ◌⊎◌, ap, Bool-cases, inl, inr, Option, none, [], ◌∷◌, Text, length, ltb, arith,
}
use cserf.Commands.{Ran, Reply, action_payload, send_action, action_command}

action_payload_lem :
    (name : Text)
    → (action_payload name [] ≡ none)
      ⊎ ((p : Text) → action_payload name (p ∷ []) ≡ action_payload name [])
unfolding action_payload
action_payload_lem name = elim (Bool-cases (ltb 1 (length name))) [
  | inl long ↦ inl (ground (arith, long))
  | inr short ↦ inr (λ p. ground (arith, short))
]

-- Under no name is the payload of `action` both optional and used: without a payload the command panics, before
-- it connects, or whatever payload is given is left out.
pub action_command_panics :
    (client : Option Text) (action : Text → Text → Reply Unit) (name : Text)
    → (action_command client action (name ∷ []) ≡ Ran.panicked [])
      ⊎ ((p : Text)
          → action_command client action (name ∷ p ∷ []) ≡ action_command client action (name ∷ []))
unfolding action_command send_action
action_command_panics client action name = elim (action_payload_lem name) [
  | inl long ↦ inl (ap (send_action client action name) long)
  | inr short ↦ inr (λ p. ap (send_action client action name) (short p))
]
