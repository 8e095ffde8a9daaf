-- ===== src/Sync/Replay.antt =====
-- The replay of the actions of another node.
use cserf.Prelude.{
  ℕ, ◌+◌, ◌<◌, ◌≡◌, refl, Bool, true, false, Option, none, some, List, [], ◌∷◌, Text, text_key,
  drop, All, arith, u64, Bool-cases, Option-cases, inl, inr,
}
use cserf.Buffer.{LItem}
use cserf.Messages.{MsgAction}
use cserf.Serf.{Serf, Env}
use cserf.Serf.Net.{handle_action, take_action}
use cserf.Serf.Net.Safety.{IsWell, take_action-Safe}
use cserf.Sync.{SentGroup, replayed_action, replay_items, replay_groups}

-- The codec gives back every action that it encodes.
pub record IsCodec (env : Env) : Type 0 where
  pub decodes :
      (a : MsgAction) (m : Text)
      → env.encode_action a ≡ some m
      → env.decode_action (drop 1 m) ≡ (true, a)

-- A pointer that is not nil.
abbrev pub IsPresent {ℓ} : {A : Type ℓ} → Option A → Type 0
IsPresent none = ⊥
IsPresent (some a) = Unit

-- A replay that returns leaves a well-formed node.
pub record Replayed (o : Option (Bool × Serf)) : Type 0 where
  pub failed : Bool
  pub after : Serf
  pub returns : o ≡ some (failed, after)
  pub well : IsWell after

module _ (env : Env) (codec : IsCodec env) where
  handle_replayed :
      (s : Serf) (a : MsgAction) (m : Text)
      → env.encode_action a ≡ some m
      → handle_action env s m ≡ take_action s a
  unfolding handle_action
  handle_replayed s a m e = rw (codec.decodes a m e)

  replay_items-Replayed :
      (t : ℕ) (is : List (Option LItem)) (s : Serf)
      → t + 1 < u64
      → All IsPresent is
      → IsWell s
      → Replayed (replay_items env t is s)
  unfolding replay_items
  replay_items-Replayed t [] s small set w = record {
    failed = false;
    after = s;
    returns = refl;
    well = w;
  }
  replay_items-Replayed t (none ∷ is) s small set w = absurd set.0
  replay_items-Replayed t (some i ∷ is) s small set w =
      elim (Option-cases (env.encode_action (replayed_action t i.payload))) [
        | inl e ↦ record { failed = true; after = s; returns = ground (arith, e); well = w }
        | inr (m, e) ↦
            let safe = take_action-Safe env s w (replayed_action t i.payload) small in
            let later = replay_items-Replayed t is safe.after small set.1 safe.well in
            record {
              failed = later.failed;
              after = later.after;
              returns = ground (
                arith,
                e,
                handle_replayed s (replayed_action t i.payload) m e,
                safe.returns,
                later.returns,
              );
              well = later.well;
            }
      ]

  pub replay_groups-Replayed :
      (gs : List SentGroup) (s : Serf)
      → All (λ (g : SentGroup). g.ltime + 1 < u64) gs
      → All (λ (g : SentGroup). All IsPresent g.items) gs
      → IsWell s
      → Replayed (replay_groups env gs s)
  unfolding replay_groups
  replay_groups-Replayed [] s h set w = record {
    failed = false;
    after = s;
    returns = refl;
    well = w;
  }
  replay_groups-Replayed (g ∷ gs) s h set w =
      let first = replay_items-Replayed g.ltime g.items s h.0 set.0 w in
      let later = replay_groups-Replayed gs first.after h.1 set.1 first.well in
      elim (Bool-cases first.failed) [
        | inl failed ↦ record {
          failed = true;
          after = first.after;
          returns = ground (arith, first.returns, failed);
          well = first.well;
        }
        | inr done ↦ record {
          failed = later.failed;
          after = later.after;
          returns = ground (arith, first.returns, done, later.returns);
          well = later.well;
        }
      ]
