-- ===== src/Build/Tests.antt =====
-- A node that is built on a small file.
use cserf.Prelude.{ℕ, refl, none, some, List, [], ◌∷◌, Text, bytes, arith, ◌≡◌}
use cserf.Coordinate.Fixtures.{small}
use cserf.Messages.{MsgAction, on_action}
use cserf.Snapshot.Lines.{IsWord}
use cserf.Snapshot.Receive.{Signal}
use cserf.Build.{Config, Outside, BuildError, failed, build, default_config}
use cserf.Build.Resume.{Starts, Resumes, resume_lem}
use cserf.Tags.{encode_tags}

-- Stands in for `String` of `net.TCPAddr`.
abbrev tcp_addr : Text → ℕ → Text
tcp_addr ip port = bytes "10.0.0.1:7"

tcp_addr-IsWord : (ip : Text) (port : ℕ) → IsWord (tcp_addr ip port)
tcp_addr-IsWord ip port = ground arith

abbrev outside : Outside small
outside = record {
  file = none;
  codec = λ m. some [];
  ping = none;
  build_memberlist = λ b. some (bytes "n");
  advertise = some (bytes "10.0.0.2:7");
  draw = λ i. i;
}

abbrev config : Config
config = record default_config { l_buffer_size = 4 }

starts : Starts small outside config
unfolding encode_tags
starts = record {
  limit = refl;
  buffer = omega arith;
  tags = 255 ∷ [];
  encodes = refl;
  id = bytes "n";
  builds = refl;
  addr = bytes "10.0.0.2:7";
  advertises = refl;
}

abbrev action : ℕ → MsgAction
action t = record { ltime = t; name = bytes "deploy"; payload = none }

abbrev signals : List Signal
signals =
    Signal.on_event (on_action (record { ltime = 12; name = []; payload = none }))
    ∷ Signal.on_event (on_action (record { ltime = 7; name = []; payload = none }))
    ∷ []

resume_lem_example :
    Resumes small tcp_addr 30 signals outside config (action 13) (action 12 ∷ action 14 ∷ [])
resume_lem_example =
    resume_lem small tcp_addr tcp_addr-IsWord 30 signals outside config (action 13)
      (action 12 ∷ action 14 ∷ []) (omega arith) (omega arith) starts (omega arith)

-- Without a file the node is not built, and nothing is left running.
no_file : build small outside config ≡ failed BuildError.snapshot_error []
unfolding build
no_file = refl
