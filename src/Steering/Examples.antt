-- ===== src/Steering/Examples.antt =====
-- A run with one pending message.
use pyclaw.Prelude.{codes, ◌≤◌, refl, true, false, List, [], ◌∷◌, length, text_key}
use pyclaw.Steering.{
  Kind, SteerMessage, RunControl, cap_chars, total_chars, drop_count, drop_chars, enforce_cap,
  SteerHook,
}
use pyclaw.Steering.Cap.{IsSuffix, Fits, enforce_cap-Fits}

abbrev go : SteerMessage
go = record { kind = Kind.steer; text = codes "go" }

abbrev running : RunControl
running = record {
  aborted = false;
  active = true;
  chat_done_handled_externally = false;
  pending_steers = go ∷ go ∷ go ∷ go ∷ go ∷ [];
}

abbrev four_left : RunControl
four_left = record running { pending_steers = go ∷ go ∷ go ∷ go ∷ [] }

enforce_cap-Fits_example :
    (length (codes "stop") ≤ cap_chars)
    × IsSuffix four_left.pending_steers running.pending_steers
    × Fits (length (codes "stop")) four_left.pending_steers
    × ((s : List SteerMessage)
        → IsSuffix s running.pending_steers
        → Fits (length (codes "stop")) s
        → IsSuffix s four_left.pending_steers)
unfolding enforce_cap drop_count drop_chars total_chars
enforce_cap-Fits_example = enforce_cap-Fits running (codes "stop") {after = four_left} refl

abbrev hook : SteerHook
hook = (codes "s", four_left) ∷ []
