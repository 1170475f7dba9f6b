-- ===== src/Steering/Delivery.antt =====
-- A command's message reaches the model once, and only in the run that it was sent to.
use pyclaw.Prelude.{Text, ◌≡◌, refl, none, some, List, [], ◌∷◌, length, arith, text_key, ◌<◌}
use pyclaw.Prelude.Dict
use pyclaw.Prelude.Dict.{Dict}
use pyclaw.Steering.{SteerMessage, RunControl, SteerHook, drain, before_prompt_build, render}

-- While a run has pending messages, the next prompt gets all of them, rendered, and the one after gets none. The
-- rest of the control stays.
pub before_prompt_build-once :
    (xml_escape : Text → Text) (hook : SteerHook) (session_id : Text) {rc : RunControl}
    → Dict.get hook session_id ≡ some rc
    → 0 < length rc.pending_steers
    → (after : SteerHook) × (before_prompt_build xml_escape hook session_id
        ≡ (some (render xml_escape rc.pending_steers), after))
      × (Dict.get after session_id ≡ some (record rc { pending_steers = [] }))
      × (before_prompt_build xml_escape after session_id ≡ (none, after))
unfolding before_prompt_build
before_prompt_build-once xml_escape hook session_id {rc} g l = (
  after,
  rw (before_prompt_build, g) (delivers rc.pending_steers l),
  is_drained,
  rw (before_prompt_build, is_drained) (unfold drain in refl),
)
  where
    drained : RunControl
    drained = record rc { pending_steers = [] }

    after : SteerHook
    after = Dict.put hook session_id drained

    is_drained : Dict.get after session_id ≡ some drained
    is_drained = Dict.get-put_self hook session_id drained

    delivers :
        (ms : List SteerMessage)
        → 0 < length ms
        → drain xml_escape hook session_id rc ms ≡ (some (render xml_escape ms), after)
    delivers [] l = absurd (omega arith)
    delivers (m ∷ ms) l = unfold drain in refl
