-- ===== src/Serial/Ready.antt =====
-- The invariant of an endpoint that has sent its first byte.
use software_on_silicon.Base.{◌≡◌, ◌∙◌, false}
use software_on_silicon.Block.Sound.{IsSound}
use software_on_silicon.Serial.State.{Serial}

pub record IsReady (s : Serial) : Type 0 where
  pub started : s.first_run ≡ false
  pub sound : IsSound s.block

pub IsReady-same :
    (s t : Serial) → t.block ≡ s.block → t.first_run ≡ s.first_run → IsReady s → IsReady t
IsReady-same s t b f r = record { started = f ∙ r.started; sound = rw b r.sound }
