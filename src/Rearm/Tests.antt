-- ===== src/Rearm/Tests.antt =====
-- Three ticks of a quiet link, with one transfer between the last two.
use cc3501e_bridge_firmware.Base.{◌+◌, ◌≤◌, refl, true, false, [], ◌∷◌}
use cc3501e_bridge_firmware.Rearm.{RearmState, Tick}
use cc3501e_bridge_firmware.Rearm.Once.{fires, moves, fires_le_moves}

abbrev unlatched : RearmState
unlatched = record { healed_pending = false; heal_fired_xfer_count = 0 }

abbrev quiet : Tick
quiet = record { at_idle_header = true; quiet_ms = 4000; rearm_ms = 3000; xfer_count = 7 }

abbrev quiet_again : Tick
quiet_again = record { at_idle_header = true; quiet_ms = 3500; rearm_ms = 3000; xfer_count = 8 }

fires_le_moves_example :
    fires unlatched (quiet ∷ quiet ∷ quiet_again ∷ [])
    ≤ moves 7 (quiet ∷ quiet ∷ quiet_again ∷ []) + 1
fires_le_moves_example = fires_le_moves unlatched 7 (quiet ∷ quiet ∷ quiet_again ∷ []) refl
