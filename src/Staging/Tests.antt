-- ===== src/Staging/Tests.antt =====
-- A transfer that is answered with its own bytes.
use cc3501e_bridge_firmware.Base.{ℕ, ◌≡◌, List, [], ◌∷◌, take, arith}
use cc3501e_bridge_firmware.Frame.{frame_max_bytes}
use cc3501e_bridge_firmware.Staging.{Staging, cs_low, cs_high}
use cc3501e_bridge_firmware.Staging.Transfer.{clock_in, take_out, take_out-cs_high}

abbrev echo : ℕ → List ℕ → ℕ → List ℕ × ℕ
echo st frame room = (frame, 1)

abbrev stale : Staging
stale = record { rx = 9 ∷ []; tx = 9 ∷ 9 ∷ []; cursor = 1 }

abbrev frame : List ℕ
frame = 3 ∷ 1 ∷ 4 ∷ []

abbrev rooms : List ℕ
rooms = 2 ∷ 2 ∷ []

take_out-cs_high_example :
    (take_out (cs_high echo (clock_in (cs_low stale) frame) 0).0 rooms
      ≡ (echo 0 (take frame_max_bytes frame) frame_max_bytes).0)
    × ((cs_high echo (clock_in (cs_low stale) frame) 0).1
        ≡ (echo 0 (take frame_max_bytes frame) frame_max_bytes).1)
take_out-cs_high_example = take_out-cs_high echo stale 0 frame rooms (omega arith) (omega arith)
