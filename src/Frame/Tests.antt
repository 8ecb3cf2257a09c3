-- ===== src/Frame/Tests.antt =====
-- Frames under a routine that adds the bytes of a buffer up.
use cc3501e_bridge_firmware.Base.{ℕ, ◌+◌, ◌%◌, ◌^◌, ◌≡◌, some, List, [], ◌∷◌, arith}
use cc3501e_bridge_firmware.Wire.{ok, err_protocol}
use cc3501e_bridge_firmware.Bridge
use cc3501e_bridge_firmware.Bridge.{Bridge}
use cc3501e_bridge_firmware.Fixture.{bridge, update, code}
use cc3501e_bridge_firmware.Frame.{build_reply}
use cc3501e_bridge_firmware.Frame.Reply.{padding, read_reply}
use cc3501e_bridge_firmware.Frame.Exchange.{build_reply_rejects}

-- A dispatch that sends the payload back.
abbrev echo : Bridge → ℕ → ℕ → ℕ → List ℕ → ℕ → Bridge.Reply × ℕ
echo b d cmd flags payload room = ((ok, payload, b), d)

build_reply_rejects_example :
    (read_reply update ((build_reply update code echo bridge 4 (6 ∷ 0 ∷ 9 ∷ []) 64).0)
      ≡ some (6, 1, padding [] 64))
    × ((build_reply update code echo bridge 4 (6 ∷ 0 ∷ 9 ∷ []) 64).1 ≡ record bridge {
      frames_err = (bridge.frames_err + 1) % 2 ^ 32;
      last_error = err_protocol;
    })
    × ((build_reply update code echo bridge 4 (6 ∷ 0 ∷ 9 ∷ []) 64).2 ≡ 4)
build_reply_rejects_example =
    build_reply_rejects update echo code bridge 4 (6 ∷ 0 ∷ 9 ∷ []) 64 (omega arith) (omega arith)
      (λ h. omega (arith, h.1)) (λ h. omega (arith, h.0))
