-- ===== src/Pins.antt =====
-- src/protocol_gpio.c, src/protocol_camera.c and src/protocol_power.c: the handlers that drive the
-- board directly. tests/unit/transport_spi lays the two GPIO requests out.
use cc3501e_bridge_firmware.Base.{
  ℕ, Bool, not, List, [], ◌∷◌, ltb, ◌==◌, if◌then◌else◌, length, get_or,
}
use cc3501e_bridge_firmware.Wire.{
  Resp, ok, err_invalid, err_no_mem, HwRv, hw_to_resp, Layout, get_le32,
}
use cc3501e_bridge_firmware.Bridge.{Bridge, Reply}
use cc3501e_bridge_firmware.Board.{Board}
use cc3501e_bridge_firmware.Wifi.{with_data}

-- sizeof() of alp_cc3501e_gpio_configure_t and alp_cc3501e_gpio_write_t.
abbrev pub gpio_configure_bytes : ℕ
gpio_configure_bytes = 4

abbrev pub gpio_write_bytes : ℕ
gpio_write_bytes = 4

-- The reply of a handler that returns hw_to_resp() of a call.
abbrev pub returned : {Dev : Type 0} → Bridge → HwRv × Dev → Reply × Dev
returned b (rv, d) = ((hw_to_resp rv, [], b), d)

-- The byte that tells of the radio, where the policy was set and there is room.
unfoldable pub radio_reply : Resp → Bool → ℕ → Bridge → Reply
radio_reply ok radio room b =
    if ltb room 1 then (ok, [], b) else (ok, (if radio then 1 else 0) ∷ [], b)
radio_reply status radio room b = (status, [], b)

module _ {Dev : Type 0} (board : Board Dev) where
  unfoldable pub handle_gpio_configure : Bridge → Dev → List ℕ → Reply × Dev
  handle_gpio_configure b d req =
      if not (length req == gpio_configure_bytes)
      then ((err_invalid, [], b), d)
      else returned b (board.gpio_configure d (get_or req 0 0) (get_or req 1 0) (get_or req 2 0))

  unfoldable pub handle_gpio_write : Bridge → Dev → List ℕ → Reply × Dev
  handle_gpio_write b d req =
      if not (length req == gpio_write_bytes)
      then ((err_invalid, [], b), d)
      else returned b (board.gpio_write d (get_or req 0 0) (get_or req 1 0))

  unfoldable pub handle_gpio_read : Bridge → Dev → List ℕ → ℕ → Reply × Dev
  handle_gpio_read b d req room =
      let (rv, level, d') = board.gpio_read d (get_or req 0 0) in
      if not (length req == 1)
      then ((err_invalid, [], b), d)
      else if ltb room 1
      then ((err_no_mem, [], b), d)
      else (with_data (hw_to_resp rv) (level ∷ []) b, d')

  unfoldable pub handle_gpio_set_interrupt : Layout → Bridge → Dev → List ℕ → Reply × Dev
  handle_gpio_set_interrupt w b d req =
      if not (length req == w.set_interrupt_bytes)
      then ((err_invalid, [], b), d)
      else returned b (
          board.gpio_set_interrupt d (get_or req 0 0) (get_or req w.edge_at 0)
            (get_or req w.enabled_at 0))

  unfoldable pub handle_cam_enable : Bridge → Dev → List ℕ → Reply × Dev
  handle_cam_enable b d req =
      if not (length req == 1)
      then ((err_invalid, [], b), d)
      else returned b (board.cam_enable d (get_or req 0 0) 1)

  unfoldable pub handle_cam_disable : Bridge → Dev → List ℕ → Reply × Dev
  handle_cam_disable b d req =
      if not (length req == 1)
      then ((err_invalid, [], b), d)
      else returned b (board.cam_enable d (get_or req 0 0) 0)

  unfoldable pub handle_power_policy : Bridge → Dev → List ℕ → ℕ → Reply × Dev
  handle_power_policy b d req room =
      let (rv, d') = board.set_power_policy d (get_or req 0 0) (get_or req 1 0) (get_le32 req 4) in
      if not (length req == 8)
      then ((err_invalid, [], b), d)
      else (radio_reply (hw_to_resp rv) (board.power_radio_ok d') room b, d')
