-- ===== src/Dispatch/Fits.antt =====
-- Every handler keeps to the room that it is given.
use cc3501e_bridge_firmware.Base.{
  ℕ, ◌≤◌, Bool, true, false, List, [], ◌∷◌, ◌==◌, length, get_or, take, overwrite, length-take,
  if◌then◌else◌, arith,
}
use cc3501e_bridge_firmware.Wire.{
  Resp, ok, err_invalid, err_busy, err_no_mem, err_not_ready, err_radio, err_protocol, err_state,
  HwRv, hw_ok, hw_busy, hw_notimpl, hw_io, hw_inval, hw_state, hw_no_mem, hw_to_resp, get_le32,
  Layout,
}
use cc3501e_bridge_firmware.Bridge.{Bridge}
use cc3501e_bridge_firmware.Board.{Board}
use cc3501e_bridge_firmware.EventRing
use cc3501e_bridge_firmware.EventRing.Invariant.{IsValid}
use cc3501e_bridge_firmware.EventRing.Drain.{drain-collect}
use cc3501e_bridge_firmware.Meta.{Build}
use cc3501e_bridge_firmware.Diag.{diag_info, handle_get_diag_info, handle_get_pending_events}
use cc3501e_bridge_firmware.OtaCmds.{
  armed_reply, switch_mode, handle_ota_update_mode, ota_status_reply, handle_ota_status,
}
use cc3501e_bridge_firmware.Pins.{handle_gpio_read, radio_reply, handle_power_policy}
use cc3501e_bridge_firmware.Wifi.{join_cmd, wifi_join, with_data, serve_ip, handle_wifi_get_ip}
use cc3501e_bridge_firmware.Routed.Fits.{Fits, handle_worker_routed_payload-Fits}

-- What leaves OK's data with OK alone.
with_data-Fits :
    (status : Resp) (bytes : List ℕ) (b : Bridge) (room : ℕ)
    → length bytes ≤ room
    → Fits (with_data status bytes b) room
unfolding with_data
with_data-Fits ok bytes b room h = h
with_data-Fits err_invalid bytes b room h = omega arith
with_data-Fits err_busy bytes b room h = omega arith
with_data-Fits err_no_mem bytes b room h = omega arith
with_data-Fits err_not_ready bytes b room h = omega arith
with_data-Fits err_radio bytes b room h = omega arith
with_data-Fits err_protocol bytes b room h = omega arith
with_data-Fits err_state bytes b room h = omega arith

radio_reply-Fits :
    (status : Resp) (radio : Bool) (room : ℕ) (b : Bridge)
    → Fits (radio_reply status radio room b) room
unfolding radio_reply
radio_reply-Fits ok radio room b = ground arith
radio_reply-Fits err_invalid radio room b = omega arith
radio_reply-Fits err_busy radio room b = omega arith
radio_reply-Fits err_no_mem radio room b = omega arith
radio_reply-Fits err_not_ready radio room b = omega arith
radio_reply-Fits err_radio radio room b = omega arith
radio_reply-Fits err_protocol radio room b = omega arith
radio_reply-Fits err_state radio room b = omega arith

armed_reply-Fits :
    (b : Bridge) (bytes : List ℕ) (armed : Bool) (room : ℕ)
    → length bytes ≤ room
    → Fits (armed_reply b bytes armed) room
unfolding armed_reply
armed_reply-Fits b bytes true room h = h
armed_reply-Fits b bytes false room h = h

pub handle_get_pending_events-Fits :
    (b : Bridge) (req : List ℕ) (room : ℕ)
    → IsValid b.events
    → Fits (handle_get_pending_events b req room) room
unfolding handle_get_pending_events
handle_get_pending_events-Fits b req room v =
    let l : length (EventRing.drain b.events room).0 ≤ room = (drain-collect b.events room v).2 in
    ground arith

module _ {Dev : Type 0} (board : Board Dev) where
  pub handle_wifi_get_ip-Fits :
      (w : Layout) (b : Bridge) (d : Dev) (req : List ℕ) (room : ℕ)
      → Fits (handle_wifi_get_ip board w b d req room).0 room
  unfolding handle_wifi_get_ip serve_ip
  handle_wifi_get_ip-Fits w b d req room =
      let iface = if length req == 1 then get_or req 0 0 else w.iface_sta in
      let (rv, ip, d') = board.wifi_get_ip d iface in
      let zeros : List ℕ = 0 ∷ 0 ∷ 0 ∷ 0 ∷ [] in
      let sent = take 4 (overwrite zeros ip) in
      let small = length-take 4 (overwrite zeros ip) in
      ground (arith, small, with_data-Fits (hw_to_resp rv) sent b room)

  pub handle_gpio_read-Fits :
      (b : Bridge) (d : Dev) (req : List ℕ) (room : ℕ)
      → Fits (handle_gpio_read board b d req room).0 room
  unfolding handle_gpio_read
  handle_gpio_read-Fits b d req room =
      let level = (board.gpio_read d (get_or req 0 0)).1 in
      let status = hw_to_resp (board.gpio_read d (get_or req 0 0)).0 in
      ground (arith, with_data-Fits status (level ∷ []) b room)

  pub handle_power_policy-Fits :
      (b : Bridge) (d : Dev) (req : List ℕ) (room : ℕ)
      → Fits (handle_power_policy board b d req room).0 room
  unfolding handle_power_policy
  handle_power_policy-Fits b d req room =
      let (rv, d') = board.set_power_policy d (get_or req 0 0) (get_or req 1 0) (get_le32 req 4) in
      ground (arith, radio_reply-Fits (hw_to_resp rv) (board.power_radio_ok d') room b)

  pub handle_get_diag_info-Fits :
      (config : Build) (code : Resp → ℕ) (b : Bridge) (d : Dev) (req : List ℕ) (room : ℕ)
      → Fits (handle_get_diag_info board config code b d req room) room
  unfolding handle_get_diag_info diag_info
  handle_get_diag_info-Fits config code b d req room = ground arith

  ota_status_reply-Fits :
      (b : Bridge) (d : Dev) (rv : HwRv) (state written total : ℕ) (room : ℕ)
      → 16 ≤ room
      → Fits (ota_status_reply board b d (rv, state, written, total)) room
  unfolding ota_status_reply
  ota_status_reply-Fits b d hw_ok state written total room h = omega arith
  ota_status_reply-Fits b d hw_busy state written total room h = omega arith
  ota_status_reply-Fits b d hw_notimpl state written total room h = omega arith
  ota_status_reply-Fits b d hw_io state written total room h = omega arith
  ota_status_reply-Fits b d hw_inval state written total room h = omega arith
  ota_status_reply-Fits b d hw_state state written total room h = omega arith
  ota_status_reply-Fits b d hw_no_mem state written total room h = omega arith

  pub handle_ota_status-Fits :
      (b : Bridge) (d : Dev) (req : List ℕ) (room : ℕ)
      → Fits (handle_ota_status board b d req room) room
  unfolding handle_ota_status
  handle_ota_status-Fits b d req room =
      let s = board.ota_status d in ground (arith, ota_status_reply-Fits b d s.0 s.1 s.2 s.3 room)

  switch_mode-Fits :
      (b : Bridge) (d : Dev) (bytes : List ℕ) (now want : Bool) (room : ℕ)
      → length bytes ≤ room
      → Fits (switch_mode board b d bytes now want).0 room
  unfolding switch_mode
  switch_mode-Fits b d bytes true true room h = h
  switch_mode-Fits b d bytes false false room h = h
  switch_mode-Fits b d bytes true false room h =
      armed_reply-Fits b bytes (board.spi_clear_polled_boot d).0 room h
  switch_mode-Fits b d bytes false true room h =
      armed_reply-Fits b bytes (board.spi_request_polled_boot d).0 room h

  pub handle_ota_update_mode-Fits :
      (b : Bridge) (d : Dev) (req : List ℕ) (room : ℕ)
      → Fits (handle_ota_update_mode board b d req room).0 room
  unfolding handle_ota_update_mode
  handle_ota_update_mode-Fits b d req room =
      let now = board.spi_polled d in
      let bytes : List ℕ = (if now then 1 else 0) ∷ (board.ota_status d).1 ∷ 0 ∷ 0 ∷ [] in
      ground (arith, switch_mode-Fits b d bytes now (get_or req 0 0 == 1) room)

-- A request of the wrong length gets no data, nor does a call that only returns its result.
module _ (w : Layout) {Dev : Type 0} (board : Board Dev) (b : Bridge) (d : Dev) (req : List ℕ)
    (room : ℕ) where
  pub wifi_join-Fits : (ap : Bool) → Fits (wifi_join w b req ap) room
  unfolding wifi_join
  wifi_join-Fits ap = ground (arith, handle_worker_routed_payload-Fits b (join_cmd ap) req room)
