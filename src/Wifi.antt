-- ===== src/Wifi.antt =====
-- src/protocol_wifi.c: the handlers of the Wi-Fi opcodes.
use cc3501e_bridge_firmware.Base.{
  ℕ, ◌+◌, ◌%◌, Bool, true, false, not, ◌&&◌, List, [], ◌∷◌, ltb, ◌==◌, if◌then◌else◌, length,
  get_or, take, overwrite,
}
use cc3501e_bridge_firmware.Wire
use cc3501e_bridge_firmware.Wire.{Cmd, Resp, ok, err_invalid, err_no_mem, HwRv, hw_to_resp, Layout}
use cc3501e_bridge_firmware.Bridge.{Bridge, Reply}
use cc3501e_bridge_firmware.Board.{Board}
use cc3501e_bridge_firmware.Routed.{handle_worker_routed, handle_worker_routed_payload}

unfoldable pub handle_wifi_scan_start : Bridge → List ℕ → ℕ → Reply
handle_wifi_scan_start b req room = handle_worker_routed b Wire.wifi_scan_start 0 (length req) room

-- The command that wifi_join() routes.
abbrev pub join_cmd : Bool → Cmd
join_cmd true = Wire.wifi_ap_start
join_cmd false = Wire.wifi_connect_sta

-- wifi_join(): a connect, or with `ap` an access point.
unfoldable pub wifi_join : Layout → Bridge → List ℕ → Bool → Reply
wifi_join w b req ap =
    if ltb (length req) w.wifi_connect_bytes
    then (err_invalid, [], b)
    else if not (
        length req == w.wifi_connect_bytes + get_or req w.ssid_len_at 0 + get_or req w.psk_len_at 0)
    then (err_invalid, [], b)
    else handle_worker_routed_payload b (join_cmd ap) req

unfoldable pub handle_wifi_connect_sta : Layout → Bridge → List ℕ → Reply
handle_wifi_connect_sta w b req = wifi_join w b req false

unfoldable pub handle_wifi_ap_start : Layout → Bridge → List ℕ → Reply
handle_wifi_ap_start w b req = wifi_join w b req true

unfoldable pub handle_wifi_disconnect : Bridge → List ℕ → ℕ → Reply
handle_wifi_disconnect b req room =
    if not (length req == 0)
    then (err_invalid, [], b)
    else handle_worker_routed b Wire.wifi_disconnect 0 (length req) room

unfoldable pub handle_wifi_ap_stop : Bridge → List ℕ → ℕ → Reply
handle_wifi_ap_stop b req room = handle_worker_routed b Wire.wifi_ap_stop 0 (length req) room

unfoldable pub handle_wifi_get_rssi : Bridge → List ℕ → ℕ → Reply
handle_wifi_get_rssi b req room = handle_worker_routed b Wire.wifi_get_rssi 1 (length req) room

-- The reply of a getter: its data go out with OK alone.
unfoldable pub with_data : Resp → List ℕ → Bridge → Reply
with_data ok bytes b = (ok, bytes, b)
with_data status bytes b = (status, [], b)

module _ {Dev : Type 0} (board : Board Dev) where
  unfoldable pub handle_wifi_scan_stop : Bridge → Dev → List ℕ → Reply × Dev
  handle_wifi_scan_stop b d req =
      let (rv, d') = board.wifi_scan_stop d in
      if not (length req == 0) then ((err_invalid, [], b), d) else ((hw_to_resp rv, [], b), d')

  -- The call for the address, into four zero bytes.
  unfoldable pub serve_ip : Bridge → Dev → ℕ → Reply × Dev
  serve_ip b d iface =
      let (rv, ip, d') = board.wifi_get_ip d iface in
      (with_data (hw_to_resp rv) (take 4 (overwrite (0 ∷ 0 ∷ 0 ∷ 0 ∷ []) ip)) b, d')

  unfoldable pub handle_wifi_get_ip : Layout → Bridge → Dev → List ℕ → ℕ → Reply × Dev
  handle_wifi_get_ip w b d req room =
      let iface = if length req == 1 then get_or req 0 0 else w.iface_sta in
      if ltb 1 (length req)
      then ((err_invalid, [], b), d)
      else if not (iface == w.iface_sta) && not (iface == w.iface_ap)
      then ((err_invalid, [], b), d)
      else if ltb room 4
      then ((err_no_mem, [], b), d)
      else serve_ip b d iface

  unfoldable pub handle_wifi_status : Bridge → Dev → List ℕ → ℕ → Reply × Dev
  handle_wifi_status b d req room =
      let ((state, fail_reason, rssi), d') = board.wifi_conn_status d in
      if not (length req == 0)
      then ((err_invalid, [], b), d)
      else if ltb room 4
      then ((err_no_mem, [], b), d)
      else ((ok, state ∷ fail_reason ∷ rssi ∷ board.wifi_last_reason d' % 256 ∷ [], b), d')
