-- ===== src/Dispatch/Room.antt =====
-- The dispatch keeps to the room that it is given, whatever the opcode.
use cc3501e_bridge_firmware.Base.{
  ℕ, ◌≤◌, true, false, ◌&&◌, if◌then◌else◌, Option, none, some, List, ◌==◌, length, arith,
}
use cc3501e_bridge_firmware.Wire
use cc3501e_bridge_firmware.Wire.{Cmd, Resp, Layout, get_le16}
use cc3501e_bridge_firmware.Bridge.{Bridge}
use cc3501e_bridge_firmware.Board.{Board}
use cc3501e_bridge_firmware.EventRing.Invariant.{IsValid}
use cc3501e_bridge_firmware.Meta.{
  Build, Caps, handle_ping, handle_get_version, handle_get_mac, handle_get_capabilities,
  handle_stream_write, handle_reset,
}
use cc3501e_bridge_firmware.Diag.{handle_diag_get_stats, handle_diag_log_level}
use cc3501e_bridge_firmware.OtaCmds.{
  handle_ota_begin, handle_ota_write, handle_ota_finish, handle_ota_abort, handle_ota_promote,
}
use cc3501e_bridge_firmware.Pins.{
  handle_gpio_configure, handle_gpio_write, handle_gpio_set_interrupt, handle_cam_enable,
  handle_cam_disable,
}
use cc3501e_bridge_firmware.Wifi.{
  handle_wifi_scan_start, handle_wifi_scan_stop, handle_wifi_connect_sta, handle_wifi_disconnect,
  handle_wifi_ap_start, handle_wifi_ap_stop, handle_wifi_get_rssi, handle_wifi_status,
}
use cc3501e_bridge_firmware.Sockets.{
  handle_sock_open, handle_sock_connect, handle_sock_bind, handle_sock_listen, handle_sock_close,
  sock_handle_bytes, recv_worker_invalidate,
}
use cc3501e_bridge_firmware.Ble.{
  handle_ble_enable, handle_ble_disable, handle_ble_adv_stop, handle_ble_scan_start,
}
use cc3501e_bridge_firmware.Routed.Fits.{
  Fits, handle_worker_routed-Fits, handle_worker_routed_payload-Fits,
  handle_worker_routed_payload_reply-Fits,
}
use cc3501e_bridge_firmware.Spi1.Fits.{
  handle_spi1_configure-Fits, handle_spi1_transfer-Fits, handle_spi1_release-Fits,
}
use cc3501e_bridge_firmware.Sockets.Fits.{handle_sock_send-Fits, RingFits, handle_sock_recv-Fits}
use cc3501e_bridge_firmware.Ble.Fits.{
  handle_ble_adv_start-Fits, handle_ble_scan_stop-Fits, handle_ble_connect-Fits,
  handle_ble_disconnect-Fits, handle_ble_gatt_register-Fits, handle_ble_gatt_notify-Fits,
  handle_ble_gatt_write-Fits, handle_ble_gatt_read-Fits,
}
use cc3501e_bridge_firmware.Dispatch.{handle, routed_to, protocol_dispatch, seq_of}
use cc3501e_bridge_firmware.Dispatch.Fits.{
  handle_get_pending_events-Fits, handle_wifi_get_ip-Fits, handle_gpio_read-Fits,
  handle_power_policy-Fits, handle_get_diag_info-Fits, handle_ota_status-Fits,
  handle_ota_update_mode-Fits, wifi_join-Fits,
}

module _ (w : Layout) (b : Bridge) (req : List ℕ) (room : ℕ) where
  handle_sock_open-Fits : Fits (handle_sock_open w b req room) room
  unfolding handle_sock_open
  handle_sock_open-Fits =
      ground
        (arith, handle_worker_routed_payload_reply-Fits b Wire.sock_open req sock_handle_bytes room)

  handle_sock_connect-Fits : Fits (handle_sock_connect w b req) room
  unfolding handle_sock_connect
  handle_sock_connect-Fits =
      ground (arith, handle_worker_routed_payload-Fits b Wire.sock_connect req room)

  handle_sock_bind-Fits : Fits (handle_sock_bind w b req) room
  unfolding handle_sock_bind
  handle_sock_bind-Fits =
      ground (arith, handle_worker_routed_payload-Fits b Wire.sock_bind req room)

module _ (b : Bridge) (req : List ℕ) (room : ℕ) where
  handle_sock_listen-Fits : Fits (handle_sock_listen b req) room
  unfolding handle_sock_listen
  handle_sock_listen-Fits =
      ground (arith, handle_worker_routed_payload-Fits b Wire.sock_listen req room)

  handle_sock_close-Fits : Fits (handle_sock_close b req) room
  unfolding handle_sock_close
  handle_sock_close-Fits =
      let c =
        if b.recv.cached && get_le16 req 0 == b.recv.handle
        then recv_worker_invalidate b.recv
        else b.recv in
      ground
        (arith, handle_worker_routed_payload-Fits (record b { recv = c }) Wire.sock_close req room)

module _ (w : Layout) (config : Build) (caps : Caps) (code : Resp → ℕ) {Dev : Type 0}
    (board : Board Dev) (b : Bridge) (d : Dev) (req : List ℕ) (room : ℕ) where
  handle-Fits :
      (cmd : Cmd)
      → IsValid b.events
      → RingFits board.sock_recv_ring
      → Fits (handle w config caps code board cmd b d req room).0 room
  unfolding handle handle_ping handle_get_version handle_get_mac handle_get_capabilities
      handle_stream_write handle_reset handle_diag_get_stats handle_diag_log_level handle_ota_begin
      handle_ota_write handle_ota_finish handle_ota_abort handle_ota_promote handle_gpio_configure
      handle_gpio_write handle_gpio_set_interrupt handle_cam_enable handle_cam_disable
      handle_wifi_scan_start handle_wifi_scan_stop handle_wifi_connect_sta handle_wifi_disconnect
      handle_wifi_ap_start handle_wifi_ap_stop handle_wifi_get_rssi handle_wifi_status
      handle_ble_enable handle_ble_disable handle_ble_adv_stop handle_ble_scan_start
  handle-Fits Wire.ping v f = ground arith
  handle-Fits Wire.get_version v f = ground arith
  handle-Fits Wire.get_mac v f = handle_worker_routed-Fits b Wire.get_mac 6 (length req) room
  handle-Fits Wire.reset v f = ground arith
  handle-Fits Wire.get_diag_info v f = handle_get_diag_info-Fits board config code b d req room
  handle-Fits Wire.get_pending_events v f = handle_get_pending_events-Fits b req room v
  handle-Fits Wire.get_capabilities v f = ground arith
  handle-Fits Wire.ota_begin v f = ground arith
  handle-Fits Wire.ota_write v f = ground arith
  handle-Fits Wire.ota_finish v f = ground arith
  handle-Fits Wire.ota_abort v f = ground arith
  handle-Fits Wire.ota_status v f = handle_ota_status-Fits board b d req room
  handle-Fits Wire.ota_promote v f = ground arith
  handle-Fits Wire.ota_update_mode v f = handle_ota_update_mode-Fits board b d req room
  handle-Fits Wire.stream_write v f = omega arith
  handle-Fits Wire.gpio_configure v f = ground arith
  handle-Fits Wire.gpio_write v f = ground arith
  handle-Fits Wire.gpio_read v f = handle_gpio_read-Fits board b d req room
  handle-Fits Wire.gpio_set_interrupt v f = ground arith
  handle-Fits Wire.spi1_configure v f = handle_spi1_configure-Fits w b b.spi1 req room
  handle-Fits Wire.spi1_transfer v f = handle_spi1_transfer-Fits w b b.spi1 req room
  handle-Fits Wire.spi1_release v f = handle_spi1_release-Fits b b.spi1 req room
  handle-Fits Wire.cam_enable v f = ground arith
  handle-Fits Wire.cam_disable v f = ground arith
  handle-Fits Wire.wifi_scan_start v f =
      handle_worker_routed-Fits b Wire.wifi_scan_start 0 (length req) room
  handle-Fits Wire.wifi_scan_stop v f = ground arith
  handle-Fits Wire.wifi_connect_sta v f = wifi_join-Fits w board b d req room false
  handle-Fits Wire.wifi_disconnect v f =
      ground (arith, handle_worker_routed-Fits b Wire.wifi_disconnect 0 (length req) room)
  handle-Fits Wire.wifi_ap_start v f = wifi_join-Fits w board b d req room true
  handle-Fits Wire.wifi_ap_stop v f =
      handle_worker_routed-Fits b Wire.wifi_ap_stop 0 (length req) room
  handle-Fits Wire.wifi_get_rssi v f =
      handle_worker_routed-Fits b Wire.wifi_get_rssi 1 (length req) room
  handle-Fits Wire.wifi_get_ip v f = handle_wifi_get_ip-Fits board w b d req room
  handle-Fits Wire.wifi_status v f = ground arith
  handle-Fits Wire.sock_open v f = handle_sock_open-Fits w b req room
  handle-Fits Wire.sock_connect v f = handle_sock_connect-Fits w b req room
  handle-Fits Wire.sock_send v f = handle_sock_send-Fits b req room
  handle-Fits Wire.sock_recv v f = handle_sock_recv-Fits board.sock_recv_ring b d req room f
  handle-Fits Wire.sock_close v f = handle_sock_close-Fits b req room
  handle-Fits Wire.sock_bind v f = handle_sock_bind-Fits w b req room
  handle-Fits Wire.sock_listen v f = handle_sock_listen-Fits b req room
  handle-Fits Wire.ble_enable v f = handle_worker_routed-Fits b Wire.ble_enable 0 (length req) room
  handle-Fits Wire.ble_disable v f =
      handle_worker_routed-Fits b Wire.ble_disable 0 (length req) room
  handle-Fits Wire.ble_adv_start v f = handle_ble_adv_start-Fits b req room
  handle-Fits Wire.ble_adv_stop v f =
      handle_worker_routed-Fits b Wire.ble_adv_stop 0 (length req) room
  handle-Fits Wire.ble_scan_start v f =
      handle_worker_routed-Fits b Wire.ble_scan_start 0 (length req) room
  handle-Fits Wire.ble_scan_stop v f = handle_ble_scan_stop-Fits b req room
  handle-Fits Wire.ble_connect v f = handle_ble_connect-Fits b req room
  handle-Fits Wire.ble_disconnect v f = handle_ble_disconnect-Fits b req room
  handle-Fits Wire.ble_gatt_register v f = handle_ble_gatt_register-Fits w b req room
  handle-Fits Wire.ble_gatt_notify v f = handle_ble_gatt_notify-Fits b req room
  handle-Fits Wire.ble_gatt_read v f = handle_ble_gatt_read-Fits b req room
  handle-Fits Wire.ble_gatt_write v f = handle_ble_gatt_write-Fits b req room
  handle-Fits Wire.power_policy v f = handle_power_policy-Fits board b d req room
  handle-Fits Wire.diag_get_stats v f = ground arith
  handle-Fits Wire.diag_log_level v f = ground arith

module _ (w : Layout) (config : Build) (caps : Caps) (code : Resp → ℕ) {Dev : Type 0}
    (board : Board Dev) where
  routed_to-Fits :
      (o : Option Cmd) (b : Bridge) (d : Dev) (req : List ℕ) (room : ℕ)
      → IsValid b.events
      → RingFits board.sock_recv_ring
      → Fits (routed_to w config caps code board o b d req room).0 room
  unfolding routed_to
  routed_to-Fits none b d req room v f = omega arith
  routed_to-Fits (some cmd) b d req room v f =
      handle-Fits w config caps code board b d req room cmd v f

  -- No opcode's handler writes more reply data than its room, where the event ring is well formed and
  -- the prefetch ring serves no more than it is asked for.
  pub protocol_dispatch-Fits :
      (opcode : ℕ → Option Cmd) (b : Bridge) (d : Dev) (cmd flags : ℕ) (req : List ℕ) (room : ℕ)
      → IsValid b.events
      → RingFits board.sock_recv_ring
      → length (protocol_dispatch w config caps code board opcode b d cmd flags req room).0.1 ≤ room
  unfolding protocol_dispatch
  protocol_dispatch-Fits opcode b d cmd flags req room v f =
      routed_to-Fits (opcode cmd) (record b { req_seq = seq_of flags }) d req room v f
