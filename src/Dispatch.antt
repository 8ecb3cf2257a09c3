-- ===== src/Dispatch.antt =====
-- protocol_dispatch() of src/protocol.c: the request's sequence number, and the handler of its opcode.
pub mod Fits
pub mod Room
pub mod Host
pub mod Session
pub mod Retry
mod Tests
use cc3501e_bridge_firmware.Base.{ℕ, ◌/◌, ◌%◌, Option, none, some, List, []}
use cc3501e_bridge_firmware.Wire
use cc3501e_bridge_firmware.Wire.{Cmd, Resp, err_invalid, Layout}
use cc3501e_bridge_firmware.Bridge.{Bridge, Reply, Spi1}
use cc3501e_bridge_firmware.Board.{Board}
use cc3501e_bridge_firmware.Meta.{
  Build, Caps, handle_ping, handle_get_version, handle_get_mac, handle_get_capabilities,
  handle_stream_write, handle_reset,
}
use cc3501e_bridge_firmware.Diag.{
  handle_diag_get_stats, handle_get_diag_info, handle_get_pending_events, handle_diag_log_level,
}
use cc3501e_bridge_firmware.OtaCmds.{
  handle_ota_begin, handle_ota_write, handle_ota_finish, handle_ota_abort, handle_ota_promote,
  handle_ota_update_mode, handle_ota_status,
}
use cc3501e_bridge_firmware.Pins.{
  handle_gpio_configure, handle_gpio_write, handle_gpio_read, handle_gpio_set_interrupt,
  handle_cam_enable, handle_cam_disable, handle_power_policy,
}
use cc3501e_bridge_firmware.Spi1.{handle_spi1_configure, handle_spi1_transfer, handle_spi1_release}
use cc3501e_bridge_firmware.Wifi.{
  handle_wifi_scan_start, handle_wifi_scan_stop, handle_wifi_connect_sta, handle_wifi_disconnect,
  handle_wifi_ap_start, handle_wifi_ap_stop, handle_wifi_get_rssi, handle_wifi_get_ip,
  handle_wifi_status,
}
use cc3501e_bridge_firmware.Sockets.{
  handle_sock_open, handle_sock_connect, handle_sock_bind, handle_sock_listen, handle_sock_send,
  handle_sock_recv, handle_sock_close,
}
use cc3501e_bridge_firmware.Ble.{
  handle_ble_enable, handle_ble_disable, handle_ble_adv_start, handle_ble_adv_stop,
  handle_ble_scan_start, handle_ble_scan_stop, handle_ble_connect, handle_ble_disconnect,
  handle_ble_gatt_register, handle_ble_gatt_notify, handle_ble_gatt_write, handle_ble_gatt_read,
}

-- The reply of a handler of src/protocol_spi.c, whose session is a part of the state.
abbrev pub in_session : Reply × Spi1 → Reply
in_session ((status, bytes, b), s) = (status, bytes, record b { spi1 = s })

-- (flags >> CC3501E_REQ_SEQ_SHIFT) & CC3501E_REQ_SEQ_MASK: bits 3 to 7 of the flags byte.
abbrev pub seq_of : ℕ → ℕ
seq_of flags = flags / 8 % 32

module _ (w : Layout) (config : Build) (caps : Caps) (code : Resp → ℕ) {Dev : Type 0}
    (board : Board Dev) where
  -- The handler of an opcode.
  pub handle : Cmd → Bridge → Dev → List ℕ → ℕ → Reply × Dev
  handle Wire.ping b d req room = (handle_ping b req, d)
  handle Wire.get_version b d req room = (handle_get_version w b req room, d)
  handle Wire.get_mac b d req room = (handle_get_mac b req room, d)
  handle Wire.reset b d req room = handle_reset board b d req
  handle Wire.get_diag_info b d req room = (handle_get_diag_info board config code b d req room, d)
  handle Wire.get_pending_events b d req room = (handle_get_pending_events b req room, d)
  handle Wire.get_capabilities b d req room = (handle_get_capabilities config caps b req room, d)
  handle Wire.ota_begin b d req room = handle_ota_begin board b d req
  handle Wire.ota_write b d req room = handle_ota_write board w b d req
  handle Wire.ota_finish b d req room = handle_ota_finish board b d req
  handle Wire.ota_abort b d req room = handle_ota_abort board b d req
  handle Wire.ota_status b d req room = (handle_ota_status board b d req room, d)
  handle Wire.ota_promote b d req room = handle_ota_promote board b d req
  handle Wire.ota_update_mode b d req room = handle_ota_update_mode board b d req room
  handle Wire.stream_write b d req room = (handle_stream_write b req, d)
  handle Wire.gpio_configure b d req room = handle_gpio_configure board b d req
  handle Wire.gpio_write b d req room = handle_gpio_write board b d req
  handle Wire.gpio_read b d req room = handle_gpio_read board b d req room
  handle Wire.gpio_set_interrupt b d req room = handle_gpio_set_interrupt board w b d req
  handle Wire.spi1_configure b d req room =
      (in_session (handle_spi1_configure w b b.spi1 req room), d)
  handle Wire.spi1_transfer b d req room =
      (in_session (handle_spi1_transfer w b b.spi1 req room), d)
  handle Wire.spi1_release b d req room = (in_session (handle_spi1_release b b.spi1 req room), d)
  handle Wire.cam_enable b d req room = handle_cam_enable board b d req
  handle Wire.cam_disable b d req room = handle_cam_disable board b d req
  handle Wire.wifi_scan_start b d req room = (handle_wifi_scan_start b req room, d)
  handle Wire.wifi_scan_stop b d req room = handle_wifi_scan_stop board b d req
  handle Wire.wifi_connect_sta b d req room = (handle_wifi_connect_sta w b req, d)
  handle Wire.wifi_disconnect b d req room = (handle_wifi_disconnect b req room, d)
  handle Wire.wifi_ap_start b d req room = (handle_wifi_ap_start w b req, d)
  handle Wire.wifi_ap_stop b d req room = (handle_wifi_ap_stop b req room, d)
  handle Wire.wifi_get_rssi b d req room = (handle_wifi_get_rssi b req room, d)
  handle Wire.wifi_get_ip b d req room = handle_wifi_get_ip board w b d req room
  handle Wire.wifi_status b d req room = handle_wifi_status board b d req room
  handle Wire.sock_open b d req room = (handle_sock_open w b req room, d)
  handle Wire.sock_connect b d req room = (handle_sock_connect w b req, d)
  handle Wire.sock_send b d req room = (handle_sock_send b req room, d)
  handle Wire.sock_recv b d req room = handle_sock_recv board.sock_recv_ring b d req room
  handle Wire.sock_close b d req room = (handle_sock_close b req, d)
  handle Wire.sock_bind b d req room = (handle_sock_bind w b req, d)
  handle Wire.sock_listen b d req room = (handle_sock_listen b req, d)
  handle Wire.ble_enable b d req room = (handle_ble_enable b req room, d)
  handle Wire.ble_disable b d req room = (handle_ble_disable b req room, d)
  handle Wire.ble_adv_start b d req room = (handle_ble_adv_start b req, d)
  handle Wire.ble_adv_stop b d req room = (handle_ble_adv_stop b req room, d)
  handle Wire.ble_scan_start b d req room = (handle_ble_scan_start b req room, d)
  handle Wire.ble_scan_stop b d req room = (handle_ble_scan_stop b req room, d)
  handle Wire.ble_connect b d req room = (handle_ble_connect b req, d)
  handle Wire.ble_disconnect b d req room = (handle_ble_disconnect b req room, d)
  handle Wire.ble_gatt_register b d req room = (handle_ble_gatt_register w b req room, d)
  handle Wire.ble_gatt_notify b d req room = (handle_ble_gatt_notify b req, d)
  handle Wire.ble_gatt_read b d req room = (handle_ble_gatt_read b req room, d)
  handle Wire.ble_gatt_write b d req room = (handle_ble_gatt_write b req, d)
  handle Wire.power_policy b d req room = handle_power_policy board b d req room
  handle Wire.diag_get_stats b d req room = (handle_diag_get_stats b req room, d)
  handle Wire.diag_log_level b d req room = handle_diag_log_level board b d req

  -- The `switch (cmd)`, by the command that the opcode byte names.
  pub routed_to : Option Cmd → Bridge → Dev → List ℕ → ℕ → Reply × Dev
  routed_to none b d req room = ((err_invalid, [], b), d)
  routed_to (some cmd) b d req room = handle cmd b d req room

  -- protocol_dispatch(). `opcode` reads an opcode byte; none for one that has no handler.
  pub protocol_dispatch : (ℕ → Option Cmd) → Bridge → Dev → ℕ → ℕ → List ℕ → ℕ → Reply × Dev
  protocol_dispatch opcode b d cmd flags req room =
      routed_to (opcode cmd) (record b { req_seq = seq_of flags }) d req room
