-- ===== src/Meta.antt =====
-- src/protocol_meta.c: the handlers that tell what the firmware is, and the stream counter.
use cc3501e_bridge_firmware.Base.{
  ℕ, ◌+◌, ◌%◌, ◌^◌, Bool, not, List, [], ◌++◌, ltb, ◌==◌, if◌then◌else◌, length,
}
use Prim.Native.Nat.{bit_or}
use cc3501e_bridge_firmware.Wire
use cc3501e_bridge_firmware.Wire.{ok, err_invalid, err_no_mem, Layout, put_le16, put_le32}
use cc3501e_bridge_firmware.Bridge.{Bridge, Reply}
use cc3501e_bridge_firmware.Board.{Board}
use cc3501e_bridge_firmware.Routed.{handle_worker_routed}

-- The macros that a build sets: CC3501E_HAL_STUB, CC3501E_WIFI, CC3501E_BLE and
-- CC3501E_BRIDGE_FW_VERSION_U16.
pub record Build : Type 0 where
  pub hal_stub : Bool
  pub wifi : Bool
  pub ble : Bool
  pub fw_version : ℕ

-- The ALP_CC3501E_CAP_* bits of <alp/protocol/cc3501e.h>.
pub record Caps : Type 0 where
  pub events : ℕ
  pub diag_stats : ℕ
  pub ota : ℕ
  pub gpio_proxy : ℕ
  pub camera : ℕ
  pub power_policy : ℕ
  pub wifi_sta : ℕ
  pub wifi_ap : ℕ
  pub sock_client : ℕ
  pub sock_listen : ℕ
  pub spi1_master : ℕ
  pub ble : ℕ

abbrev pub capabilities_bytes : ℕ
capabilities_bytes = 8

unfoldable pub handle_ping : Bridge → List ℕ → Reply
handle_ping b req = if not (length req == 0) then (err_invalid, [], b) else (ok, [], b)

unfoldable pub handle_get_version : Layout → Bridge → List ℕ → ℕ → Reply
handle_get_version w b req room =
    if not (length req == 0)
    then (err_invalid, [], b)
    else if ltb room 2
    then (err_no_mem, [], b)
    else (ok, put_le16 w.wire_version, b)

-- The bits of a group, where the build has it.
abbrev pub caps_if : Bool → ℕ → ℕ → ℕ
caps_if on bits caps = if on then bit_or caps bits else caps

-- cc3501e_build_capabilities().
unfoldable pub build_capabilities : Build → Caps → ℕ
build_capabilities config c =
    let always = bit_or c.events c.diag_stats in
    let soc = bit_or c.ota (bit_or c.gpio_proxy (bit_or c.camera c.power_policy)) in
    let net =
      bit_or c.wifi_sta
        (bit_or c.wifi_ap (bit_or c.sock_client (bit_or c.sock_listen c.spi1_master))) in
    caps_if config.ble c.ble (caps_if config.wifi net (caps_if (not config.hal_stub) soc always))

unfoldable pub handle_get_capabilities : Build → Caps → Bridge → List ℕ → ℕ → Reply
handle_get_capabilities config c b req room =
    if not (length req == 0)
    then (err_invalid, [], b)
    else if ltb room capabilities_bytes
    then (err_no_mem, [], b)
    else (ok, put_le32 (build_capabilities config c) ++ put_le32 0, b)

unfoldable pub handle_stream_write : Bridge → List ℕ → Reply
handle_stream_write b req =
    (ok, [], record b { stream_bytes = (b.stream_bytes + length req) % 2 ^ 32 })

unfoldable pub handle_get_mac : Bridge → List ℕ → ℕ → Reply
handle_get_mac b req room = handle_worker_routed b Wire.get_mac 6 (length req) room

module _ {Dev : Type 0} (board : Board Dev) where
  unfoldable pub handle_reset : Bridge → Dev → List ℕ → Reply × Dev
  handle_reset b d req =
      if not (length req == 0)
      then ((err_invalid, [], b), d)
      else ((ok, [], b), board.request_reset d)
