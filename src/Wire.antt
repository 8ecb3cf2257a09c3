-- ===== src/Wire.antt =====
-- The words of the wire contract that src/ uses: opcodes, reply statuses, and the result codes of
-- hal/cc3501e_hw.h. The opcode byte of a command is fixed by a header outside this repository, so
-- an opcode is the command that it names. CMD_PING is 0x00 (tests/gen_protocol_vectors.py), which
-- is the value that an idle worker slot holds.
use cc3501e_bridge_firmware.Base.{ℕ, ◌+◌, ◌*◌, ◌/◌, ◌%◌, List, [], ◌∷◌, get_or}

-- alp_cc3501e_cmd_t, the members that protocol_dispatch() names.
pub data Cmd : Type 0 where
  ping get_version get_mac reset get_diag_info get_pending_events get_capabilities : Cmd
  ota_begin ota_write ota_finish ota_abort ota_status ota_promote ota_update_mode : Cmd
  stream_write gpio_configure gpio_write gpio_read gpio_set_interrupt : Cmd
  spi1_configure spi1_transfer spi1_release cam_enable cam_disable : Cmd
  wifi_scan_start wifi_scan_stop wifi_connect_sta wifi_disconnect wifi_ap_start wifi_ap_stop : Cmd
  wifi_get_rssi wifi_get_ip wifi_status : Cmd
  sock_open sock_connect sock_send sock_recv sock_close sock_bind sock_listen : Cmd
  ble_enable ble_disable ble_adv_start ble_adv_stop ble_scan_start ble_scan_stop : Cmd
  ble_connect ble_disconnect ble_gatt_register ble_gatt_notify ble_gatt_read ble_gatt_write : Cmd
  power_policy diag_get_stats diag_log_level : Cmd

unfoldable pub Cmd-discrete : Discrete Cmd
Cmd-discrete = hlevel

-- alp_cc3501e_resp_t, the members that src/ names.
pub data Resp : Type 0 where
  ok err_invalid err_busy err_no_mem err_not_ready err_radio err_protocol err_state : Resp

-- CC3501E_HW_*: what a hardware call returns.
pub data HwRv : Type 0 where
  hw_ok hw_busy hw_notimpl hw_io hw_inval hw_state hw_no_mem : HwRv

-- hw_to_resp() of src/protocol_internal.h.
unfoldable pub hw_to_resp : HwRv → Resp
hw_to_resp hw_ok = ok
hw_to_resp hw_busy = err_busy
hw_to_resp hw_notimpl = err_not_ready
hw_to_resp hw_inval = err_invalid
hw_to_resp _ = err_radio

-- ALP_CC3501E_MAX_PAYLOAD, and the ceiling of a reply's data under the CRC trailer.
abbrev pub max_payload : ℕ
max_payload = 4096

abbrev pub reply_data_max : ℕ
reply_data_max = 4093

-- What <alp/protocol/cc3501e.h>, which is not in this repository, fixes and src/ only names: the
-- address family byte, the sizes and offsets of the request structs that no comment of src/ lays
-- out, the flag bits of SPI1_TRANSFER, the Wi-Fi interfaces, the protocol version, and limits.
pub record Layout : Type 0 where
  pub family_ipv4 : ℕ
  pub sock_connect_bytes : ℕ
  pub wifi_connect_bytes : ℕ
  pub ssid_len_at : ℕ
  pub psk_len_at : ℕ
  pub security_at : ℕ
  pub gatt_max_chars : ℕ
  pub gatt_register_version : ℕ
  pub spi1_max_xfer : ℕ
  pub spi1_cs1 : ℕ
  pub xfer_no_rx : ℕ
  pub xfer_no_tx : ℕ
  pub xfer_cs_hold : ℕ
  pub set_interrupt_bytes : ℕ
  pub edge_at : ℕ
  pub enabled_at : ℕ
  pub iface_sta : ℕ
  pub iface_ap : ℕ
  pub ota_max_chunk : ℕ
  pub wire_version : ℕ

-- The little-endian helpers, put_le16() and put_le32(), and the reads of such fields.
abbrev pub put_le16 : ℕ → List ℕ
put_le16 v = v % 256 ∷ v / 256 % 256 ∷ []

abbrev pub put_le32 : ℕ → List ℕ
put_le32 v = v % 256 ∷ v / 256 % 256 ∷ v / 65536 % 256 ∷ v / 16777216 % 256 ∷ []

abbrev pub get_le16 : List ℕ → ℕ → ℕ
get_le16 p off = get_or p off 0 + get_or p (off + 1) 0 * 256

abbrev pub get_le32 : List ℕ → ℕ → ℕ
get_le32 p off =
    get_or p off 0
    + get_or p (off + 1) 0 * 256
    + get_or p (off + 2) 0 * 65536
    + get_or p (off + 3) 0 * 16777216
