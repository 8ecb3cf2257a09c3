-- ===== src/Ble.antt =====
-- src/protocol_ble.c: the handlers of the Bluetooth opcodes, and the walk over the table of
-- characteristics of BLE_GATT_REGISTER.
pub mod Table
pub mod Fits
mod Tests
use cc3501e_bridge_firmware.Base.{
  ℕ, zero, suc, ◌+◌, ◌*◌, Bool, true, false, not, ◌||◌, Option, none, some, List, [], ltb, ◌==◌,
  if◌then◌else◌, length, get_or,
}
use cc3501e_bridge_firmware.Wire
use cc3501e_bridge_firmware.Wire.{err_invalid, Layout, get_le16}
use cc3501e_bridge_firmware.Bridge.{Bridge, Reply}
use cc3501e_bridge_firmware.Routed.{
  handle_worker_routed, handle_worker_routed_payload, handle_worker_routed_payload_reply,
}

-- BLE_ADV_START_HDR, BLE_GATT_REG_HDR, and the fixed part of one characteristic: uuid(16) | props(1)
-- | initial_len(LE16).
abbrev pub ble_adv_start_hdr : ℕ
ble_adv_start_hdr = 7

abbrev pub ble_gatt_reg_hdr : ℕ
ble_gatt_reg_hdr = 18

abbrev pub char_hdr : ℕ
char_hdr = 19

unfoldable pub handle_ble_enable : Bridge → List ℕ → ℕ → Reply
handle_ble_enable b req room = handle_worker_routed b Wire.ble_enable 0 (length req) room

unfoldable pub handle_ble_disable : Bridge → List ℕ → ℕ → Reply
handle_ble_disable b req room = handle_worker_routed b Wire.ble_disable 0 (length req) room

pub handle_ble_adv_start : Bridge → List ℕ → Reply
handle_ble_adv_start b req =
    if ltb (length req) ble_adv_start_hdr
    then (err_invalid, [], b)
    else if not (length req == ble_adv_start_hdr + get_or req 6 0)
    then (err_invalid, [], b)
    else handle_worker_routed_payload b Wire.ble_adv_start req

unfoldable pub handle_ble_adv_stop : Bridge → List ℕ → ℕ → Reply
handle_ble_adv_stop b req room = handle_worker_routed b Wire.ble_adv_stop 0 (length req) room

unfoldable pub handle_ble_scan_start : Bridge → List ℕ → ℕ → Reply
handle_ble_scan_start b req room = handle_worker_routed b Wire.ble_scan_start 0 (length req) room

pub handle_ble_scan_stop : Bridge → List ℕ → ℕ → Reply
handle_ble_scan_stop b req room =
    if not (length req == 0)
    then (err_invalid, [], b)
    else handle_worker_routed b Wire.ble_scan_stop 0 (length req) room

unfoldable pub handle_ble_connect : Bridge → List ℕ → Reply
handle_ble_connect b req =
    if not (length req == 7)
    then (err_invalid, [], b)
    else handle_worker_routed_payload b Wire.ble_connect req

pub handle_ble_disconnect : Bridge → List ℕ → ℕ → Reply
handle_ble_disconnect b req room =
    if not (length req == 0)
    then (err_invalid, [], b)
    else handle_worker_routed b Wire.ble_disconnect 0 (length req) room

-- The loop of ble_gatt_register_validate(): where the walk over `n` characteristics ends.
pub walk_chars : ℕ → List ℕ → ℕ → Option ℕ
walk_chars zero req pos = some pos
walk_chars (suc n) req pos =
    let next = pos + char_hdr + get_le16 req (pos + 17) in
    let rest = walk_chars n req next in
    if ltb (length req) (pos + char_hdr) then none else if ltb (length req) next then none else rest

-- The end of the walk is the end of the request.
pub ends_at : Option ℕ → ℕ → Bool
ends_at none len = false
ends_at (some pos) len = pos == len

-- ble_gatt_register_validate(): the number of characteristics of a well-formed request.
pub ble_gatt_register_validate : Layout → List ℕ → Option ℕ
ble_gatt_register_validate w req =
    let num_chars = get_or req 17 0 in
    if ltb (length req) ble_gatt_reg_hdr
    then none
    else if not (get_or req 0 0 == w.gatt_register_version)
    then none
    else if num_chars == 0 || ltb w.gatt_max_chars num_chars
    then none
    else if ends_at (walk_chars num_chars req ble_gatt_reg_hdr) (length req)
    then some num_chars
    else none

-- handle_ble_gatt_register(), by what the validation finds.
pub register_chars : Option ℕ → Bridge → List ℕ → ℕ → Reply
register_chars none b req room = (err_invalid, [], b)
register_chars (some num_chars) b req room =
    handle_worker_routed_payload_reply b Wire.ble_gatt_register req (2 + 2 * num_chars) room

pub handle_ble_gatt_register : Layout → Bridge → List ℕ → ℕ → Reply
handle_ble_gatt_register w b req room = register_chars (ble_gatt_register_validate w req) b req room

pub handle_ble_gatt_notify : Bridge → List ℕ → Reply
handle_ble_gatt_notify b req =
    if ltb (length req) 2
    then (err_invalid, [], b)
    else handle_worker_routed_payload b Wire.ble_gatt_notify req

pub handle_ble_gatt_write : Bridge → List ℕ → Reply
handle_ble_gatt_write b req =
    if ltb (length req) 2
    then (err_invalid, [], b)
    else handle_worker_routed_payload b Wire.ble_gatt_write req

pub handle_ble_gatt_read : Bridge → List ℕ → ℕ → Reply
handle_ble_gatt_read b req room =
    if not (length req == 2)
    then (err_invalid, [], b)
    else handle_worker_routed_payload_reply b Wire.ble_gatt_read req 0 room
