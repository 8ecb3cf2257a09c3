-- ===== src/Ble/Fits.antt =====
-- The data of a Bluetooth handler's reply are within the room of the reply.
use cc3501e_bridge_firmware.Base.{ℕ, ◌+◌, ◌*◌, Option, none, some, List, length, arith}
use cc3501e_bridge_firmware.Wire
use cc3501e_bridge_firmware.Wire.{Cmd, Layout}
use cc3501e_bridge_firmware.Bridge.{Bridge}
use cc3501e_bridge_firmware.Routed.Fits.{
  Fits, handle_worker_routed-Fits, handle_worker_routed_payload-Fits,
  handle_worker_routed_payload_reply-Fits,
}
use cc3501e_bridge_firmware.Ble.{
  handle_ble_adv_start, handle_ble_scan_stop, handle_ble_connect, handle_ble_disconnect,
  ble_gatt_register_validate, register_chars, handle_ble_gatt_register, handle_ble_gatt_notify,
  handle_ble_gatt_write, handle_ble_gatt_read,
}

pub handle_ble_adv_start-Fits :
    (b : Bridge) (req : List ℕ) (room : ℕ) → Fits (handle_ble_adv_start b req) room
unfolding handle_ble_adv_start
handle_ble_adv_start-Fits b req room =
    ground (arith, handle_worker_routed_payload-Fits b Wire.ble_adv_start req room)

pub handle_ble_scan_stop-Fits :
    (b : Bridge) (req : List ℕ) (room : ℕ) → Fits (handle_ble_scan_stop b req room) room
unfolding handle_ble_scan_stop
handle_ble_scan_stop-Fits b req room =
    ground (arith, handle_worker_routed-Fits b Wire.ble_scan_stop 0 (length req) room)

pub handle_ble_connect-Fits :
    (b : Bridge) (req : List ℕ) (room : ℕ) → Fits (handle_ble_connect b req) room
unfolding handle_ble_connect
handle_ble_connect-Fits b req room =
    ground (arith, handle_worker_routed_payload-Fits b Wire.ble_connect req room)

pub handle_ble_disconnect-Fits :
    (b : Bridge) (req : List ℕ) (room : ℕ) → Fits (handle_ble_disconnect b req room) room
unfolding handle_ble_disconnect
handle_ble_disconnect-Fits b req room =
    ground (arith, handle_worker_routed-Fits b Wire.ble_disconnect 0 (length req) room)

register_chars-Fits :
    (o : Option ℕ) (b : Bridge) (req : List ℕ) (room : ℕ) → Fits (register_chars o b req room) room
unfolding register_chars
register_chars-Fits none b req room = omega arith
register_chars-Fits (some n) b req room =
    handle_worker_routed_payload_reply-Fits b Wire.ble_gatt_register req (2 + 2 * n) room

pub handle_ble_gatt_register-Fits :
    (w : Layout) (b : Bridge) (req : List ℕ) (room : ℕ)
    → Fits (handle_ble_gatt_register w b req room) room
unfolding handle_ble_gatt_register
handle_ble_gatt_register-Fits w b req room =
    register_chars-Fits (ble_gatt_register_validate w req) b req room

pub handle_ble_gatt_notify-Fits :
    (b : Bridge) (req : List ℕ) (room : ℕ) → Fits (handle_ble_gatt_notify b req) room
unfolding handle_ble_gatt_notify
handle_ble_gatt_notify-Fits b req room =
    ground (arith, handle_worker_routed_payload-Fits b Wire.ble_gatt_notify req room)

pub handle_ble_gatt_write-Fits :
    (b : Bridge) (req : List ℕ) (room : ℕ) → Fits (handle_ble_gatt_write b req) room
unfolding handle_ble_gatt_write
handle_ble_gatt_write-Fits b req room =
    ground (arith, handle_worker_routed_payload-Fits b Wire.ble_gatt_write req room)

pub handle_ble_gatt_read-Fits :
    (b : Bridge) (req : List ℕ) (room : ℕ) → Fits (handle_ble_gatt_read b req room) room
unfolding handle_ble_gatt_read
handle_ble_gatt_read-Fits b req room =
    ground (arith, handle_worker_routed_payload_reply-Fits b Wire.ble_gatt_read req 0 room)
