-- ===== src/Ble/Tests.antt =====
-- A table of one characteristic with a first value of one byte.
use cc3501e_bridge_firmware.Base.{◌≡◌, refl, some, List, [], ◌∷◌, replicate, arith}
use cc3501e_bridge_firmware.Fixture.{layout}
use cc3501e_bridge_firmware.Ble.{ble_gatt_register_validate}
use cc3501e_bridge_firmware.Ble.Table.{Char, encode_table, ble_gatt_register_validate-encode_table}

abbrev chars : List Char
chars = record { uuid_props = replicate 17 3; value = 9 ∷ [] } ∷ []

ble_gatt_register_validate-encode_table_example :
    ble_gatt_register_validate layout
      (encode_table layout.gatt_register_version (replicate 16 5) chars)
    ≡ some 1
ble_gatt_register_validate-encode_table_example =
    ble_gatt_register_validate-encode_table layout (replicate 16 5) chars refl (omega arith)
      (omega arith) ((refl, omega arith), tt)

accepted :
    ble_gatt_register_validate layout
      (encode_table layout.gatt_register_version (replicate 16 5) chars)
    ≡ some 1
accepted =
    ble_gatt_register_validate-encode_table layout (replicate 16 5) chars refl (omega arith)
      (omega arith) ((refl, omega arith), tt)
