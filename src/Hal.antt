-- ===== src/Hal.antt =====
-- hal/cc3501e_hw.h: the operations of the hardware that src/worker.c calls, as an interface. `Dev` is
-- the state behind them; the TI and the stub back ends implement it. Each operation returns its
-- result code, what it stores through its pointers, and the state that it leaves.
use cc3501e_bridge_firmware.Base.{ℕ, Bool, Option, List}
use cc3501e_bridge_firmware.Wire.{HwRv}

-- What cc3501e_hw_sock_recv() stores: the bytes, the sender's port and its address.
pub record Received : Type 0 where
  pub payload : List ℕ
  pub from_port : ℕ
  pub from_addr : List ℕ

pub record Hal (Dev : Type 0) : Type 0 where
  pub get_mac : Dev → HwRv × List ℕ × Dev
  pub wifi_get_rssi : Dev → HwRv × ℕ × Dev
  pub wifi_scan : Dev → ℕ → HwRv × List ℕ × Dev
  pub wifi_connect_sta : Dev → List ℕ → List ℕ → ℕ → HwRv × Dev
  pub wifi_ap_start : Dev → List ℕ → List ℕ → ℕ → HwRv × Dev
  pub wifi_disconnect : Dev → HwRv × Dev
  pub wifi_ap_stop : Dev → HwRv × Dev
  pub ble_enable : Dev → HwRv × Dev
  pub ble_disable : Dev → HwRv × Dev
  pub ble_scan : Dev → ℕ → HwRv × List ℕ × Dev
  pub ble_scan_stop : Dev → HwRv × Dev
  pub ble_adv_start : Dev → ℕ → ℕ → ℕ → List ℕ → HwRv × Dev
  pub ble_adv_stop : Dev → HwRv × Dev
  pub ble_connect : Dev → ℕ → List ℕ → HwRv × Dev
  pub ble_disconnect : Dev → HwRv × Dev
  pub ble_gatt_register : Dev → List ℕ → ℕ → HwRv × List ℕ × Dev
  pub ble_gatt_notify : Dev → ℕ → List ℕ → HwRv × Dev
  pub ble_gatt_write : Dev → ℕ → List ℕ → HwRv × Dev
  pub ble_gatt_read : Dev → ℕ → ℕ → HwRv × List ℕ × Dev
  pub sock_open : Dev → ℕ → ℕ → ℕ → HwRv × ℕ × Dev
  pub sock_connect : Dev → ℕ → ℕ → ℕ → List ℕ → HwRv × Dev
  pub sock_send : Dev → ℕ → ℕ → List ℕ → HwRv × ℕ × Dev
  pub sock_recv : Dev → ℕ → ℕ → ℕ → HwRv × Received × Dev
  pub sock_close : Dev → ℕ → HwRv × Dev
  pub sock_bind : Dev → ℕ → ℕ → ℕ → List ℕ → HwRv × Dev
  pub sock_listen : Dev → ℕ → ℕ → HwRv × Dev
  pub spi1_configure : Dev → ℕ → ℕ → ℕ → ℕ → HwRv × ℕ × Dev
  pub spi1_transfer : Dev → Option (List ℕ) → Bool → ℕ → ℕ → Bool → HwRv × List ℕ × Dev
  pub spi1_release : Dev → HwRv × Dev
  pub bridge_busy : Dev → Dev
  pub bridge_ready : Dev → Dev
  pub spi_hw_reinit : Dev → Bool × Dev
  pub connect_sta_take_reinit : Dev → (Bool × Bool) × Dev
  pub connect_sta_take_fail_skip : Dev → (Bool × Bool) × Dev
  pub get_rssi_take_reinit_skip : Dev → (Bool × Bool) × Dev
  pub ap_role_publish : Dev → Dev
