-- ===== src/Board.antt =====
-- hal/cc3501e_hw.h: the operations of the hardware that the handlers of src/protocol_*.c call
-- themselves, as an interface. Those that the worker calls are in Hal. A getter reads the state; an
-- operation returns its result code, what it stores through its pointers, and the state.
use cc3501e_bridge_firmware.Base.{ℕ, Bool, List}
use cc3501e_bridge_firmware.Wire.{HwRv}
use cc3501e_bridge_firmware.SockRing.{Served}

pub record Board (Dev : Type 0) : Type 0 where
  pub request_reset : Dev → Dev
  pub wifi_scan_stop : Dev → HwRv × Dev
  pub wifi_get_ip : Dev → ℕ → HwRv × List ℕ × Dev
  -- The state, the reason of a failure, and the signal as a byte.
  pub wifi_conn_status : Dev → (ℕ × ℕ × ℕ) × Dev
  pub wifi_last_reason : Dev → ℕ
  pub wifi_last_event_id : Dev → ℕ
  pub wifi_dhcp_diag : Dev → ℕ × ℕ
  pub gpio_configure : Dev → ℕ → ℕ → ℕ → HwRv × Dev
  pub gpio_write : Dev → ℕ → ℕ → HwRv × Dev
  pub gpio_read : Dev → ℕ → HwRv × ℕ × Dev
  pub gpio_set_interrupt : Dev → ℕ → ℕ → ℕ → HwRv × Dev
  pub cam_enable : Dev → ℕ → ℕ → HwRv × Dev
  pub set_power_policy : Dev → ℕ → ℕ → ℕ → HwRv × Dev
  pub power_radio_ok : Dev → Bool
  pub set_log_level : Dev → ℕ → HwRv × Dev
  pub reset_cause : Dev → ℕ
  pub radio_role : Dev → ℕ
  pub uptime_ms : Dev → ℕ
  pub free_heap_bytes : Dev → ℕ
  pub ota_begin : Dev → ℕ → HwRv × Dev
  pub ota_write : Dev → ℕ → List ℕ → HwRv × Dev
  pub ota_finish : Dev → HwRv × Dev
  pub ota_abort : Dev → HwRv × Dev
  pub ota_promote : Dev → HwRv × Dev
  -- The result, the state, the bytes written and the total.
  pub ota_status : Dev → HwRv × ℕ × ℕ × ℕ
  pub ota_reboot_rc : Dev → ℕ
  pub ota_flush_pending : Dev → Bool
  pub ota_pending : Dev → ℕ
  -- The stage of a failure and the low byte of its status.
  pub ota_fault : Dev → ℕ × ℕ
  pub spi_polled : Dev → Bool
  pub spi_request_polled_boot : Dev → Bool × Dev
  pub spi_clear_polled_boot : Dev → Bool × Dev
  pub spi_phase : Dev → ℕ
  pub spi_boot_mark : Dev → ℕ
  pub sock_recv_ring : Dev → ℕ → ℕ → Bool → Served × Dev
