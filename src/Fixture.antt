-- ===== src/Fixture.antt =====
-- Test data that the modules share: the state after a reset, and hardware that answers at once.
use cc3501e_bridge_firmware.Base.{
  ℕ, zero, suc, ◌+◌, ◌*◌, ◌%◌, ◌^◌, ◌≤◌, ◌<◌, ◌≡◌, refl, true, false, Option, none, some, List, [],
  ◌∷◌, length, get_or, take, drop, replicate, length-take, arith,
}
use cc3501e_bridge_firmware.Wire.{
  Layout, Cmd, Resp, ok, ping, get_version, get_mac, get_pending_events, hw_ok, hw_busy, hw_notimpl,
}
use cc3501e_bridge_firmware.Worker.{idle}
use cc3501e_bridge_firmware.Bridge.{Bridge}
use cc3501e_bridge_firmware.EventRing.{EventSlot}
use cc3501e_bridge_firmware.Hal.{Hal}
use cc3501e_bridge_firmware.Board.{Board}
use cc3501e_bridge_firmware.Meta.{Build, Caps}
use cc3501e_bridge_firmware.SockRing.{not_armed, RxRing, Recv, received, would_block}
use cc3501e_bridge_firmware.SockRing.Stream.{Carries, Bounded}

abbrev pub blank : EventSlot
blank = record { evt_opcode = 0; len = 0; payload = replicate 16 0 }

abbrev pub bridge : Bridge
bridge = record {
  job = record {
    state = idle;
    job_cmd = ping;
    result = [];
    result_len = 0;
    rv = hw_ok;
    req = [];
    req_len = 0;
  };
  latch = record { valid = false; cmd = ping; seq = 0; status = ok; bytes = [] };
  send = record { cached = false; seq = 0; status = ok; reply = 0 ∷ 0 ∷ [] };
  recv = record {
    cached = false;
    seq = 0;
    handle = 0;
    max_len = 0;
    status = ok;
    reply = [];
    reply_len = 0;
    job_seq = 0;
  };
  last_recv = record { seq = 0; handle = 0; max_len = 0 };
  req_seq = 0;
  frames_ok = 0;
  frames_err = 0;
  last_error = ok;
  latch_hits = 0;
  worker_execs = 0;
  connecting = false;
  spi1 = record { configured = false; cs_held = false };
  events = record { slot = replicate 16 blank; head = 0; tail = 0; count = 0; attn = 0 };
  stream_bytes = 0;
}

abbrev pub layout : Layout
layout = record {
  family_ipv4 = 4;
  sock_connect_bytes = 24;
  wifi_connect_bytes = 4;
  ssid_len_at = 0;
  psk_len_at = 1;
  security_at = 2;
  gatt_max_chars = 8;
  gatt_register_version = 1;
  spi1_max_xfer = 4088;
  spi1_cs1 = 1;
  xfer_no_rx = 1;
  xfer_no_tx = 2;
  xfer_cs_hold = 4;
  set_interrupt_bytes = 4;
  edge_at = 1;
  enabled_at = 2;
  iface_sta = 0;
  iface_ap = 1;
  ota_max_chunk = 1024;
  wire_version = 1024;
}

-- The state counts the calls of bridge_busy() and bridge_ready().
abbrev pub hal : Hal ℕ
hal = record {
  get_mac = λ d. (hw_ok, 1 ∷ 2 ∷ 3 ∷ 4 ∷ 5 ∷ 6 ∷ [], d);
  wifi_get_rssi = λ d. (hw_ok, 200, d);
  wifi_scan = λ d n. (hw_ok, 7 ∷ [], d);
  wifi_connect_sta = λ d s p t. (hw_ok, d);
  wifi_ap_start = λ d s p t. (hw_ok, d);
  wifi_disconnect = λ d. (hw_ok, d);
  wifi_ap_stop = λ d. (hw_ok, d);
  ble_enable = λ d. (hw_ok, d);
  ble_disable = λ d. (hw_ok, d);
  ble_scan = λ d n. (hw_busy, [], d);
  ble_scan_stop = λ d. (hw_ok, d);
  ble_adv_start = λ d c lo hi v. (hw_ok, d);
  ble_adv_stop = λ d. (hw_ok, d);
  ble_connect = λ d k a. (hw_ok, d);
  ble_disconnect = λ d. (hw_ok, d);
  ble_gatt_register = λ d v n. (hw_ok, 3 ∷ 5 ∷ [], d);
  ble_gatt_notify = λ d h v. (hw_ok, d);
  ble_gatt_write = λ d h v. (hw_ok, d);
  ble_gatt_read = λ d h n. (hw_notimpl, [], d);
  sock_open = λ d f t p. (hw_ok, 1, d);
  sock_connect = λ d h f p a. (hw_ok, d);
  sock_send = λ d h f v. (hw_ok, length v, d);
  sock_recv =
      λ d h n room. (hw_ok, record { payload = 66 ∷ []; from_port = 80; from_addr = [] }, d);
  sock_close = λ d h. (hw_ok, d);
  sock_bind = λ d h f p a. (hw_ok, d);
  sock_listen = λ d h n. (hw_ok, d);
  spi1_configure = λ d f m b c. (hw_ok, f, d);
  spi1_transfer = λ d tx rx n c h. (hw_ok, [], d);
  spi1_release = λ d. (hw_ok, d);
  bridge_busy = λ d. suc d;
  bridge_ready = λ d. suc d;
  spi_hw_reinit = λ d. (true, d);
  connect_sta_take_reinit = λ d. ((false, false), d);
  connect_sta_take_fail_skip = λ d. ((false, false), d);
  get_rssi_take_reinit_skip = λ d. ((true, true), d);
  ap_role_publish = λ d. d;
}

-- The state stays as it is, but a reset adds 100.
abbrev pub board : Board ℕ
board = record {
  request_reset = λ d. d + 100;
  wifi_scan_stop = λ d. (hw_ok, d);
  wifi_get_ip = λ d i. (hw_ok, 10 ∷ 0 ∷ 0 ∷ i ∷ [], d);
  wifi_conn_status = λ d. ((2, 0, 200), d);
  wifi_last_reason = λ d. 0;
  wifi_last_event_id = λ d. 0;
  wifi_dhcp_diag = λ d. (0, 0);
  gpio_configure = λ d p i u. (hw_ok, d);
  gpio_write = λ d p v. (hw_ok, d);
  gpio_read = λ d p. (hw_ok, 1, d);
  gpio_set_interrupt = λ d p e n. (hw_ok, d);
  cam_enable = λ d p n. (hw_ok, d);
  set_power_policy = λ d p e n. (hw_ok, d);
  power_radio_ok = λ d. true;
  set_log_level = λ d n. (hw_ok, d);
  reset_cause = λ d. 1;
  radio_role = λ d. 0;
  uptime_ms = λ d. d;
  free_heap_bytes = λ d. 1000;
  ota_begin = λ d n. (hw_busy, d);
  ota_write = λ d n v. (hw_ok, d);
  ota_finish = λ d. (hw_busy, d);
  ota_abort = λ d. (hw_ok, d);
  ota_promote = λ d. (hw_ok, d);
  ota_status = λ d. (hw_ok, 0, 0, 0);
  ota_reboot_rc = λ d. 0;
  ota_flush_pending = λ d. false;
  ota_pending = λ d. 0;
  ota_fault = λ d. (0, 0);
  spi_polled = λ d. false;
  spi_request_polled_boot = λ d. (true, d);
  spi_clear_polled_boot = λ d. (true, d);
  spi_phase = λ d. 0;
  spi_boot_mark = λ d. 0;
  sock_recv_ring = λ d h n r. (not_armed, d);
}

abbrev pub build : Build
build = record { hal_stub = false; wifi = true; ble = false; fw_version = 512 }

abbrev pub caps : Caps
caps = record {
  events = 1;
  diag_stats = 2;
  ota = 4;
  gpio_proxy = 8;
  camera = 16;
  power_policy = 32;
  wifi_sta = 64;
  wifi_ap = 128;
  sock_client = 256;
  sock_listen = 512;
  spi1_master = 1024;
  ble = 2048;
}

-- Bytes that name a command.
abbrev pub opcode : ℕ → Option Cmd
opcode zero = some ping
opcode (suc zero) = some get_version
opcode (suc (suc zero)) = some get_mac
opcode (suc (suc (suc zero))) = some get_pending_events
opcode _ = none

-- A check sum in the place of the CRC, and the byte of a status.
abbrev pub update : ℕ → List ℕ → ℕ
update crc [] = crc
update crc (b ∷ bs) = update ((crc * 2 + b) % 2 ^ 16) bs

abbrev pub code : Resp → ℕ
code ok = 0
code _ = 1

-- A socket that gives its bytes as asked.
abbrev pub recv : List ℕ → ℕ → Recv × List ℕ
recv [] room = (would_block, [])
recv (b ∷ bs) room = (received (take room (b ∷ bs)), drop room (b ∷ bs))

pub recv-Bounded : Bounded recv
recv-Bounded [] room = omega arith
recv-Bounded (b ∷ bs) room = omega (arith, length-take room (b ∷ bs))

-- A ring with three bytes for the handle 5.
abbrev pub three_bytes : RxRing
three_bytes = record {
  buf = λ i. i;
  head = 3;
  tail = 0;
  uncommitted = 0;
  fd_plus1 = 5;
  peer_closed = false;
  peer_error = false;
}

pub three_bytes-Carries : Carries three_bytes (0 ∷ 1 ∷ 2 ∷ []) 0
three_bytes-Carries = record {
  head_at = refl;
  tail_at = refl;
  served_in = omega arith;
  fits = omega arith;
  holds = at;
}
  where
    at : (i : ℕ) → 0 ≤ i → i < 3 → i % 65536 ≡ get_or (0 ∷ 1 ∷ 2 ∷ []) i 0
    at zero h l = refl
    at (suc zero) h l = refl
    at (suc (suc zero)) h l = refl
    at (suc (suc (suc i))) h l = absurd (omega arith)
