-- ===== src/Execute.antt =====
-- worker_execute() and worker_run_pending() of src/worker.c: the blocking body of a job, the two
-- reply caches and the slot that it publishes to, and the drain with the transport's rearm.
pub mod Settle
pub mod Delivered
pub mod Once
mod Tests
use cc3501e_bridge_firmware.Base.{
  ℕ, ◌+◌, ◌-◌, ◌*◌, ◌/◌, ◌%◌, ◌^◌, Bool, true, false, not, ◌&&◌, ◌||◌, Option, none, some, List, [],
  ◌∷◌, ◌++◌, ltb, ◌==◌, if◌then◌else◌, length, get_or, take, drop, slice, replicate,
}
use Prim.Native.Nat.{bit_and}
use cc3501e_bridge_firmware.Wire
use cc3501e_bridge_firmware.Wire.{
  Cmd, HwRv, hw_ok, hw_notimpl, Layout, put_le16, put_le32, get_le16, get_le32, max_payload,
  reply_data_max,
}
use cc3501e_bridge_firmware.Worker.{Job, reset, take_pending, publish}
use cc3501e_bridge_firmware.Bridge.{Bridge, RecvCache}
use cc3501e_bridge_firmware.Routed.{with_job}
use cc3501e_bridge_firmware.Hal.{Hal, Received}
use cc3501e_bridge_firmware.Sockets.{
  recv_hdr, send_seq_at, send_on_worker_complete, recv_worker_invalidate, recv_worker_copy,
  recv_worker_publish,
}

-- A body without reply data, and one with data on success only.
unfoldable pub no_data : {Dev : Type 0} → HwRv × Dev → HwRv × List ℕ × Dev
no_data (rv, d) = (rv, [], d)

unfoldable pub reply_with : {Dev A : Type 0} → HwRv × A × Dev → (A → List ℕ) → HwRv × List ℕ × Dev
reply_with (hw_ok, x, d) f = (hw_ok, f x, d)
reply_with (rv, x, d) f = (rv, [], d)

pub put_handles : List ℕ → List ℕ
put_handles [] = []
put_handles (h ∷ hs) = put_le16 h ++ put_handles hs

abbrev pub flag : ℕ → ℕ → Bool
flag flags mask = not (bit_and flags mask == 0)

-- The capacity of a receive's data.
pub data_cap : ℕ → ℕ
data_cap max_len =
    if not (max_len == 0) && ltb max_len (reply_data_max - recv_hdr)
    then max_len
    else reply_data_max - recv_hdr

-- The reply of SOCK_RECV: the sender, the length and the bytes.
pub recv_result : Layout → Received → List ℕ
recv_result w r =
    w.family_ipv4 ∷ 0 ∷ put_le16 r.from_port
    ++ (get_or r.from_addr 0 0
          ∷ get_or r.from_addr 1 0
          ∷ get_or r.from_addr 2 0
          ∷ get_or r.from_addr 3 0
          ∷ replicate 12 0
        ++ (put_le16 (length r.payload) ++ (0 ∷ 0 ∷ r.payload)))

module _ (w : Layout) {Dev : Type 0} (hal : Hal Dev) where
  -- wifi_connect_sta and wifi_ap_start, from the header of the stashed request.
  pub join_body : (Dev → List ℕ → List ℕ → ℕ → HwRv × Dev) → Dev → List ℕ → HwRv × List ℕ × Dev
  join_body join d req =
      let ssid_len = get_or req w.ssid_len_at 0 in
      no_data (
        join d (slice req w.wifi_connect_bytes ssid_len)
          (slice req (w.wifi_connect_bytes + ssid_len) (get_or req w.psk_len_at 0))
          (get_or req w.security_at 0))

  pub transfer_body : Dev → List ℕ → HwRv × List ℕ × Dev
  transfer_body d req =
      let xfer_len = get_le16 req 0 in
      let flags = get_or req 2 0 in
      let no_rx = flag flags w.xfer_no_rx in
      let cs_hold = flag flags w.xfer_cs_hold in
      let tx = if flag flags w.xfer_no_tx then none else some (slice req 8 xfer_len) in
      reply_with (hal.spi1_transfer d tx (not no_rx) xfer_len (get_or req 4 0) cs_hold) (λ rx.
        put_le16 (if no_rx then 0 else xfer_len)
        ++ ((if cs_hold then w.xfer_cs_hold else 0) ∷ get_or req 3 0 ∷ (if no_rx then [] else rx)))

  -- The switch of worker_execute(): the result code and buf[0 .. len).
  unfoldable pub hal_body : Dev → Job → Cmd → HwRv × List ℕ × Dev
  hal_body d j Wire.get_mac = reply_with (hal.get_mac d) (take 6)
  hal_body d j Wire.wifi_get_rssi = reply_with (hal.wifi_get_rssi d) (λ r. r ∷ [])
  hal_body d j Wire.wifi_scan_start = hal.wifi_scan d reply_data_max
  hal_body d j Wire.ble_enable = no_data (hal.ble_enable d)
  hal_body d j Wire.ble_scan_start = hal.ble_scan d reply_data_max
  hal_body d j Wire.ble_adv_start = no_data (
      hal.ble_adv_start d (get_or j.req 0 0) (get_le16 j.req 2) (get_le16 j.req 4)
        (slice j.req 7 (get_or j.req 6 0)))
  hal_body d j Wire.ble_adv_stop = no_data (hal.ble_adv_stop d)
  hal_body d j Wire.ble_scan_stop = no_data (hal.ble_scan_stop d)
  hal_body d j Wire.ble_disconnect = no_data (hal.ble_disconnect d)
  hal_body d j Wire.ble_disable = no_data (hal.ble_disable d)
  hal_body d j Wire.ble_connect = no_data (hal.ble_connect d (get_or j.req 0 0) (drop 1 j.req))
  hal_body d j Wire.ble_gatt_register =
      reply_with (hal.ble_gatt_register d (take j.req_len j.req) w.gatt_max_chars)
        (λ handles. 0 ∷ length handles % 256 ∷ put_handles handles)
  hal_body d j Wire.ble_gatt_notify =
      no_data (hal.ble_gatt_notify d (get_le16 j.req 0) (slice j.req 2 (j.req_len - 2)))
  hal_body d j Wire.ble_gatt_write =
      no_data (hal.ble_gatt_write d (get_le16 j.req 0) (slice j.req 2 (j.req_len - 2)))
  hal_body d j Wire.ble_gatt_read =
      reply_with (hal.ble_gatt_read d (get_le16 j.req 0) reply_data_max) (λ v. v)
  hal_body d j Wire.wifi_connect_sta = join_body hal.wifi_connect_sta d j.req
  hal_body d j Wire.wifi_ap_start = join_body hal.wifi_ap_start d j.req
  hal_body d j Wire.wifi_disconnect = no_data (hal.wifi_disconnect d)
  hal_body d j Wire.wifi_ap_stop = no_data (hal.wifi_ap_stop d)
  hal_body d j Wire.sock_open =
      reply_with (hal.sock_open d (get_or j.req 0 0) (get_or j.req 1 0) (get_or j.req 2 0))
        (λ handle. put_le16 handle ++ (0 ∷ 0 ∷ []))
  hal_body d j Wire.sock_connect = no_data (
      hal.sock_connect d (get_le16 j.req 0) (get_or j.req 4 0) (get_le16 j.req 6) (slice j.req 8 4))
  hal_body d j Wire.sock_send =
      reply_with
        (hal.sock_send d (get_le16 j.req 0) (get_or j.req 2 0) (slice j.req 8 (get_le16 j.req 4)))
        put_le16
  hal_body d j Wire.sock_recv =
      reply_with
        (hal.sock_recv d (get_le16 j.req 0) (get_le16 j.req 2) (data_cap (get_le16 j.req 2)))
        (recv_result w)
  hal_body d j Wire.sock_close = no_data (hal.sock_close d (get_le16 j.req 0))
  hal_body d j Wire.sock_bind =
      no_data
        (hal.sock_bind d (get_le16 j.req 0) (get_or j.req 4 0) (get_le16 j.req 6) (slice j.req 8 4))
  hal_body d j Wire.sock_listen = no_data (hal.sock_listen d (get_le16 j.req 0) (get_or j.req 2 0))
  hal_body d j Wire.spi1_configure =
      reply_with
        (hal.spi1_configure d (get_le32 j.req 0) (get_or j.req 4 0) (get_or j.req 5 0)
          (get_or j.req 6 0))
        (λ actual.
          put_le32 actual ++ (put_le16 (w.spi1_max_xfer - 2) ++ (get_or j.req 5 0 ∷ 0 ∷ [])))
  hal_body d j Wire.spi1_transfer = transfer_body d j.req
  hal_body d j Wire.spi1_release = no_data (hal.spi1_release d)
  hal_body d j _ = (hw_notimpl, [], d)

-- What the end of worker_execute() does to the cache of a receive.
unfoldable pub store_recv : RecvCache → Job → HwRv → List ℕ → RecvCache
store_recv c j hw_ok kept =
    recv_worker_publish (recv_worker_copy (recv_worker_invalidate c) kept) (get_le16 j.req 0)
      (get_le16 j.req 2) hw_ok (length kept)
store_recv c j rv kept =
    recv_worker_publish (recv_worker_invalidate c) (get_le16 j.req 0) (get_le16 j.req 2) rv
      (length kept)

-- The reply caches: only a send and a receive have one.
unfoldable pub store_caches : Cmd → Bridge → HwRv → List ℕ → Bridge
store_caches Wire.sock_send b rv kept = record b {
  send = send_on_worker_complete b.send (get_or b.job.req send_seq_at 0) rv kept;
}
store_caches Wire.sock_recv b rv kept = record b { recv = store_recv b.recv b.job rv kept }
store_caches _ b rv kept = b

-- worker_execute() behind the body: the count, the clamp, the caches, and the slot.
unfoldable pub finish : Cmd → Bridge → HwRv × List ℕ → Bridge
finish cmd b (rv, out) =
    let b1 = store_caches cmd b rv (take max_payload out) in
    record b1 { job = publish b1.job rv out; worker_execs = (b1.worker_execs + 1) % 2 ^ 32 }

module _ (w : Layout) {Dev : Type 0} (hal : Hal Dev) where
  -- worker_execute().
  unfoldable pub execute : Cmd → Bridge → Dev → Bridge × Dev
  execute cmd b d = let (rv, out, d') = hal_body w hal d b.job cmd in (finish cmd b (rv, out), d')

module _ {Dev : Type 0} (hal : Hal Dev) where
  -- What worker_run_pending() finds out before the rearm: whether the transport is armed if it does
  -- not rearm it, and whether it leaves it alone.
  unfoldable pub rearm_plan : Cmd → Dev → (Bool × Bool) × Dev
  rearm_plan Wire.wifi_connect_sta d =
      let ((reinit, armed), d1) = hal.connect_sta_take_reinit d in
      let ((reported, skip_ok), d2) = hal.connect_sta_take_fail_skip d1 in
      (((if reinit then armed else true), reinit || (reported && skip_ok)), d2)
  rearm_plan Wire.wifi_get_rssi d =
      let ((reported, started), d1) = hal.get_rssi_take_reinit_skip d in
      ((true, reported && started), d1)
  rearm_plan Wire.ble_scan_stop d = ((true, true), d)
  rearm_plan Wire.ble_disconnect d = ((true, true), d)
  rearm_plan Wire.spi1_configure d = ((true, true), d)
  rearm_plan Wire.spi1_transfer d = ((true, true), d)
  rearm_plan Wire.spi1_release d = ((true, true), d)
  rearm_plan Wire.sock_open d = ((true, true), d)
  rearm_plan Wire.sock_connect d = ((true, true), d)
  rearm_plan Wire.sock_close d = ((true, true), d)
  rearm_plan Wire.sock_bind d = ((true, true), d)
  rearm_plan Wire.sock_listen d = ((true, true), d)
  rearm_plan Wire.sock_recv d = ((true, true), d)
  rearm_plan Wire.sock_send d = ((true, true), d)
  rearm_plan Wire.wifi_disconnect d = ((true, true), d)
  rearm_plan _ d = ((true, false), d)

  unfoldable pub rearm : (Bool × Bool) × Dev → Bool × Dev
  rearm ((armed, true), d) = (armed, d)
  rearm ((armed, false), d) = hal.spi_hw_reinit (hal.bridge_busy d)

  unfoldable pub publish_role : Cmd → Dev → Dev
  publish_role Wire.wifi_ap_start d = hal.ap_role_publish d
  publish_role _ d = d

  -- READY goes up only where the transport is armed.
  unfoldable pub raise : Cmd → Bool × Dev → Dev
  raise cmd (true, d) = hal.bridge_ready (publish_role cmd d)
  raise cmd (false, d) = publish_role cmd d

-- The slot of a connect is freed, since no host polls for it again.
unfoldable pub free_slot : Cmd → Job → Job
free_slot Wire.wifi_connect_sta j = reset j
free_slot Wire.wifi_ap_start j = reset j
free_slot _ j = j

module _ (w : Layout) {Dev : Type 0} (hal : Hal Dev) where
  unfoldable pub drain : Option Cmd × Job → Bridge → Dev → Bridge × Dev
  drain (none, j) b d = (b, d)
  drain (some cmd, j) b d =
      let (b1, d1) = execute w hal cmd (with_job b j) (hal.bridge_busy d) in
      (with_job b1 (free_slot cmd b1.job), raise hal cmd (rearm hal (rearm_plan hal cmd d1)))

  -- worker_run_pending().
  unfoldable pub run_pending : Bridge → Dev → Bridge × Dev
  run_pending b d = drain (take_pending b.job) b d
