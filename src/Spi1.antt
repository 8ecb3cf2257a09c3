-- ===== src/Spi1.antt =====
-- src/protocol_spi.c: the SPI1 passthrough, a session of configure, transfers and release.
pub mod Session
pub mod Fits
mod Tests
use cc3501e_bridge_firmware.Base.{
  ℕ, ◌+◌, ◌-◌, Bool, true, false, not, ◌&&◌, Option, none, some, List, [], ltb, leb, ◌==◌,
  if◌then◌else◌, length, get_or,
}
use Prim.Native.Nat.{bit_and, bit_or}
use cc3501e_bridge_firmware.Wire
use cc3501e_bridge_firmware.Wire.{
  Resp, ok, err_invalid, err_busy, err_no_mem, err_not_ready, err_state, HwRv, hw_notimpl, hw_inval,
  Layout, get_le16,
}
use cc3501e_bridge_firmware.Worker.{
  WorkerState, idle, done, err, Job, reset, submit_payload, Polled, poll,
}
use cc3501e_bridge_firmware.Bridge.{Bridge, Reply, Spi1}
use cc3501e_bridge_firmware.Routed.{
  with_job, handle_worker_routed, handle_worker_routed_payload_reply,
}
use cc3501e_bridge_firmware.Execute.{flag}

-- sizeof() of alp_cc3501e_spi1_configure_t, _config_resp_t, _transfer_t and _transfer_resp_t, as
-- src/worker.c lays them out.
abbrev pub configure_bytes : ℕ
configure_bytes = 8

abbrev pub transfer_bytes : ℕ
transfer_bytes = 8

abbrev pub transfer_resp_bytes : ℕ
transfer_resp_bytes = 4

-- The end of handle_spi1_configure(): success opens the session.
pub configured_by : Reply → Spi1 → Reply × Spi1
configured_by (ok, bytes, b) s = ((ok, bytes, b), record { configured = true; cs_held = false })
configured_by r s = (r, s)

pub handle_spi1_configure : Layout → Bridge → Spi1 → List ℕ → ℕ → Reply × Spi1
handle_spi1_configure w b s req room =
    if not (length req == configure_bytes)
    then ((err_invalid, [], b), s)
    else if ltb 3 (get_or req 4 0)
    then ((err_invalid, [], b), s)
    else if not (get_or req 5 0 == 8)
    then ((err_invalid, [], b), s)
    else if ltb w.spi1_cs1 (get_or req 6 0)
    then ((err_invalid, [], b), s)
    else if s.cs_held
    then ((err_state, [], b), s)
    else configured_by (handle_worker_routed_payload_reply b Wire.spi1_configure req 8 room) s

-- SPI1_XFER_FLAGS_ALL, and the bits of a flags byte outside of it.
pub unknown_flags : Layout → ℕ → Bool
unknown_flags w flags = flag flags (255 - bit_or w.xfer_cs_hold (bit_or w.xfer_no_rx w.xfer_no_tx))

-- The checks at the head of handle_spi1_transfer(); none where the request passes.
pub transfer_guard : Layout → Spi1 → List ℕ → ℕ → Option Resp
transfer_guard w s req room =
    let len = get_le16 req 0 in
    let flags = get_or req 2 0 in
    let sent = if flag flags w.xfer_no_tx then 0 else len in
    let wanted = if flag flags w.xfer_no_rx then 0 else len in
    if ltb (length req) transfer_bytes
    then some err_invalid
    else if unknown_flags w flags
    then some err_invalid
    else if ltb (w.spi1_max_xfer - 2) len
    then some err_invalid
    else if not (length req == transfer_bytes + sent)
    then some err_invalid
    else if not s.configured
    then some err_not_ready
    else if ltb room (transfer_resp_bytes + wanted)
    then some err_no_mem
    else none

-- The statuses of a failed transfer.
pub transfer_err : HwRv → Resp
transfer_err hw_notimpl = err_not_ready
transfer_err hw_inval = err_invalid
transfer_err _ = err_state

abbrev pub queue_transfer : Bridge → List ℕ → Bridge
queue_transfer b req = with_job b (submit_payload b.job Wire.spi1_transfer req).0

-- The rest of the function, by the state that the poll reports. A result is answered only to the
-- sequence number that it carries, and stays in the slot for a repetition.
pub settle_transfer : WorkerState → Layout → Bridge → Spi1 → Polled → List ℕ → Reply × Spi1
settle_transfer done w b s p req =
    if leb transfer_resp_bytes (length p.out) && get_or p.out 3 0 == get_or req 3 0
    then ((ok, p.out, b), record s { cs_held = flag (get_or p.out 2 0) w.xfer_cs_hold })
    else ((err_busy, [], queue_transfer (with_job b (reset b.job)) req), s)
settle_transfer err w b s p req =
    ((transfer_err p.rv, [], with_job b (reset b.job)), record s { cs_held = false })
settle_transfer idle w b s p req = ((err_busy, [], queue_transfer b req), s)
settle_transfer _ w b s p req = ((err_busy, [], b), s)

pub guarded_transfer : Option Resp → Layout → Bridge → Spi1 → List ℕ → ℕ → Reply × Spi1
guarded_transfer (some status) w b s req room = ((status, [], b), s)
guarded_transfer none w b s req room =
    let (p, j) = poll b.job Wire.spi1_transfer room in
    settle_transfer p.status w (with_job b j) s p req

pub handle_spi1_transfer : Layout → Bridge → Spi1 → List ℕ → ℕ → Reply × Spi1
handle_spi1_transfer w b s req room = guarded_transfer (transfer_guard w s req room) w b s req room

-- The end of handle_spi1_release(): any final answer closes the session.
pub released_by : Reply → Spi1 → Reply × Spi1
released_by (err_busy, bytes, b) s = ((err_busy, bytes, b), s)
released_by r s = (r, record { configured = false; cs_held = false })

pub handle_spi1_release : Bridge → Spi1 → List ℕ → ℕ → Reply × Spi1
handle_spi1_release b s req room =
    if not (length req == 0)
    then ((err_invalid, [], b), s)
    else released_by (handle_worker_routed b Wire.spi1_release 0 (length req) room) s
