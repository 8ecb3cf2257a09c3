-- ===== src/Spi1/Fits.antt =====
-- The data of an SPI1 reply are within the room of the reply.
use cc3501e_bridge_firmware.Base.{
  ℕ, ◌≤◌, Option, none, some, List, leb, ◌==◌, length, get_or, inl, inr, Bool-cases, arith,
}
use cc3501e_bridge_firmware.Wire
use cc3501e_bridge_firmware.Wire.{
  Resp, ok, err_invalid, err_busy, err_no_mem, err_not_ready, err_radio, err_protocol, err_state,
  Layout,
}
use cc3501e_bridge_firmware.Worker.{WorkerState, idle, queued, running, done, err, Polled, poll}
use cc3501e_bridge_firmware.Bridge.{Bridge, Reply, Spi1}
use cc3501e_bridge_firmware.Routed.{
  with_job, handle_worker_routed, handle_worker_routed_payload_reply,
}
use cc3501e_bridge_firmware.Routed.Fits.{
  Fits, poll-fits, handle_worker_routed-Fits, handle_worker_routed_payload_reply-Fits,
}
use cc3501e_bridge_firmware.Spi1.{
  configured_by, handle_spi1_configure, transfer_guard, settle_transfer, guarded_transfer,
  handle_spi1_transfer, released_by, handle_spi1_release, transfer_resp_bytes,
}

configured_by-Fits :
    (r : Reply) (s : Spi1) (room : ℕ) → Fits r room → Fits (configured_by r s).0 room
unfolding configured_by
configured_by-Fits (ok, bytes, b) s room f = f
configured_by-Fits (err_invalid, bytes, b) s room f = f
configured_by-Fits (err_busy, bytes, b) s room f = f
configured_by-Fits (err_no_mem, bytes, b) s room f = f
configured_by-Fits (err_not_ready, bytes, b) s room f = f
configured_by-Fits (err_radio, bytes, b) s room f = f
configured_by-Fits (err_protocol, bytes, b) s room f = f
configured_by-Fits (err_state, bytes, b) s room f = f

released_by-Fits : (r : Reply) (s : Spi1) (room : ℕ) → Fits r room → Fits (released_by r s).0 room
unfolding released_by
released_by-Fits (ok, bytes, b) s room f = f
released_by-Fits (err_invalid, bytes, b) s room f = f
released_by-Fits (err_busy, bytes, b) s room f = f
released_by-Fits (err_no_mem, bytes, b) s room f = f
released_by-Fits (err_not_ready, bytes, b) s room f = f
released_by-Fits (err_radio, bytes, b) s room f = f
released_by-Fits (err_protocol, bytes, b) s room f = f
released_by-Fits (err_state, bytes, b) s room f = f

settle_transfer-Fits :
    (st : WorkerState) (w : Layout) (b : Bridge) (s : Spi1) (p : Polled) (req : List ℕ) (room : ℕ)
    → length p.out ≤ room
    → Fits (settle_transfer st w b s p req).0 room
unfolding settle_transfer
settle_transfer-Fits done w b s p req room f =
    elim (Bool-cases (leb transfer_resp_bytes (length p.out))) [
      | inr n ↦ rw n (omega arith)
      | inl y ↦ elim (Bool-cases (get_or p.out 3 0 == get_or req 3 0)) [
        | inl m ↦ rw (y, m) f
        | inr m ↦ rw (y, m) (omega arith)
      ]
    ]
settle_transfer-Fits err w b s p req room f = omega arith
settle_transfer-Fits idle w b s p req room f = omega arith
settle_transfer-Fits queued w b s p req room f = omega arith
settle_transfer-Fits running w b s p req room f = omega arith

guarded_transfer-Fits :
    (o : Option Resp) (w : Layout) (b : Bridge) (s : Spi1) (req : List ℕ) (room : ℕ)
    → Fits (guarded_transfer o w b s req room).0 room
unfolding guarded_transfer
guarded_transfer-Fits (some status) w b s req room = omega arith
guarded_transfer-Fits none w b s req room =
    let p = (poll b.job Wire.spi1_transfer room).0 in
    settle_transfer-Fits p.status w (with_job b (poll b.job Wire.spi1_transfer room).1) s p req room
      (poll-fits b.job Wire.spi1_transfer room)

pub handle_spi1_transfer-Fits :
    (w : Layout) (b : Bridge) (s : Spi1) (req : List ℕ) (room : ℕ)
    → Fits (handle_spi1_transfer w b s req room).0 room
unfolding handle_spi1_transfer
handle_spi1_transfer-Fits w b s req room =
    guarded_transfer-Fits (transfer_guard w s req room) w b s req room

pub handle_spi1_configure-Fits :
    (w : Layout) (b : Bridge) (s : Spi1) (req : List ℕ) (room : ℕ)
    → Fits (handle_spi1_configure w b s req room).0 room
unfolding handle_spi1_configure
handle_spi1_configure-Fits w b s req room = ground (
  arith,
  configured_by-Fits (handle_worker_routed_payload_reply b Wire.spi1_configure req 8 room) s room
      (handle_worker_routed_payload_reply-Fits b Wire.spi1_configure req 8 room),
)

pub handle_spi1_release-Fits :
    (b : Bridge) (s : Spi1) (req : List ℕ) (room : ℕ)
    → Fits (handle_spi1_release b s req room).0 room
unfolding handle_spi1_release
handle_spi1_release-Fits b s req room = elim (Bool-cases (length req == 0)) [
  | inr n ↦ rw n (omega arith)
  | inl y ↦ rw y (
      released_by-Fits (handle_worker_routed b Wire.spi1_release 0 (length req) room) s room
        (handle_worker_routed-Fits b Wire.spi1_release 0 (length req) room))
]
