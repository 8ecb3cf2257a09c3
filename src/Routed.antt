-- ===== src/Routed.antt =====
-- The three worker-routed helpers of src/protocol.c: submit, poll, collect, latch.
pub mod Collect
pub mod Replay
pub mod Fits
pub mod Repeat
mod Tests
use cc3501e_bridge_firmware.Base.{
  ℕ, Bool, true, false, not, Option, none, some, List, [], ltb, ◌==◌, if◌then◌else◌, length,
}
use cc3501e_bridge_firmware.Wire.{
  Cmd, sock_recv, wifi_connect_sta, Resp, ok, err_invalid, err_busy, err_no_mem, err_not_ready,
  err_radio, err_state, HwRv, hw_notimpl, hw_inval, hw_state, hw_no_mem,
}
use cc3501e_bridge_firmware.Worker.{
  WorkerState, idle, queued, running, done, err, Job, same_cmd, reset, submit, submit_payload,
  Polled, poll,
}
use cc3501e_bridge_firmware.Bridge.{Bridge, Reply}
use cc3501e_bridge_firmware.Latch

-- The ladder of `case WORKER_ERR`.
unfoldable pub err_resp : HwRv → Resp
err_resp hw_notimpl = err_not_ready
err_resp hw_inval = err_invalid
err_resp hw_state = err_state
err_resp hw_no_mem = err_no_mem
err_resp _ = err_radio

abbrev pub with_job : Bridge → Job → Bridge
with_job b j = record b { job = j }

-- The `switch (st)` of a helper. `submitted` is the state that its `case WORKER_IDLE` leaves.
unfoldable pub collect : WorkerState → Bridge → Cmd → Polled → Bridge → Reply
unfolding err_resp
collect done b cmd p submitted = (ok, p.out, Latch.store (with_job b (reset b.job)) cmd ok p.out)
collect err b cmd p submitted =
    (err_resp p.rv, [], Latch.store (with_job b (reset b.job)) cmd (err_resp p.rv) [])
collect idle b cmd p submitted = (err_busy, [], submitted)
collect _ b cmd p submitted = (err_busy, [], b)

-- What a helper does once its own guards have passed: it serves from the latch, or polls and
-- switches. `submit_job` is the submit of its `case WORKER_IDLE`.
unfoldable pub switch : Polled × Job → Bridge → Cmd → (Bridge → Bridge) → Reply
switch (p, j) b cmd submit_job = collect p.status (with_job b j) cmd p (submit_job (with_job b j))

unfoldable pub answer : Option (Resp × List ℕ) × Bridge → Cmd → ℕ → (Bridge → Bridge) → Reply
answer (some (status, bytes), b) cmd room submit_job = (status, bytes, b)
answer (none, b) cmd room submit_job = switch (poll b.job cmd room) b cmd submit_job

unfoldable pub route : Bridge → Cmd → ℕ → (Bridge → Bridge) → Reply
unfolding switch answer
route b cmd room submit_job = answer (Latch.serve b cmd room) cmd room submit_job

-- handle_worker_routed(), for a request of `req_len` bytes.
unfoldable pub handle_worker_routed : Bridge → Cmd → ℕ → ℕ → ℕ → Reply
handle_worker_routed b cmd min_cap req_len room =
    if not (req_len == 0)
    then (err_invalid, [], b)
    else if ltb room min_cap
    then (err_no_mem, [], b)
    else route b cmd room (λ b'. with_job b' (submit b'.job cmd).0)

-- handle_worker_routed_payload(): a reply without data, so the capacity is 0.
unfoldable pub handle_worker_routed_payload : Bridge → Cmd → List ℕ → Reply
handle_worker_routed_payload b cmd req = route b cmd 0 (λ b'. record b' {
  job = (submit_payload b'.job cmd req).0;
  connecting = if same_cmd cmd wifi_connect_sta then true else b'.connecting;
})

-- handle_worker_routed_payload_reply(), with protocol_sock_recv_note_submit().
unfoldable pub handle_worker_routed_payload_reply : Bridge → Cmd → List ℕ → ℕ → ℕ → Reply
handle_worker_routed_payload_reply b cmd req min_cap room =
    if ltb room min_cap
    then (err_no_mem, [], b)
    else route b cmd room (λ b'. record b' {
      job = (submit_payload b'.job cmd req).0;
      recv = if same_cmd cmd sock_recv then record (b'.recv) { job_seq = b'.req_seq } else b'.recv;
    })
