-- ===== src/Routed/Fits.antt =====
-- The data of a worker-routed reply are within the room of the reply.
use cc3501e_bridge_firmware.Base.{
  ℕ, ◌≤◌, ◌≡◌, inl, inr, none, List, length, ltb, ◌==◌, Bool-cases, length-take, arith,
}
use cc3501e_bridge_firmware.Wire.{Cmd}
use cc3501e_bridge_firmware.Worker.{
  WorkerState, idle, queued, running, done, err, Job, is_terminal, Polled, poll, poll_own,
}
use cc3501e_bridge_firmware.Worker.Slot.{poll_idle, poll_orphan, poll_mine, poll_cases}
use cc3501e_bridge_firmware.Bridge.{Bridge, Reply}
use cc3501e_bridge_firmware.Latch
use cc3501e_bridge_firmware.Latch.{drop_latch}
use cc3501e_bridge_firmware.Latch.Serve.{serve_cases}
use cc3501e_bridge_firmware.Routed.{
  with_job, collect, route, handle_worker_routed, handle_worker_routed_payload,
  handle_worker_routed_payload_reply,
}
use cc3501e_bridge_firmware.Routed.Collect.{route-hit, route_miss}

abbrev pub Fits : Reply → ℕ → Type 0
Fits r room = length r.1 ≤ room

poll_own-fits : (st : WorkerState) (j : Job) (room : ℕ) → length (poll_own st j room).out ≤ room
unfolding poll_own
poll_own-fits done j room = elim (Bool-cases (ltb room j.result_len)) [
  | inl big ↦ rw big (omega arith)
  | inr fits ↦ rw fits (ground (arith, length-take j.result_len j.result))
]
poll_own-fits idle j room = omega arith
poll_own-fits queued j room = omega arith
poll_own-fits running j room = omega arith
poll_own-fits err j room = omega arith

pub poll-fits : (j : Job) (cmd : Cmd) (room : ℕ) → length (poll j cmd room).0.out ≤ room
poll-fits j cmd room = elim (poll_cases j cmd) [
  | inl i ↦ rw (poll_idle j cmd room i) (omega arith)
  | inr (inl (i, c)) ↦ elim (Bool-cases (is_terminal j.state)) [
    | inl t ↦ rw (poll_orphan j cmd room i c, t) (omega arith)
    | inr t ↦ rw (poll_orphan j cmd room i c, t) (omega arith)
  ]
  | inr (inr (i, c)) ↦ rw (poll_mine j cmd room i c) (poll_own-fits j.state j room)
]

collect-Fits :
    (st : WorkerState) (b : Bridge) (cmd : Cmd) (p : Polled) (submitted : Bridge) (room : ℕ)
    → length p.out ≤ room
    → Fits (collect st b cmd p submitted) room
unfolding collect
collect-Fits done b cmd p submitted room h = h
collect-Fits err b cmd p submitted room h = omega arith
collect-Fits idle b cmd p submitted room h = omega arith
collect-Fits queued b cmd p submitted room h = omega arith
collect-Fits running b cmd p submitted room h = omega arith

missed-Fits :
    (b b1 : Bridge) (cmd : Cmd) (room : ℕ) (k : Bridge → Bridge)
    → Latch.serve b cmd room ≡ (none, b1)
    → Fits (route b cmd room k) room
missed-Fits b b1 cmd room k e =
    let after = with_job b1 (poll b1.job cmd room).1 in
    rw (route_miss b b1 cmd room k e) (
      collect-Fits (poll b1.job cmd room).0.status after cmd (poll b1.job cmd room).0 (k after) room
        (poll-fits b1.job cmd room))

pub route-Fits :
    (b : Bridge) (cmd : Cmd) (room : ℕ) (k : Bridge → Bridge) → Fits (route b cmd room k) room
route-Fits b cmd room k = elim (serve_cases b cmd room) [
  | inl a ↦ rw (route-hit b cmd room k a) (ground (arith, a.fits))
  | inr (inl e) ↦ missed-Fits b b cmd room k e
  | inr (inr e) ↦ missed-Fits b (drop_latch b) cmd room k e
]

pub handle_worker_routed-Fits :
    (b : Bridge) (cmd : Cmd) (min_cap req_len room : ℕ)
    → Fits (handle_worker_routed b cmd min_cap req_len room) room
unfolding handle_worker_routed
handle_worker_routed-Fits b cmd min_cap req_len room = elim (Bool-cases (req_len == 0)) [
  | inr n ↦ rw n (omega arith)
  | inl z ↦ elim (Bool-cases (ltb room min_cap)) [
    | inl s ↦ rw (z, s) (omega arith)
    | inr s ↦ rw (z, s) (route-Fits b cmd room _)
  ]
]

pub handle_worker_routed_payload-Fits :
    (b : Bridge) (cmd : Cmd) (req : List ℕ) (room : ℕ)
    → Fits (handle_worker_routed_payload b cmd req) room
unfolding handle_worker_routed_payload
handle_worker_routed_payload-Fits b cmd req room = omega (arith, route-Fits b cmd 0 _)

pub handle_worker_routed_payload_reply-Fits :
    (b : Bridge) (cmd : Cmd) (req : List ℕ) (min_cap room : ℕ)
    → Fits (handle_worker_routed_payload_reply b cmd req min_cap room) room
unfolding handle_worker_routed_payload_reply
handle_worker_routed_payload_reply-Fits b cmd req min_cap room =
    elim (Bool-cases (ltb room min_cap)) [
      | inl s ↦ rw s (omega arith)
      | inr s ↦ rw s (route-Fits b cmd room _)
    ]
