-- ===== src/Routed/Collect.antt =====
-- One request to a worker-routed helper: how the latch, the poll and the switch meet.
use cc3501e_bridge_firmware.Base.{
  ℕ, ◌≤◌, ◌≡◌, inl, inr, refl, ap, true, false, Option, none, List, [], length, ltb, ◌==◌,
  Bool-cases, ltb-false,
}
use cc3501e_bridge_firmware.Wire.{Cmd, Resp, ok, max_payload}
use cc3501e_bridge_firmware.Worker.{
  WorkerState, idle, queued, running, done, err, Job, is_idle, is_terminal, reset, submit,
  submit_payload, Polled, poll, poll_own,
}
use cc3501e_bridge_firmware.Worker.Slot.{poll_idle, poll_orphan, poll_mine, poll_cases}
use cc3501e_bridge_firmware.Bridge.{Bridge, Reply}
use cc3501e_bridge_firmware.Latch
use cc3501e_bridge_firmware.Latch.{hit, drop_latch}
use cc3501e_bridge_firmware.Latch.Serve.{Answers, serve-Answers}
use cc3501e_bridge_firmware.Routed.{
  err_resp, with_job, collect, route, handle_worker_routed, handle_worker_routed_payload,
  handle_worker_routed_payload_reply,
}

pub route-hit :
    (b : Bridge) (cmd : Cmd) (room : ℕ) (k : Bridge → Bridge)
    → Answers b cmd room
    → route b cmd room k ≡ (b.latch.status, b.latch.bytes, hit b)
unfolding route
route-hit b cmd room k a = rw (serve-Answers b cmd room a, route)

-- A miss: the poll of the slot decides. The state is as it was but for the latch.
pub route_miss :
    (b b1 : Bridge) (cmd : Cmd) (room : ℕ) (k : Bridge → Bridge)
    → Latch.serve b cmd room ≡ (none, b1)
    → route b cmd room k
      ≡ collect
          (poll b1.job cmd room).0.status
          (with_job b1 (poll b1.job cmd room).1)
          cmd
          (poll b1.job cmd room).0
          (k (with_job b1 (poll b1.job cmd room).1))
unfolding route
route_miss b b1 cmd room k e = rw (e, route)

reset_idle : (j : Job) → is_terminal (reset j).state ≡ false
unfolding reset
reset_idle j = refl

pub store_job :
    (b : Bridge) (cmd : Cmd) (status : Resp) (bytes : List ℕ)
    → (Latch.store b cmd status bytes).job ≡ b.job
unfolding Latch.store
store_job b cmd status bytes = elim (Bool-cases (Latch.applies cmd)) [
  | inr n ↦ rw n
  | inl y ↦ elim (Bool-cases (b.req_seq == 0)) [
    | inl z ↦ rw (y, z)
    | inr z ↦ elim (Bool-cases (ltb Latch.latch_bytes (length bytes))) [
      | inl s ↦ rw (y, z, s)
      | inr s ↦ rw (y, z, s)
    ]
  ]
]

poll_own_terminal :
    (st : WorkerState) (j : Job) (room : ℕ)
    → is_terminal (poll_own st j room).status ≡ false
    → is_terminal st ≡ false
unfolding poll_own
poll_own_terminal done j room h = elim (Bool-cases (ltb room j.result_len)) [
  | inl big ↦ rw big at h
  | inr fits ↦ rw fits at h
]
poll_own_terminal err j room h = h
poll_own_terminal idle j room h = refl
poll_own_terminal queued j room h = refl
poll_own_terminal running j room h = refl

idle_unfinished : (st : WorkerState) → is_idle st ≡ true → is_terminal st ≡ false
idle_unfinished idle i = refl
idle_unfinished queued i = refl
idle_unfinished running i = refl
idle_unfinished done i = cc
idle_unfinished err i = cc

-- Where a poll reports no result, it leaves none of another opcode in the slot either.
pub poll_settles :
    (j : Job) (cmd : Cmd) (room : ℕ)
    → is_terminal (poll j cmd room).0.status ≡ false
    → is_terminal (poll j cmd room).1.state ≡ false
poll_settles j cmd room h = elim (poll_cases j cmd) [
  | inl i ↦ rw (poll_idle j cmd room i) (idle_unfinished j.state i)
  | inr (inl (i, c)) ↦ elim (Bool-cases (is_terminal j.state)) [
    | inl t ↦ rw (poll_orphan j cmd room i c, t) (reset_idle j)
    | inr t ↦ rw (poll_orphan j cmd room i c, t) t
  ]
  | inr (inr (i, c)) ↦
      rw (poll_mine j cmd room i c)
        (poll_own_terminal j.state j room (rw (poll_mine j cmd room i c) at h))
]

collect_settles :
    (st : WorkerState) (b : Bridge) (cmd : Cmd) (p : Polled) (submitted : Bridge)
    → (is_terminal st ≡ false → is_terminal b.job.state ≡ false)
    → (is_terminal b.job.state ≡ false → is_terminal submitted.job.state ≡ false)
    → is_terminal (collect st b cmd p submitted).2.job.state ≡ false
unfolding collect
collect_settles done b cmd p submitted h s =
    rw (store_job (with_job b (reset b.job)) cmd ok p.out) (reset_idle b.job)
collect_settles err b cmd p submitted h s =
    rw (store_job (with_job b (reset b.job)) cmd (err_resp p.rv) []) (reset_idle b.job)
collect_settles idle b cmd p submitted h s = s (h refl)
collect_settles queued b cmd p submitted h s = h refl
collect_settles running b cmd p submitted h s = h refl

-- What a helper hands to `route` to submit its job finishes none.
abbrev Submits : (Bridge → Bridge) → Type 0
Submits k = (b : Bridge) → is_terminal b.job.state ≡ false → is_terminal (k b).job.state ≡ false

route_settles :
    (b : Bridge) (cmd : Cmd) (room : ℕ) (k : Bridge → Bridge)
    → Submits k
    → (Latch.serve b cmd room).0 ≡ none
    → is_terminal (route b cmd room k).2.job.state ≡ false
route_settles b cmd room k s miss =
    let b1 = (Latch.serve b cmd room).1 in
    let after = with_job b1 (poll b1.job cmd room).1 in
    rw (route_miss b b1 cmd room k (ap (λ (o : Option (Resp × List ℕ)). (o, b1)) miss)) (
      collect_settles (poll b1.job cmd room).0.status after cmd (poll b1.job cmd room).0 (k after)
        (poll_settles b1.job cmd room) (s after))

-- The submits finish no job.
submit_unfinished :
    (j : Job) (cmd : Cmd) → is_terminal j.state ≡ false → is_terminal (submit j cmd).0.state ≡ false
unfolding submit
submit_unfinished j cmd h = elim (Bool-cases (is_idle j.state)) [
  | inl y ↦ rw y refl
  | inr n ↦ rw n h
]

submit_payload_unfinished :
    (j : Job) (cmd : Cmd) (bytes : List ℕ)
    → is_terminal j.state ≡ false
    → is_terminal (submit_payload j cmd bytes).0.state ≡ false
unfolding submit_payload
submit_payload_unfinished j cmd bytes h = elim (Bool-cases (ltb max_payload (length bytes))) [
  | inl big ↦ rw big h
  | inr fits ↦ elim (Bool-cases (is_idle j.state)) [
    | inl y ↦ rw (fits, y) refl
    | inr n ↦ rw (fits, n) h
  ]
]

-- A call of one of the three helpers: for a request without a payload, for one with the payload `req`,
-- and for one with a payload and reply data; `min_cap` is the room that the reply data need.
pub data Helper : Type 0 where
  argless : ℕ → Helper
  payload : List ℕ → Helper
  payload_reply : List ℕ → ℕ → Helper

abbrev pub call : Helper → Bridge → Cmd → ℕ → Reply
call (argless min_cap) b cmd room = handle_worker_routed b cmd min_cap 0 room
call (payload req) b cmd room = handle_worker_routed_payload b cmd req
call (payload_reply req min_cap) b cmd room =
    handle_worker_routed_payload_reply b cmd req min_cap room

-- The room that the latch is asked with, and that the helper's guard asks for.
abbrev pub latch_room : Helper → ℕ → ℕ
latch_room (payload req) room = 0
latch_room _ room = room

abbrev pub needs : Helper → ℕ
needs (argless min_cap) = min_cap
needs (payload req) = 0
needs (payload_reply req min_cap) = min_cap

-- A call of handle_worker_routed() for a request without a payload, of handle_worker_routed_payload()
-- or of handle_worker_routed_payload_reply(), with the room that the reply data need, that the latch
-- does not answer, leaves no finished job in the slot, whose ever it was: the slot cannot be held by
-- a result that nobody comes back for.
pub call_settles :
    (h : Helper) (b : Bridge) (cmd : Cmd) (room : ℕ)
    → needs h ≤ room
    → (Latch.serve b cmd (latch_room h room)).0 ≡ none
    → is_terminal (call h b cmd room).2.job.state ≡ false
unfolding handle_worker_routed handle_worker_routed_payload handle_worker_routed_payload_reply
call_settles (argless min_cap) b cmd room enough miss =
    rw (ltb-false room min_cap enough)
      (route_settles b cmd room _ (λ b' t. submit_unfinished b'.job cmd t) miss)
call_settles (payload req) b cmd room enough miss =
    route_settles b cmd 0 _ (λ b' t. submit_payload_unfinished b'.job cmd req t) miss
call_settles (payload_reply req min_cap) b cmd room enough miss =
    rw (ltb-false room min_cap enough)
      (route_settles b cmd room _ (λ b' t. submit_payload_unfinished b'.job cmd req t) miss)
