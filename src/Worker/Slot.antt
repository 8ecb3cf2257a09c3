-- ===== src/Worker/Slot.antt =====
-- The job slot as a state machine, and what a poll may give away.
use cc3501e_bridge_firmware.Base.{
  ℕ, ◌≤◌, ◌≡◌, ◌≢◌, ◌⊎◌, refl, Bool, true, false, ◌&&◌, List, length, take, ap, if◌then◌else◌,
  Bool-cases, ltb, inl, inr, arith,
}
use cc3501e_bridge_firmware.Wire.{Cmd, sock_recv, max_payload}
use cc3501e_bridge_firmware.Worker.{
  WorkerState, idle, queued, running, done, err, Job, is_idle, is_terminal, reset, submit,
  submit_payload, poll, poll_own, discard_stale_terminal, reclaim_matching_terminal,
  discard_stale_recv, take_pending, promote, nothing, same_cmd, same_cmd→eq, same_cmd_ne,
}

-- A call that touches the slot. The drain publishes only what it took.
pub data Op : Type 0 where
  submits : Cmd → Op
  submits_payload : Cmd → List ℕ → Op
  polls : Cmd → ℕ → Op
  resets : Op
  discards : Cmd → ℕ → ℕ → Op
  reclaims : Cmd → ℕ → ℕ → Op
  discards_recv : Op
  takes : Op

pub apply : Op → Job → Job
apply (submits cmd) j = (submit j cmd).0
apply (submits_payload cmd payload) j = (submit_payload j cmd payload).0
apply (polls cmd room) j = (poll j cmd room).1
apply resets j = reset j
apply (discards cmd off byte) j = (discard_stale_terminal j cmd off byte).0
apply (reclaims cmd off byte) j = (reclaim_matching_terminal j cmd off byte).0
apply discards_recv j = (discard_stale_recv j).0
apply takes j = (take_pending j).1

-- The calls that the SPI side makes while a job runs leave it alone; `resets` is made only once
-- the job is finished.
abbrev pub IsReset : Op → Type 0
IsReset resets = Unit {0}
IsReset _ = ⊥

pub poll_idle :
    (j : Job) (cmd : Cmd) (room : ℕ) → is_idle j.state ≡ true → poll j cmd room ≡ (nothing idle, j)
unfolding poll
poll_idle j cmd room e = rw e

pub poll_orphan :
    (j : Job) (cmd : Cmd) (room : ℕ)
    → is_idle j.state ≡ false
    → same_cmd j.job_cmd cmd ≡ false
    → poll j cmd room
      ≡ (if is_terminal j.state then (nothing idle, reset j) else (nothing running, j))
unfolding poll
poll_orphan j cmd room i c = rw (i, c)

pub poll_mine :
    (j : Job) (cmd : Cmd) (room : ℕ)
    → is_idle j.state ≡ false
    → same_cmd j.job_cmd cmd ≡ true
    → poll j cmd room ≡ (poll_own j.state j room, j)
unfolding poll
poll_mine j cmd room i c = rw (i, c)

-- The three ways that a poll goes.
pub poll_cases :
    (j : Job) (cmd : Cmd)
    → (is_idle j.state ≡ true)
      ⊎ ((is_idle j.state ≡ false) × (same_cmd j.job_cmd cmd ≡ false))
      ⊎ ((is_idle j.state ≡ false) × (same_cmd j.job_cmd cmd ≡ true))
poll_cases j cmd = elim (Bool-cases (is_idle j.state)) [
  | inl i ↦ inl i
  | inr i ↦ elim (Bool-cases (same_cmd j.job_cmd cmd)) [
    | inl c ↦ inr (inr (i, c))
    | inr c ↦ inr (inl (i, c))
  ]
]

busy : (st : WorkerState) → is_terminal st ≡ true → is_idle st ≡ false
busy done t = refl
busy err t = refl
busy idle t = cc
busy queued t = refl
busy running t = refl

-- What every call keeps of a job in flight.
abbrev pub Kept : Job → Job → Type 0
Kept j j' =
    (j'.job_cmd ≡ j.job_cmd)
    × (j'.req ≡ j.req)
    × (j'.req_len ≡ j.req_len)
    × ((j'.state ≡ j.state) ⊎ (j'.state ≡ running))

untouched : (j j' : Job) → j' ≡ j → Kept j j'
untouched j j' e = (ap Job.job_cmd e, ap Job.req e, ap Job.req_len e, inl (ap Job.state e))

pub submit_busy : (j : Job) (cmd : Cmd) → is_idle j.state ≡ false → submit j cmd ≡ (j, false)
unfolding submit
submit_busy j cmd i = rw i

pub submit_payload_busy :
    (j : Job) (cmd : Cmd) (payload : List ℕ)
    → is_idle j.state ≡ false
    → submit_payload j cmd payload ≡ (j, false)
unfolding submit_payload
submit_payload_busy j cmd payload i = elim (Bool-cases (ltb max_payload (length payload))) [
  | inl big ↦ rw big
  | inr fits ↦ rw (fits, i)
]

&&_false : (a b : Bool) → b ≡ false → (a && b) ≡ false
&&_false true b e = e
&&_false false b e = refl

pub discard_stale_terminal_busy :
    (j : Job) (cmd : Cmd) (off byte : ℕ)
    → is_terminal j.state ≡ false
    → discard_stale_terminal j cmd off byte ≡ (j, false)
unfolding discard_stale_terminal
discard_stale_terminal_busy j cmd off byte t = rw (t, &&_false (same_cmd j.job_cmd cmd) false refl)

pub reclaim_matching_terminal_busy :
    (j : Job) (cmd : Cmd) (off byte : ℕ)
    → is_terminal j.state ≡ false
    → reclaim_matching_terminal j cmd off byte ≡ (j, false)
unfolding reclaim_matching_terminal
reclaim_matching_terminal_busy j cmd off byte t =
    rw (t, &&_false (same_cmd j.job_cmd cmd) false refl)

pub discard_stale_recv_busy :
    (j : Job) → is_terminal j.state ≡ false → discard_stale_recv j ≡ (j, false)
unfolding discard_stale_recv
discard_stale_recv_busy j t = rw (t, &&_false (same_cmd j.job_cmd sock_recv) false refl)

promote-Kept : (st : WorkerState) (j : Job) → Kept j (promote st j).1
unfolding promote
promote-Kept queued j = (refl, refl, refl, inr refl)
promote-Kept idle j = (refl, refl, refl, inl refl)
promote-Kept running j = (refl, refl, refl, inl refl)
promote-Kept done j = (refl, refl, refl, inl refl)
promote-Kept err j = (refl, refl, refl, inl refl)

take_pending-Kept : (j : Job) → Kept j (take_pending j).1
unfolding take_pending
take_pending-Kept j = promote-Kept j.state j

poll_busy :
    (j : Job) (cmd : Cmd) (room : ℕ)
    → is_idle j.state ≡ false
    → is_terminal j.state ≡ false
    → (poll j cmd room).1 ≡ j
poll_busy j cmd room i t = elim (poll_cases j cmd) [
  | inl i' ↦ cc
  | inr (inl (_, c)) ↦ rw (poll_orphan j cmd room i c, t)
  | inr (inr (_, c)) ↦ rw (poll_mine j cmd room i c)
]

-- A job that is queued or running keeps its opcode, its request and its place: no call but
-- worker_reset() takes it out of the slot or puts another in, and only the drain moves it on.
pub in_flight-Kept :
    (op : Op) (j : Job)
    → ¬ IsReset op
    → is_idle j.state ≡ false
    → is_terminal j.state ≡ false
    → Kept j (apply op j)
unfolding apply
in_flight-Kept (submits cmd) j n i t = untouched j _ (ap (λ p. p.0) (submit_busy j cmd i))
in_flight-Kept (submits_payload cmd payload) j n i t =
    untouched j _ (ap (λ p. p.0) (submit_payload_busy j cmd payload i))
in_flight-Kept (polls cmd room) j n i t = untouched j _ (poll_busy j cmd room i t)
in_flight-Kept resets j n i t = absurd (n tt)
in_flight-Kept (discards cmd off byte) j n i t =
    untouched j _ (ap (λ p. p.0) (discard_stale_terminal_busy j cmd off byte t))
in_flight-Kept (reclaims cmd off byte) j n i t =
    untouched j _ (ap (λ p. p.0) (reclaim_matching_terminal_busy j cmd off byte t))
in_flight-Kept discards_recv j n i t = untouched j _ (ap (λ p. p.0) (discard_stale_recv_busy j t))
in_flight-Kept takes j n i t = take_pending-Kept j

poll_own_done :
    (st : WorkerState) (j : Job) (room : ℕ)
    → (poll_own st j room).status ≡ done
    → (st ≡ done) × ((poll_own st j room).out ≡ take j.result_len j.result) × (j.result_len ≤ room)
unfolding poll_own
poll_own_done done j room e = elim (Bool-cases (ltb room j.result_len)) [
  | inl big ↦ let h : (poll_own done j room).status ≡ err = rw big in cc h
  | inr fits ↦ (refl, rw fits, ground arith)
]
poll_own_done err j room e = cc
poll_own_done idle j room e = cc
poll_own_done queued j room e = cc
poll_own_done running j room e = cc

-- A poll reports a result only to the opcode whose job is done, gives it whole and unchanged, and
-- leaves it in the slot; a result that does not fit is an error and never cut short.
pub poll_exact :
    (j : Job) (cmd : Cmd) (room : ℕ)
    → (poll j cmd room).0.status ≡ done
    → (j.state ≡ done)
      × (j.job_cmd ≡ cmd)
      × ((poll j cmd room).0.out ≡ take j.result_len j.result)
      × (j.result_len ≤ room)
      × ((poll j cmd room).1 ≡ j)
poll_exact j cmd room e = elim (poll_cases j cmd) [
  | inl i ↦ let h = rw (poll_idle j cmd room i) at e in cc h
  | inr (inl (i, c)) ↦ elim (Bool-cases (is_terminal j.state)) [
    | inl t ↦ let h = rw (poll_orphan j cmd room i c, t) at e in cc h
    | inr t ↦ let h = rw (poll_orphan j cmd room i c, t) at e in cc h
  ]
  | inr (inr (i, c)) ↦
      let (st, out, fits) = poll_own_done j.state j room (rw (poll_mine j cmd room i c) at e) in
      rw (poll_mine j cmd room i c) (st, same_cmd→eq j.job_cmd cmd c, out, fits, refl)
]

-- A finished job of another opcode does not hold the slot: a poll drops it, and the submit that
-- follows is accepted.
pub orphan_freed :
    (j : Job) (cmd : Cmd) (room : ℕ)
    → j.job_cmd ≢ cmd
    → is_terminal j.state ≡ true
    → ((poll j cmd room).0.status ≡ idle)
      × ((submit (poll j cmd room).1 cmd).1 ≡ true)
      × ((submit (poll j cmd room).1 cmd).0.job_cmd ≡ cmd)
unfolding submit reset
orphan_freed j cmd room ne t =
    rw (poll_orphan j cmd room (busy j.state t) (same_cmd_ne j.job_cmd cmd ne), t)
      (refl, refl, refl)
