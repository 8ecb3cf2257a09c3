-- ===== src/Execute/Delivered.antt =====
-- From a request to its result: the submit, what a drain publishes, and the collect.
use cc3501e_bridge_firmware.Base.{
  ℕ, ◌%◌, ◌^◌, ◌≤◌, ◌≡◌, ◌≢◌, refl, ap, ◌∙◌, true, false, Option, none, List, [], length, drop,
  take_all, take-append_of_length, ltb-false, arith,
}
use cc3501e_bridge_firmware.Wire
use cc3501e_bridge_firmware.Wire.{
  Cmd, Resp, ok, err_busy, HwRv, hw_ok, hw_busy, hw_notimpl, hw_io, hw_inval, hw_state, hw_no_mem,
  Layout, max_payload,
}
use cc3501e_bridge_firmware.Worker.{
  Job, WorkerState, idle, queued, running, done, err, is_idle, is_terminal, reset, publish, submit,
  Polled, poll, poll_own, same_cmd, same_cmd_refl,
}
use cc3501e_bridge_firmware.Worker.Slot.{poll_idle, poll_mine}
use cc3501e_bridge_firmware.Bridge.{Bridge, Reply}
use cc3501e_bridge_firmware.Latch
use cc3501e_bridge_firmware.Latch.Serve.{serve_keeps}
use cc3501e_bridge_firmware.Routed.{with_job, err_resp, collect, route, handle_worker_routed}
use cc3501e_bridge_firmware.Routed.Collect.{route_miss, store_job}
use cc3501e_bridge_firmware.Hal.{Hal}
use cc3501e_bridge_firmware.Execute.{hal_body, free_slot, run_pending}
use cc3501e_bridge_firmware.Execute.Settle.{started, body, free_slot_other, run_pending-job}

-- What a host is told of a body that returned `rv` and `out`.
abbrev pub outcome : HwRv → List ℕ → Resp × List ℕ
outcome hw_ok out = (ok, out)
outcome rv out = (err_resp rv, [])

-- The state that a request goes on with where the latch does not answer it.
abbrev pub missed : Bridge → Cmd → ℕ → Bridge
missed b cmd room = (Latch.serve b cmd room).1

serve-missed :
    (b : Bridge) (cmd : Cmd) (room : ℕ)
    → (Latch.serve b cmd room).0 ≡ none
    → Latch.serve b cmd room ≡ (none, missed b cmd room)
serve-missed b cmd room miss = ap (λ (o : Option (Resp × List ℕ)). (o, missed b cmd room)) miss

-- What a poll reports of such a body.
abbrev polled : HwRv → List ℕ → Polled
polled hw_ok out = record { status = done; out = out; rv = hw_ok }
polled rv out = record { status = err; out = []; rv = rv }

terminal_works : (st : WorkerState) → is_terminal st ≡ true → is_idle st ≡ false
terminal_works done t = refl
terminal_works err t = refl
terminal_works idle t = cc
terminal_works queued t = refl
terminal_works running t = refl

poll_terminal :
    (j : Job) (cmd : Cmd) (room : ℕ)
    → is_terminal j.state ≡ true
    → j.job_cmd ≡ cmd
    → poll j cmd room ≡ (poll_own j.state j room, j)
poll_terminal j cmd room t c =
    poll_mine j cmd room (terminal_works j.state t) (ap (λ x. same_cmd x cmd) c ∙ same_cmd_refl cmd)

poll_published :
    (j : Job) (cmd : Cmd) (room : ℕ) (rv : HwRv) (out : List ℕ)
    → j.job_cmd ≡ cmd
    → length out ≤ room
    → length out ≤ max_payload
    → poll (publish j rv out) cmd room ≡ (polled rv out, publish j rv out)
unfolding publish poll_own
poll_published j cmd room hw_ok out c h1 h2 =
    let e1 = take_all max_payload out h2 in
    let e2 : length out % 2 ^ 16 ≡ length out = omega arith in
    poll_terminal (publish j hw_ok out) cmd room refl c
    ∙ rw (
      e1,
      e2,
      ltb-false room (length out) h1,
      take-append_of_length (length out) out (drop (length out) j.result) refl,
    )
poll_published j cmd room hw_busy out c h1 h2 =
    poll_terminal (publish j hw_busy out) cmd room refl c
poll_published j cmd room hw_notimpl out c h1 h2 =
    poll_terminal (publish j hw_notimpl out) cmd room refl c
poll_published j cmd room hw_io out c h1 h2 = poll_terminal (publish j hw_io out) cmd room refl c
poll_published j cmd room hw_inval out c h1 h2 =
    poll_terminal (publish j hw_inval out) cmd room refl c
poll_published j cmd room hw_state out c h1 h2 =
    poll_terminal (publish j hw_state out) cmd room refl c
poll_published j cmd room hw_no_mem out c h1 h2 =
    poll_terminal (publish j hw_no_mem out) cmd room refl c

-- A reply with the outcome, and the slot free.
abbrev pub Tells : Reply → Resp × List ℕ → Type 0
Tells r o = (r.0 ≡ o.0) × (r.1 ≡ o.1) × (is_idle r.2.job.state ≡ true)

stored_idle :
    (b : Bridge) (cmd : Cmd) (status : Resp) (bytes : List ℕ)
    → is_idle (Latch.store (with_job b (reset b.job)) cmd status bytes).job.state ≡ true
unfolding reset
stored_idle b cmd status bytes =
    ap (λ j. is_idle j.state) (store_job (with_job b (reset b.job)) cmd status bytes)

collect-polled :
    (rv : HwRv) (out : List ℕ) (b : Bridge) (cmd : Cmd) (submitted : Bridge)
    → Tells (collect (polled rv out).status b cmd (polled rv out) submitted) (outcome rv out)
unfolding collect
collect-polled hw_ok out b cmd s = (refl, refl, stored_idle b cmd ok out)
collect-polled hw_busy out b cmd s = (refl, refl, stored_idle b cmd (err_resp hw_busy) [])
collect-polled hw_notimpl out b cmd s = (refl, refl, stored_idle b cmd (err_resp hw_notimpl) [])
collect-polled hw_io out b cmd s = (refl, refl, stored_idle b cmd (err_resp hw_io) [])
collect-polled hw_inval out b cmd s = (refl, refl, stored_idle b cmd (err_resp hw_inval) [])
collect-polled hw_state out b cmd s = (refl, refl, stored_idle b cmd (err_resp hw_state) [])
collect-polled hw_no_mem out b cmd s = (refl, refl, stored_idle b cmd (err_resp hw_no_mem) [])

pub collect_published :
    (b : Bridge) (j : Job) (cmd : Cmd) (room : ℕ) (rv : HwRv) (out : List ℕ) (k : Bridge → Bridge)
    → (Latch.serve b cmd room).0 ≡ none
    → b.job ≡ publish j rv out
    → j.job_cmd ≡ cmd
    → length out ≤ room
    → length out ≤ max_payload
    → Tells (route b cmd room k) (outcome rv out)
collect_published b j cmd room rv out k v e c h1 h2 =
    let m = missed b cmd room in
    let p : poll m.job cmd room ≡ (polled rv out, publish j rv out) =
      ap (λ x. poll x cmd room) ((serve_keeps b cmd room).0 ∙ e)
      ∙ poll_published j cmd room rv out c h1 h2 in
    rw (route_miss b m cmd room k (serve-missed b cmd room v), p)
      (collect-polled rv out (with_job m (publish j rv out)) cmd
        (k (with_job m (publish j rv out))))

abbrev pub queue : Cmd → Bridge → Bridge
queue cmd b = with_job b (submit b.job cmd).0

pub routed_open :
    (b : Bridge) (cmd : Cmd) (min_cap room : ℕ)
    → min_cap ≤ room
    → handle_worker_routed b cmd min_cap 0 room ≡ route b cmd room (queue cmd)
unfolding handle_worker_routed
routed_open b cmd min_cap room h = rw (ltb-false room min_cap h)

pub routed_first :
    (b : Bridge) (cmd : Cmd) (min_cap room : ℕ)
    → is_idle b.job.state ≡ true
    → (Latch.serve b cmd room).0 ≡ none
    → min_cap ≤ room
    → handle_worker_routed b cmd min_cap 0 room ≡ (err_busy, [], queue cmd (missed b cmd room))
unfolding collect
routed_first b cmd min_cap room i v h =
    let m = missed b cmd room in
    let free : is_idle m.job.state ≡ true =
      ap (λ j. is_idle j.state) (serve_keeps b cmd room).0 ∙ i in
    routed_open b cmd min_cap room h
    ∙ route_miss b m cmd room (queue cmd) (serve-missed b cmd room v)
    ∙ rw (poll_idle m.job cmd room free)

-- A drain publishes what the body of the queued job returned.
pub run_pending-publish :
    (w : Layout) {Dev : Type 0} (hal : Hal Dev) (b : Bridge) (d d' : Dev) (cmd : Cmd) (rv : HwRv)
    (out : List ℕ)
    → b.job.state ≡ queued
    → b.job.job_cmd ≡ cmd
    → cmd ≢ Wire.wifi_connect_sta
    → cmd ≢ Wire.wifi_ap_start
    → hal_body w hal (hal.bridge_busy d) (started b.job) cmd ≡ (rv, out, d')
    → (run_pending w hal b d).0.job ≡ publish (started b.job) rv out
run_pending-publish w hal b d d' cmd rv out q c n1 n2 e =
    let f : body w hal b d ≡ (rv, out, d') =
      ap (hal_body w hal (hal.bridge_busy d) (started b.job)) c ∙ e in
    run_pending-job w hal b d q
    ∙ ap (λ x. free_slot x (publish (started b.job) (body w hal b d).0 (body w hal b d).1)) c
    ∙ free_slot_other cmd (publish (started b.job) (body w hal b d).0 (body w hal b d).1) n1 n2
    ∙ ap (λ x. publish (started b.job) x.0 x.1) f
