-- ===== src/Execute/Settle.antt =====
-- What the drain leaves: the slot, the count of executions, and the transport.
use cc3501e_bridge_firmware.Base.{
  ℕ, ◌+◌, ◌%◌, ◌^◌, ◌≡◌, ◌≢◌, ◌⊎◌, inl, inr, refl, ap, ◌∙◌, true, none, some, List,
}
use cc3501e_bridge_firmware.Wire
use cc3501e_bridge_firmware.Wire.{
  Cmd, HwRv, hw_ok, hw_busy, hw_notimpl, hw_io, hw_inval, hw_state, hw_no_mem, Layout,
}
use cc3501e_bridge_firmware.Worker.{
  Job, WorkerState, idle, queued, running, done, err, is_idle, is_terminal, reset, promote,
  take_pending, publish,
}
use cc3501e_bridge_firmware.Bridge.{Bridge}
use cc3501e_bridge_firmware.Routed.{with_job}
use cc3501e_bridge_firmware.Hal.{Hal}
use cc3501e_bridge_firmware.Execute.{
  hal_body, store_caches, finish, execute, rearm_plan, rearm, raise, free_slot, drain, run_pending,
}

abbrev pub started : Job → Job
started j = record j { state = running }

pub take_pending_queued :
    (j : Job) → j.state ≡ queued → take_pending j ≡ (some j.job_cmd, started j)
unfolding take_pending promote
take_pending_queued j e = ap (λ st. promote st j) e

pub promote_other : (st : WorkerState) (j : Job) → st ≢ queued → promote st j ≡ (none, j)
unfolding promote
promote_other queued j n = absurd (n refl)
promote_other idle j n = refl
promote_other running j n = refl
promote_other done j n = refl
promote_other err j n = refl

pub store_caches-job :
    (cmd : Cmd) (b : Bridge) (rv : HwRv) (kept : List ℕ) → (store_caches cmd b rv kept).job ≡ b.job
unfolding store_caches
store_caches-job Wire.sock_send b rv kept = refl
store_caches-job Wire.sock_recv b rv kept = refl
store_caches-job _ b rv kept = refl

pub store_caches-latch :
    (cmd : Cmd) (b : Bridge) (rv : HwRv) (kept : List ℕ)
    → (store_caches cmd b rv kept).latch ≡ b.latch
unfolding store_caches
store_caches-latch Wire.sock_send b rv kept = refl
store_caches-latch Wire.sock_recv b rv kept = refl
store_caches-latch _ b rv kept = refl

store_caches-execs :
    (cmd : Cmd) (b : Bridge) (rv : HwRv) (kept : List ℕ)
    → (store_caches cmd b rv kept).worker_execs ≡ b.worker_execs
unfolding store_caches
store_caches-execs Wire.sock_send b rv kept = refl
store_caches-execs Wire.sock_recv b rv kept = refl
store_caches-execs _ b rv kept = refl

pub free_slot_other :
    (cmd : Cmd) (j : Job)
    → cmd ≢ Wire.wifi_connect_sta
    → cmd ≢ Wire.wifi_ap_start
    → free_slot cmd j ≡ j
unfolding free_slot
free_slot_other Wire.wifi_connect_sta j n m = absurd (n refl)
free_slot_other Wire.wifi_ap_start j n m = absurd (m refl)
free_slot_other _ j n m = refl

-- A slot that is neither queued nor running.
abbrev pub Rests : Job → Type 0
Rests j = (is_idle j.state ≡ true) ⊎ (is_terminal j.state ≡ true)

queued_works : (j : Job) → j.state ≡ queued → Rests j → ⊥
queued_works j e (inl i) = let h = rw e at i in cc
queued_works j e (inr t) = let h = rw e at t in cc

publish-Rests : (j : Job) (rv : HwRv) (out : List ℕ) → Rests (publish j rv out)
unfolding publish
publish-Rests j hw_ok out = inr refl
publish-Rests j hw_busy out = inr refl
publish-Rests j hw_notimpl out = inr refl
publish-Rests j hw_io out = inr refl
publish-Rests j hw_inval out = inr refl
publish-Rests j hw_state out = inr refl
publish-Rests j hw_no_mem out = inr refl

free_slot-Rests : (cmd : Cmd) (j : Job) → Rests j → Rests (free_slot cmd j)
unfolding free_slot reset
free_slot-Rests Wire.wifi_connect_sta j h = inl refl
free_slot-Rests Wire.wifi_ap_start j h = inl refl
free_slot-Rests _ j h = h

module _ (w : Layout) {Dev : Type 0} (hal : Hal Dev) where
  -- Without a queued job the drain changes nothing, neither the bridge nor the hardware.
  pub run_pending_idle :
      (b : Bridge) (d : Dev) → b.job.state ≢ queued → run_pending w hal b d ≡ (b, d)
  unfolding run_pending drain take_pending
  run_pending_idle b d n = ap (λ t. drain w hal t b d) (promote_other b.job.state b.job n)

  -- The body of the queued job, on the hardware with READY lowered.
  abbrev pub body : Bridge → Dev → HwRv × List ℕ × Dev
  body b d = hal_body w hal (hal.bridge_busy d) (started b.job) b.job.job_cmd

  pub run_pending_runs :
      (b : Bridge) (d : Dev)
      → b.job.state ≡ queued
      → run_pending w hal b d ≡ (
        let b1 = finish b.job.job_cmd (with_job b (started b.job)) ((body b d).0, (body b d).1) in
            with_job b1 (free_slot b.job.job_cmd b1.job),
        raise hal b.job.job_cmd (rearm hal (rearm_plan hal b.job.job_cmd (body b d).2)),
      )
  unfolding run_pending drain execute
  run_pending_runs b d e = ap (λ t. drain w hal t b d) (take_pending_queued b.job e)

  pub run_pending-job :
      (b : Bridge) (d : Dev)
      → b.job.state ≡ queued
      → (run_pending w hal b d).0.job
        ≡ free_slot b.job.job_cmd (publish (started b.job) (body b d).0 (body b d).1)
  unfolding finish
  run_pending-job b d e =
      ap (λ r. r.0.job) (run_pending_runs b d e)
      ∙ ap (λ j. free_slot b.job.job_cmd (publish j (body b d).0 (body b d).1))
          (store_caches-job b.job.job_cmd (with_job b (started b.job)) (body b d).0 _)

  pub run_pending-latch :
      (b : Bridge) (d : Dev) → b.job.state ≡ queued → (run_pending w hal b d).0.latch ≡ b.latch
  unfolding finish
  run_pending-latch b d e =
      ap (λ r. r.0.latch) (run_pending_runs b d e)
      ∙ store_caches-latch b.job.job_cmd (with_job b (started b.job)) (body b d).0 _

  -- A queued job runs exactly once: the drain counts one execution, whatever the hardware answers,
  -- and leaves the slot either idle or with a result, so a second drain does nothing.
  pub run_pending_once :
      (b : Bridge) (d : Dev)
      → b.job.state ≡ queued
      → Rests (run_pending w hal b d).0.job
        × ((run_pending w hal b d).0.worker_execs ≡ (b.worker_execs + 1) % 2 ^ 32)
        × (run_pending w hal (run_pending w hal b d).0 (run_pending w hal b d).1
            ≡ run_pending w hal b d)
  unfolding finish
  run_pending_once b d e =
      let r : Rests (run_pending w hal b d).0.job = rw (run_pending-job b d e) (
        free_slot-Rests b.job.job_cmd _
          (publish-Rests (started b.job) (body b d).0 (body b d).1)) in
      (
        r,
        ap (λ x. x.0.worker_execs) (run_pending_runs b d e)
            ∙ ap (λ n. (n + 1) % 2 ^ 32)
                (store_caches-execs b.job.job_cmd (with_job b (started b.job)) (body b d).0 _),
        run_pending_idle _ _ (λ q. queued_works (run_pending w hal b d).0.job q r),
      )
