-- ===== src/Worker.antt =====
-- src/worker.c: the single job slot between the SPI callback and the drain. The build modelled is
-- the one with CC3501E_WIFI, where a submit leaves the job queued for worker_run_pending().
pub mod Slot
mod Tests
use cc3501e_bridge_firmware.Base.{
  ℕ, ◌%◌, ◌^◌, Bool, true, false, not, ◌&&◌, Option, none, some, List, [], ltb, ◌==◌, if◌then◌else◌,
  length, get_or, take, overwrite, ◌≡◌, ◌≢◌, refl, Bool-cases, inl, inr,
}
use cc3501e_bridge_firmware.Wire.{
  Cmd, ping, sock_recv, Cmd-discrete, HwRv, hw_ok, hw_no_mem, max_payload,
}
use mathlib.Core.Logic.{ite}

pub data WorkerState : Type 0 where
  idle queued running done err : WorkerState

-- `job`. `result` and `req` are the whole arrays, stale bytes included.
pub record Job : Type 0 where
  pub state : WorkerState
  pub job_cmd : Cmd
  pub result : List ℕ
  pub result_len : ℕ
  pub rv : HwRv
  pub req : List ℕ
  pub req_len : ℕ

-- Comparison of two opcodes.
unfoldable pub same_cmd : Cmd → Cmd → Bool
unfolding Cmd-discrete
same_cmd a b = ite (Cmd-discrete a b) true false

pub same_cmd→eq : (a b : Cmd) → same_cmd a b ≡ true → a ≡ b
unfolding same_cmd
same_cmd→eq a b = elim (Cmd-discrete a b) as (λ d. ite d true false ≡ true → a ≡ b) [
  | yes e ↦ λ _. e
  | no ne ↦ λ h. cc
]

pub same_cmd_refl : (a : Cmd) → same_cmd a a ≡ true
unfolding same_cmd
same_cmd_refl a = elim (Cmd-discrete a a) as (λ d. ite d true false ≡ true) [
  | yes e ↦ refl
  | no ne ↦ absurd (ne refl)
]

pub same_cmd_ne : (a b : Cmd) → a ≢ b → same_cmd a b ≡ false
same_cmd_ne a b ne = elim (Bool-cases (same_cmd a b)) [
  | inl e ↦ absurd (ne (same_cmd→eq a b e))
  | inr e ↦ e
]

abbrev pub is_terminal : WorkerState → Bool
is_terminal done = true
is_terminal err = true
is_terminal _ = false

abbrev pub is_idle : WorkerState → Bool
is_idle idle = true
is_idle _ = false

-- worker_reset(), and what worker_init() stores.
unfoldable pub reset : Job → Job
reset j = record j { state = idle; job_cmd = ping; result_len = 0; rv = hw_ok }

-- worker_submit(); the flag is the C result.
unfoldable pub submit : Job → Cmd → Job × Bool
submit j cmd =
    if is_idle j.state
    then (record j { job_cmd = cmd; result_len = 0; rv = hw_ok; state = queued }, true)
    else (j, false)

-- worker_submit_payload() of the bytes `payload`.
unfoldable pub submit_payload : Job → Cmd → List ℕ → Job × Bool
submit_payload j cmd payload =
    if ltb max_payload (length payload)
    then (j, false)
    else if is_idle j.state
    then (
      record j {
        job_cmd = cmd;
        result_len = 0;
        rv = hw_ok;
        req = overwrite j.req payload;
        req_len = length payload;
        state = queued;
      },
      true,
    )
    else (j, false)

-- What worker_poll() returns and stores through its pointers.
pub record Polled : Type 0 where
  pub status : WorkerState
  pub out : List ℕ
  pub rv : HwRv

abbrev pub nothing : WorkerState → Polled
nothing st = record { status = st; out = []; rv = hw_ok }

-- The arms of worker_poll() for a job of the polled opcode.
unfoldable pub poll_own : WorkerState → Job → ℕ → Polled
poll_own done j room =
    if ltb room j.result_len
    then record { status = err; out = []; rv = hw_no_mem }
    else record { status = done; out = take j.result_len j.result; rv = hw_ok }
poll_own err j room = record { status = err; out = []; rv = j.rv }
poll_own st j room = nothing st

-- worker_poll() with `room` for the result. A finished job of another opcode is dropped.
unfoldable pub poll : Job → Cmd → ℕ → Polled × Job
poll j cmd room =
    if is_idle j.state
    then (nothing idle, j)
    else if not (same_cmd j.job_cmd cmd)
    then (if is_terminal j.state then (nothing idle, reset j) else (nothing running, j))
    else (poll_own j.state j room, j)

-- worker_discard_stale_terminal(), worker_reclaim_matching_terminal(), worker_discard_stale_recv().
unfoldable pub discard_stale_terminal : Job → Cmd → ℕ → ℕ → Job × Bool
discard_stale_terminal j cmd req_off req_byte =
    if same_cmd j.job_cmd cmd
      && (is_terminal j.state
          && (ltb req_off j.req_len && not (get_or j.req req_off 0 == req_byte)))
    then (reset j, true)
    else (j, false)

unfoldable pub reclaim_matching_terminal : Job → Cmd → ℕ → ℕ → Job × Bool
reclaim_matching_terminal j cmd req_off req_byte =
    if same_cmd j.job_cmd cmd
      && (is_terminal j.state && (ltb req_off j.req_len && get_or j.req req_off 0 == req_byte))
    then (reset j, true)
    else (j, false)

unfoldable pub discard_stale_recv : Job → Job × Bool
discard_stale_recv j =
    if same_cmd j.job_cmd sock_recv && is_terminal j.state then (reset j, true) else (j, false)

-- The start of worker_run_pending(): a queued job becomes the running one.
unfoldable pub promote : WorkerState → Job → Option Cmd × Job
promote queued j = (some j.job_cmd, record j { state = running })
promote _ j = (none, j)

unfoldable pub take_pending : Job → Option Cmd × Job
unfolding promote
take_pending j = promote j.state j

-- The end of worker_execute(): the clamp, the copy of the result, and the final critical section.
unfoldable pub publish : Job → HwRv → List ℕ → Job
publish j hw_ok buf =
    let kept = take max_payload buf in
    record j {
      result = overwrite j.result kept;
      result_len = length kept % 2 ^ 16;
      rv = hw_ok;
      state = done;
    }
publish j e buf = record j { result_len = 0; rv = e; state = err }
