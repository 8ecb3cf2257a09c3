-- ===== src/Connect/Tests.antt =====
-- A peer that never answers, on a clock that the waits move.
use cc3501e_bridge_firmware.Base.{ℕ, ◌+◌, ◌%◌, ◌^◌, ◌≡◌, refl, true, false, none, some, arith}
use cc3501e_bridge_firmware.Connect.{
  writable, timed_out, Ops, connected, on_ready, pass, wait_loop, connect, restore, with_flags,
  opened, sock_connect_run, slice_ms,
}
use cc3501e_bridge_firmware.Connect.Wait.{IsClock, Returns, rounds, sock_connect_run-Returns}
use cc3501e_bridge_firmware.Connect.Success.{Succeeds, sock_connect_run-Succeeds}

-- The state is the time.
abbrev silent : Ops ℕ
silent = record {
  get_flags = λ s. (some 2, s);
  set_flags = λ s f. (true, s);
  start_connect = λ s. (false, s);
  in_progress = λ s. (true, s);
  wait_writable = λ s n. (timed_out, s + n);
  so_error = λ s. (none, s);
  now_ms = λ s. (s % 2 ^ 32, s);
  heal = λ s. s + 1;
  nonblock_flag = 4;
}

silent-IsClock : IsClock silent (λ s. s)
silent-IsClock = record {
  reads = λ s. refl;
  still = λ s. refl;
  waits = λ s n e. (omega arith, omega arith);
}

sock_connect_run-Returns_example : Returns silent (sock_connect_run silent rounds 5)
sock_connect_run-Returns_example =
    sock_connect_run-Returns silent (λ s. s) silent-IsClock rounds 5 (omega arith)

-- A peer that answers in the first slice.
abbrev prompt : Ops ℕ
prompt = record {
  get_flags = λ s. (some 2, s);
  set_flags = λ s f. (true, f);
  start_connect = λ s. (false, s);
  in_progress = λ s. (true, s);
  wait_writable = λ s n. (writable, s);
  so_error = λ s. (some 0, s);
  now_ms = λ s. (7, s);
  heal = λ s. s;
  nonblock_flag = 4;
}

connects : sock_connect_run prompt 1 0 ≡ (some true, 2)
unfolding sock_connect_run opened with_flags restore connect wait_loop pass on_ready connected
    slice_ms
connects = refl

sock_connect_run-Succeeds_example : Succeeds prompt 0 2
sock_connect_run-Succeeds_example = sock_connect_run-Succeeds prompt 1 0 2 connects
