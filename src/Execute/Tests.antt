-- ===== src/Execute/Tests.antt =====
-- Jobs drained by hardware that answers at once.
use cc3501e_bridge_firmware.Base.{ℕ, ◌+◌, ◌%◌, ◌^◌, ◌≡◌, refl, List, [], ◌∷◌, arith}
use cc3501e_bridge_firmware.Wire.{sock_send, ok, hw_ok}
use cc3501e_bridge_firmware.Worker.{queued, reclaim_matching_terminal}
use cc3501e_bridge_firmware.Bridge.{Bridge}
use cc3501e_bridge_firmware.Routed.{with_job}
use cc3501e_bridge_firmware.Fixture.{bridge, layout, hal}
use cc3501e_bridge_firmware.Sockets.{send_seq_at, handle_sock_send}
use cc3501e_bridge_firmware.Execute.{hal_body, run_pending, reply_with}
use cc3501e_bridge_firmware.Execute.Settle.{Rests, body, run_pending_once}
use cc3501e_bridge_firmware.Execute.Once.{handle_sock_send_once}

-- A request to send one byte with the sequence number 9.
abbrev request : List ℕ
request = 1 ∷ 0 ∷ 0 ∷ 9 ∷ 1 ∷ 0 ∷ 0 ∷ 0 ∷ 170 ∷ []

abbrev sending : Bridge
sending = record bridge {
  job = record {
    state = queued;
    job_cmd = sock_send;
    result = [];
    result_len = 0;
    rv = hw_ok;
    req = request;
    req_len = 9;
  };
}

run_pending_once_example :
    Rests (run_pending layout hal sending 0).0.job
    × ((run_pending layout hal sending 0).0.worker_execs ≡ (sending.worker_execs + 1) % 2 ^ 32)
    × (run_pending layout hal
          (run_pending layout hal sending 0).0
          (run_pending layout hal sending 0).1
        ≡ run_pending layout hal sending 0)
run_pending_once_example = run_pending_once layout hal sending 0 refl

sends_one : body layout hal sending 0 ≡ (hw_ok, 1 ∷ 0 ∷ [], 1)
unfolding hal_body reply_with
sends_one = refl

handle_sock_send_once_example : handle_sock_send (run_pending layout hal sending 0).0 request 64 ≡ (
  ok,
  1 ∷ 0 ∷ [],
  with_job
      (run_pending layout hal sending 0).0
      (reclaim_matching_terminal
        (run_pending layout hal sending 0).0.job
        sock_send
        send_seq_at
        9).0,
)
handle_sock_send_once_example =
    handle_sock_send_once layout hal sending 0 1 request 1 0 64 refl refl refl sends_one
      (omega arith) (omega arith)
