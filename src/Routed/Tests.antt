-- ===== src/Routed/Tests.antt =====
-- Worker-routed requests over a finished and an orphaned job.
use cc3501e_bridge_firmware.Base.{◌≡◌, refl, inl, false, none, [], ◌∷◌, arith}
use cc3501e_bridge_firmware.Wire.{get_mac, wifi_get_rssi, hw_ok}
use cc3501e_bridge_firmware.Worker.{Job, done, is_terminal}
use cc3501e_bridge_firmware.Bridge.{Bridge}
use cc3501e_bridge_firmware.Latch
use cc3501e_bridge_firmware.Latch.{hit, latch_bytes}
use cc3501e_bridge_firmware.Fixture.{bridge}
use cc3501e_bridge_firmware.Routed.Collect.{payload_reply, call, call_settles}
use cc3501e_bridge_firmware.Routed.Replay.{fresh_seq_missed}

abbrev finished : Job
finished = record {
  state = done;
  job_cmd = get_mac;
  result = 7 ∷ 8 ∷ [];
  result_len = 2;
  rv = hw_ok;
  req = [];
  req_len = 0;
}

abbrev waiting : Bridge
waiting = record bridge { job = finished; req_seq = 3 }

-- The slot holds a finished job of another opcode, and the latch is empty.
call_settles_example :
    is_terminal (call (payload_reply (4 ∷ []) 1) waiting wifi_get_rssi 6).2.job.state ≡ false
unfolding Latch.serve Latch.applies
call_settles_example =
    call_settles (payload_reply (4 ∷ []) 1) waiting wifi_get_rssi 6 (omega arith) refl

fresh_seq_missed_example : (Latch.serve waiting get_mac 6).0 ≡ none
fresh_seq_missed_example = fresh_seq_missed waiting get_mac 6 (inl (λ e. omega arith))
