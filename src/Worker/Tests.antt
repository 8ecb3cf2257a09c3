-- ===== src/Worker/Tests.antt =====
-- The job slot with a running, a finished and an orphaned job.
use cc3501e_bridge_firmware.Base.{◌≤◌, ◌≡◌, ◌≢◌, refl, true, [], ◌∷◌, take}
use cc3501e_bridge_firmware.Wire.{get_mac, wifi_get_rssi, hw_ok}
use cc3501e_bridge_firmware.Worker.{Job, running, done, idle, poll, poll_own, submit, same_cmd}
use cc3501e_bridge_firmware.Worker.Slot.{
  polls, apply, Kept, in_flight-Kept, poll_exact, orphan_freed,
}

abbrev working : Job
working = record {
  state = running;
  job_cmd = get_mac;
  result = 7 ∷ 8 ∷ [];
  result_len = 0;
  rv = hw_ok;
  req = [];
  req_len = 0;
}

abbrev finished : Job
finished = record {
  state = done;
  job_cmd = get_mac;
  result = 7 ∷ 8 ∷ [];
  result_len = 1;
  rv = hw_ok;
  req = [];
  req_len = 0;
}

in_flight-Kept_example : Kept working (apply (polls get_mac 6) working)
in_flight-Kept_example = in_flight-Kept (polls get_mac 6) working (λ e. e) refl refl

poll_exact_example :
    (finished.state ≡ done)
    × (finished.job_cmd ≡ get_mac)
    × ((poll finished get_mac 6).0.out ≡ take finished.result_len finished.result)
    × (finished.result_len ≤ 6)
    × ((poll finished get_mac 6).1 ≡ finished)
unfolding poll poll_own same_cmd
poll_exact_example = poll_exact finished get_mac 6 refl

differ : get_mac ≢ wifi_get_rssi
differ e = cc

orphan_freed_example :
    ((poll finished wifi_get_rssi 6).0.status ≡ idle)
    × ((submit (poll finished wifi_get_rssi 6).1 wifi_get_rssi).1 ≡ true)
    × ((submit (poll finished wifi_get_rssi 6).1 wifi_get_rssi).0.job_cmd ≡ wifi_get_rssi)
orphan_freed_example = orphan_freed finished wifi_get_rssi 6 differ refl
