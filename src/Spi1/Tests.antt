-- ===== src/Spi1/Tests.antt =====
-- A finished transfer of one byte, and a session that is not open.
use cc3501e_bridge_firmware.Base.{ℕ, ◌≡◌, refl, true, false, List, [], ◌∷◌, get_or, take}
use cc3501e_bridge_firmware.Wire.{spi1_transfer, ok, hw_ok, Cmd-discrete}
use cc3501e_bridge_firmware.Worker.{done, poll, poll_own, same_cmd}
use cc3501e_bridge_firmware.Bridge.{Bridge, Spi1}
use cc3501e_bridge_firmware.Fixture.{bridge, layout}
use cc3501e_bridge_firmware.Spi1.{
  transfer_guard, unknown_flags, settle_transfer, guarded_transfer, handle_spi1_transfer,
}
use cc3501e_bridge_firmware.Spi1.Session.{handle_spi1_transfer_own}

-- One byte, no flags, the sequence number 9.
abbrev request : List ℕ
request = 1 ∷ 0 ∷ 0 ∷ 9 ∷ 0 ∷ 0 ∷ 0 ∷ 0 ∷ 170 ∷ []

abbrev finished : Bridge
finished = record bridge {
  job = record {
    state = done;
    job_cmd = spi1_transfer;
    result = 1 ∷ 0 ∷ 0 ∷ 9 ∷ 77 ∷ [];
    result_len = 5;
    rv = hw_ok;
    req = request;
    req_len = 9;
  };
}

abbrev open_session : Spi1
open_session = record { configured = true; cs_held = false }

abbrev closed_session : Spi1
closed_session = record { configured = false; cs_held = false }

answered : (handle_spi1_transfer layout finished open_session request 64).0.0 ≡ ok
unfolding handle_spi1_transfer guarded_transfer settle_transfer transfer_guard unknown_flags poll
    poll_own same_cmd Cmd-discrete
answered = refl

handle_spi1_transfer_own_example :
    (finished.job.state ≡ done)
    × (finished.job.job_cmd ≡ spi1_transfer)
    × ((handle_spi1_transfer layout finished open_session request 64).0.1
        ≡ take 5 finished.job.result)
    × (get_or (handle_spi1_transfer layout finished open_session request 64).0.1 3 0 ≡ 9)
    × ((handle_spi1_transfer layout finished open_session request 64).0.2 ≡ finished)
handle_spi1_transfer_own_example =
    handle_spi1_transfer_own layout finished open_session request 64 answered
