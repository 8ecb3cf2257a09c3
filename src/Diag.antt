-- ===== src/Diag.antt =====
-- src/protocol_diag.c: the counters, the diagnostics and the events, in the build without
-- CC3501E_OTA_WINDOW_SELFTEST, CC3501E_WEDGE_PROBE and CC3501E_RADIO_SPEEDTEST.
use cc3501e_bridge_firmware.Base.{
  ℕ, ◌%◌, not, List, [], ◌∷◌, ◌++◌, ltb, ◌==◌, if◌then◌else◌, length, get_or,
}
use cc3501e_bridge_firmware.Wire.{Resp, ok, err_invalid, err_no_mem, put_le16, put_le32}
use cc3501e_bridge_firmware.Bridge.{Bridge, Reply}
use cc3501e_bridge_firmware.Board.{Board}
use cc3501e_bridge_firmware.EventRing
use cc3501e_bridge_firmware.Meta.{Build}
use cc3501e_bridge_firmware.Pins.{returned}

unfoldable pub handle_diag_get_stats : Bridge → List ℕ → ℕ → Reply
handle_diag_get_stats b req room =
    if not (length req == 0)
    then (err_invalid, [], b)
    else if ltb room 16
    then (err_no_mem, [], b)
    else (
      ok,
      put_le32 b.frames_ok
          ++ (put_le32 b.frames_err ++ (put_le32 b.worker_execs ++ put_le32 b.latch_hits)),
      b,
    )

-- What a drain leaves, answered with OK.
abbrev pub drained_reply : Bridge → List ℕ × EventRing.Ring → Reply
drained_reply b (bytes, ring) = (ok, bytes, record b { events = ring })

unfoldable pub handle_get_pending_events : Bridge → List ℕ → ℕ → Reply
handle_get_pending_events b req room =
    if not (length req == 0)
    then (err_invalid, [], b)
    else drained_reply b (EventRing.drain b.events room)

module _ {Dev : Type 0} (board : Board Dev) where
  unfoldable pub handle_diag_log_level : Bridge → Dev → List ℕ → Reply × Dev
  handle_diag_log_level b d req =
      if not (length req == 1)
      then ((err_invalid, [], b), d)
      else returned b (board.set_log_level d (get_or req 0 0))

  -- The first 16 bytes of the diagnostics; `code` gives the byte of a status.
  unfoldable pub diag_info : Build → (Resp → ℕ) → Bridge → Dev → List ℕ
  diag_info config code b d =
      put_le16 config.fw_version
      ++ (board.reset_cause d ∷ board.radio_role d ∷ put_le32 (board.uptime_ms d)
          ++ (put_le32 (board.free_heap_bytes d)
              ++ (code b.last_error
                  ∷ board.wifi_last_event_id d % 256
                  ∷ (board.ota_fault d).1
                  ∷ board.spi_boot_mark d
                  ∷ [])))

  unfoldable pub handle_get_diag_info : Build → (Resp → ℕ) → Bridge → Dev → List ℕ → ℕ → Reply
  handle_get_diag_info config code b d req room =
      let dhcp = board.wifi_dhcp_diag d in
      if not (length req == 0)
      then (err_invalid, [], b)
      else if ltb room 16
      then (err_no_mem, [], b)
      else if ltb room 18
      then (ok, diag_info config code b d, b)
      else (ok, diag_info config code b d ++ (dhcp.0 ∷ dhcp.1 ∷ []), b)
