-- ===== src/OtaCmds.antt =====
-- src/protocol_ota.c: the handlers of the update opcodes.
use cc3501e_bridge_firmware.Base.{
  ℕ, ◌+◌, ◌-◌, Bool, true, false, not, ◌||◌, List, [], ◌∷◌, ◌++◌, ltb, ◌==◌, if◌then◌else◌, length,
  get_or, drop,
}
use Prim.Native.Nat.{bit_or}
use cc3501e_bridge_firmware.Wire.{
  ok, err_invalid, err_no_mem, err_state, HwRv, hw_ok, hw_to_resp, Layout, put_le32, get_le32,
}
use cc3501e_bridge_firmware.Bridge.{Bridge, Reply}
use cc3501e_bridge_firmware.Board.{Board}
use cc3501e_bridge_firmware.Pins.{returned}

-- CC3501E_OTA_MAX_CHUNK_V4 of the build with CC3501E_WIRE_CRC.
abbrev pub ota_max_chunk_v4 : Layout → ℕ
ota_max_chunk_v4 w = w.ota_max_chunk - 2

-- The last part of handle_ota_update_mode(): the arming of the next boot and the reset.
unfoldable pub armed_reply : Bridge → List ℕ → Bool → Reply
armed_reply b bytes true = (ok, bytes, b)
armed_reply b bytes false = (err_state, bytes, b)

module _ {Dev : Type 0} (board : Board Dev) where
  unfoldable pub handle_ota_begin : Bridge → Dev → List ℕ → Reply × Dev
  handle_ota_begin b d req =
      if not (length req == 4)
      then ((err_invalid, [], b), d)
      else returned b (board.ota_begin d (get_le32 req 0))

  unfoldable pub handle_ota_write : Layout → Bridge → Dev → List ℕ → Reply × Dev
  handle_ota_write w b d req =
      if ltb (length req) 5 || ltb (4 + ota_max_chunk_v4 w) (length req)
      then ((err_invalid, [], b), d)
      else returned b (board.ota_write d (get_le32 req 0) (drop 4 req))

  unfoldable pub handle_ota_finish : Bridge → Dev → List ℕ → Reply × Dev
  handle_ota_finish b d req =
      if not (length req == 0) then ((err_invalid, [], b), d) else returned b (board.ota_finish d)

  unfoldable pub handle_ota_abort : Bridge → Dev → List ℕ → Reply × Dev
  handle_ota_abort b d req =
      if not (length req == 0) then ((err_invalid, [], b), d) else returned b (board.ota_abort d)

  unfoldable pub handle_ota_promote : Bridge → Dev → List ℕ → Reply × Dev
  handle_ota_promote b d req =
      if not (length req == 0) then ((err_invalid, [], b), d) else returned b (board.ota_promote d)

  -- The switch of the mode: `now` is the mode, `want` the one that is asked for.
  unfoldable pub switch_mode : Bridge → Dev → List ℕ → Bool → Bool → Reply × Dev
  switch_mode b d bytes true true = ((ok, bytes, b), d)
  switch_mode b d bytes false false = ((ok, bytes, b), d)
  switch_mode b d bytes now want =
      let (armed, d') =
        if want then board.spi_request_polled_boot d else board.spi_clear_polled_boot d in
      (armed_reply b bytes armed, if armed then board.request_reset d' else d')

  unfoldable pub handle_ota_update_mode : Bridge → Dev → List ℕ → ℕ → Reply × Dev
  handle_ota_update_mode b d req room =
      let now = board.spi_polled d in
      let bytes = (if now then 1 else 0) ∷ (board.ota_status d).1 ∷ 0 ∷ 0 ∷ [] in
      if not (length req == 1)
      then ((err_invalid, [], b), d)
      else if ltb 1 (get_or req 0 0)
      then ((err_invalid, [], b), d)
      else if ltb room 4
      then ((err_no_mem, [], b), d)
      else switch_mode b d bytes now (get_or req 0 0 == 1)

  -- The byte that tells where a failed update stopped, or the phase of the transport.
  pub status_byte : Dev → ℕ
  status_byte d =
      let stage = (board.ota_fault d).0 in
      if not (stage == 0)
      then stage
      else bit_or (bit_or 64 (if board.spi_polled d then 128 else 0)) (board.spi_phase d)

  unfoldable pub ota_status_reply : Bridge → Dev → HwRv × ℕ × ℕ × ℕ → Reply
  ota_status_reply b d (hw_ok, state, written, total) = (
    ok,
    state
          ∷ board.ota_reboot_rc d
          ∷ (if board.ota_flush_pending d then 1 else 0)
          ∷ status_byte d
          ∷ put_le32 written
        ++ (put_le32 total ++ (board.ota_pending d ∷ 0 ∷ 0 ∷ 0 ∷ [])),
    b,
  )
  ota_status_reply b d (rv, state, written, total) = (hw_to_resp rv, [], b)

  unfoldable pub handle_ota_status : Bridge → Dev → List ℕ → ℕ → Reply
  handle_ota_status b d req room =
      if not (length req == 0)
      then (err_invalid, [], b)
      else if ltb room 16
      then (err_no_mem, [], b)
      else ota_status_reply b d (board.ota_status d)
