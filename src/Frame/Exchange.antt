-- ===== src/Frame/Exchange.antt =====
-- A whole exchange: the request that a host encodes, and the reply that it reads.
use cc3501e_bridge_firmware.Base.{
  ℕ, ◌+◌, ◌-◌, ◌/◌, ◌%◌, ◌^◌, ◌≤◌, ◌<◌, ◌≡◌, refl, ap, ◌∙◌, sym, List, [], ◌∷◌, ◌++◌, length,
  get_or, slice, length-append, take-append_of_length, get_or-append_right, ltb-false, some, arith,
}
use cc3501e_bridge_firmware.Wire.{Resp, err_protocol, put_le16, get_le16}
use cc3501e_bridge_firmware.Crc.{crc_init, crc16_table_update, crc16_table_update-lt}
use cc3501e_bridge_firmware.Bridge
use cc3501e_bridge_firmware.Bridge.{Bridge}
use cc3501e_bridge_firmware.Frame.{
  header_bytes, crc_bytes, reply_data_off, frame_crc, handle_frame, clamp_data, tally, build_reply,
  emit,
}
use cc3501e_bridge_firmware.Frame.Reply.{sealed, padding, read_reply, read_reply-emit}
use cc3501e_bridge_firmware.Frame.Request.{
  IsSealed, IsBareVersion, handle_frame_rejects, handle_frame_accepts,
}

module _ (update : ℕ → List ℕ → ℕ) where
  -- The length field, the bytes of the payload and the CRC of a frame that is built right.
  sealed-length :
      (cmd flags : ℕ) (body : List ℕ)
      → length body + 2 < 2 ^ 16
      → get_le16 (sealed update cmd flags body) 2 ≡ length body + crc_bytes
  sealed-length cmd flags body h = omega arith

  sealed-slice :
      (cmd flags : ℕ) (body : List ℕ)
      → slice (sealed update cmd flags body) header_bytes (length body) ≡ body
  sealed-slice cmd flags body = take-append_of_length (length body) body _ refl

  sealed-IsSealed :
      (cmd flags : ℕ) (body : List ℕ)
      → length body + 2 < 2 ^ 16
      → IsSealed update (sealed update cmd flags body)
  sealed-IsSealed cmd flags body h =
      let n = length body + crc_bytes in
      let header = cmd ∷ flags ∷ put_le16 n in
      let c = frame_crc update header body in
      let trailer = put_le16 c in
      let frame = sealed update cmd flags body in
      let c-lt : c < 2 ^ 16 =
        crc16_table_update-lt update (crc16_table_update update crc_init header) body
          (crc16_table_update-lt update crc_init header (omega arith)) in
      let e-n = sealed-length cmd flags body h in
      let e-b : get_le16 frame 2 - crc_bytes ≡ length body = omega arith in
      let e-lo : get_or frame (header_bytes + length body) 0 ≡ c % 256 =
        ap (λ k. get_or frame k 0) (omega arith)
        ∙ get_or-append_right (header ++ body) trailer 0 0 in
      let e-hi : get_or frame (header_bytes + length body + 1) 0 ≡ c / 256 % 256 =
        ap (λ k. get_or frame k 0) (omega arith)
        ∙ get_or-append_right (header ++ body) trailer 1 0 in
      let e-c : get_le16 frame (header_bytes + length body) ≡ c = omega arith in
      (
        omega arith,
        omega (arith, length-append body trailer),
        ap (λ k. frame_crc update header (slice frame header_bytes k)) e-b
            ∙ ap (frame_crc update header) (sealed-slice cmd flags body)
            ∙ sym (ap (λ k. get_le16 frame (header_bytes + k)) e-b ∙ e-c),
      )

  module _ {Dev : Type 0} (dispatch : Bridge → Dev → ℕ → ℕ → List ℕ → ℕ → Bridge.Reply × Dev) where
    -- A request that a host seals with its length and its CRC is dispatched as the host means it:
    -- with its opcode, its flags and its payload, where the payload is under 65534 bytes.
    pub handle_frame-sealed :
        (b : Bridge) (d : Dev) (cmd flags : ℕ) (payload : List ℕ) (room : ℕ)
        → length payload + 2 < 2 ^ 16
        → handle_frame update dispatch b d (sealed update cmd flags payload) room
          ≡ dispatch b d cmd flags payload room
    handle_frame-sealed b d cmd flags payload room h =
        let e-b : get_le16 (sealed update cmd flags payload) 2 - crc_bytes ≡ length payload =
          omega arith in
        handle_frame_accepts update dispatch b d (sealed update cmd flags payload) room
          (sealed-IsSealed cmd flags payload h)
        ∙ ap
            (λ k.
              dispatch b d cmd flags (slice (sealed update cmd flags payload) header_bytes k) room)
            e-b
        ∙ ap (λ p. dispatch b d cmd flags p room) (sealed-slice cmd flags payload)

    module _ (code : Resp → ℕ) where
      -- The frame that answers a sealed request, and the state that it leaves.
      pub build_reply_emits :
          (b b' : Bridge) (d d' : Dev) (cmd flags : ℕ) (payload : List ℕ) (room : ℕ) (status : Resp)
          (bytes : List ℕ)
          → length payload + 2 < 2 ^ 16
          → 7 ≤ room
          → dispatch b d cmd flags payload (room - reply_data_off - crc_bytes)
            ≡ ((status, bytes, b'), d')
          → length bytes ≤ room - reply_data_off - crc_bytes
          → build_reply update code dispatch b d (sealed update cmd flags payload) room
            ≡ (emit update code cmd status bytes room, tally status b', d')
      unfolding build_reply clamp_data
      build_reply_emits b b' d d' cmd flags payload room status bytes h1 h2 e h4 =
          let e1 =
            handle_frame-sealed b d cmd flags payload (room - reply_data_off - crc_bytes) h1 ∙ e in
          rw (
            e1,
            ltb-false (room - reply_data_off - crc_bytes) (length bytes) h4,
            ltb-false room 7 h2,
          )

      -- A host that seals a request reads from the reply its opcode, the status that the dispatch
      -- returns and the data that it returns, with zero bytes of padding behind them, where the data
      -- is within the room that the dispatch was given; the state is the one that the dispatch
      -- leaves, and the frame is counted by its status.
      pub build_reply-sealed :
          (b b' : Bridge) (d d' : Dev) (cmd flags : ℕ) (payload : List ℕ) (room : ℕ) (status : Resp)
          (bytes : List ℕ)
          → length payload + 2 < 2 ^ 16
          → 7 ≤ room
          → room < 2 ^ 16
          → dispatch b d cmd flags payload (room - reply_data_off - crc_bytes)
            ≡ ((status, bytes, b'), d')
          → length bytes ≤ room - reply_data_off - crc_bytes
          → (read_reply update
                ((build_reply update code dispatch b d (sealed update cmd flags payload) room).0)
              ≡ some (cmd, code status, bytes ++ padding bytes room))
            × ((build_reply update code dispatch b d (sealed update cmd flags payload) room).1
                ≡ tally status b')
            × ((build_reply update code dispatch b d (sealed update cmd flags payload) room).2 ≡ d')
      build_reply-sealed b b' d d' cmd flags payload room status bytes h1 h2 h3 e h4 =
          rw (build_reply_emits b b' d d' cmd flags payload room status bytes h1 h2 e h4)
            (read_reply-emit update code cmd status bytes room (omega arith) h3, refl, refl)

      -- A frame that is neither sealed nor a bare GET_VERSION, in a reply buffer of at least 7 and less
      -- than 65536 bytes, is answered with its first byte, ERR_PROTOCOL and padding only; it counts as a
      -- failed frame and ERR_PROTOCOL as the last error, and no other part of the state changes.
      pub build_reply_rejects :
          (b : Bridge) (d : Dev) (frame : List ℕ) (room : ℕ)
          → 7 ≤ room
          → room < 2 ^ 16
          → (IsSealed update frame → ⊥)
          → (IsBareVersion frame → ⊥)
          → (read_reply update ((build_reply update code dispatch b d frame room).0)
              ≡ some (get_or frame 0 0, code err_protocol, padding [] room))
            × ((build_reply update code dispatch b d frame room).1
                ≡ record b { frames_err = (b.frames_err + 1) % 2 ^ 32; last_error = err_protocol })
            × ((build_reply update code dispatch b d frame room).2 ≡ d)
      unfolding build_reply clamp_data tally
      build_reply_rejects b d frame room h2 h3 not_sealed not_bare =
          let e1 =
            handle_frame_rejects update dispatch b d frame (room - reply_data_off - crc_bytes)
              not_sealed not_bare in
          rw
            (e1, ltb-false (room - reply_data_off - crc_bytes) 0 (omega arith), ltb-false room 7 h2)
            (
              read_reply-emit update code (get_or frame 0 0) err_protocol [] room (omega arith) h3,
              refl,
              refl,
            )
