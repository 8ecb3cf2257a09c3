-- ===== src/Frame/Request.antt =====
-- The request frame: what reaches protocol_dispatch(), and what is turned away before it.
use cc3501e_bridge_firmware.Base.{
  ℕ, ◌+◌, ◌-◌, ◌≤◌, ◌≡◌, List, [], length, get_or, take, slice, arith,
}
use cc3501e_bridge_firmware.Wire.{err_protocol, get_le16}
use cc3501e_bridge_firmware.Bridge
use cc3501e_bridge_firmware.Bridge.{Bridge}
use cc3501e_bridge_firmware.Frame.{
  header_bytes, crc_bytes, get_version_byte, frame_crc, checked, handle_frame,
}

-- The frame has the length that its header declares, room for a CRC in it, and the right CRC in
-- its last two bytes.
abbrev pub IsSealed : (ℕ → List ℕ → ℕ) → List ℕ → Type 0
IsSealed update frame =
    (crc_bytes ≤ get_le16 frame 2)
    × (length frame ≡ header_bytes + get_le16 frame 2)
    × (frame_crc update (take header_bytes frame)
          (slice frame header_bytes (get_le16 frame 2 - crc_bytes))
        ≡ get_le16 frame (header_bytes + (get_le16 frame 2 - crc_bytes)))

-- The GET_VERSION of a host that does not know yet that frames carry a CRC.
abbrev pub IsBareVersion : List ℕ → Type 0
IsBareVersion frame =
    (length frame ≡ header_bytes) × (get_or frame 0 0 ≡ get_version_byte) × (get_le16 frame 2 ≡ 0)

module _ (update : ℕ → List ℕ → ℕ) {Dev : Type 0}
    (dispatch : Bridge → Dev → ℕ → ℕ → List ℕ → ℕ → Bridge.Reply × Dev) where
  -- A frame that is neither sealed nor a bare GET_VERSION does not reach the dispatch: it is answered
  -- with ERR_PROTOCOL and no data, and the state is as it was.
  pub handle_frame_rejects :
      (b : Bridge) (d : Dev) (frame : List ℕ) (room : ℕ)
      → (IsSealed update frame → ⊥)
      → (IsBareVersion frame → ⊥)
      → handle_frame update dispatch b d frame room ≡ ((err_protocol, [], b), d)
  unfolding handle_frame checked
  handle_frame_rejects b d frame room not_sealed not_bare = ground arith

  -- A sealed frame reaches the dispatch with the opcode and the flags of its header and with the bytes
  -- between the header and the CRC.
  pub handle_frame_accepts :
      (b : Bridge) (d : Dev) (frame : List ℕ) (room : ℕ)
      → IsSealed update frame
      → handle_frame update dispatch b d frame room
        ≡ dispatch b d
            (get_or frame 0 0)
            (get_or frame 1 0)
            (slice frame header_bytes (get_le16 frame 2 - crc_bytes))
            room
  unfolding handle_frame checked
  handle_frame_accepts b d frame room (h2, hl, hc) = ground arith
