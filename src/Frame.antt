-- ===== src/Frame.antt =====
-- protocol_build_reply() of src/protocol.c: from a request frame to a reply frame, in the build
-- with CC3501E_WIRE_CRC. Frames are { cmd | flags | payload_len(LE16) | payload }, and the last two
-- bytes of the payload are the CRC of all before them.
pub mod Reply
pub mod Request
pub mod Exchange
mod Tests
use cc3501e_bridge_firmware.Base.{
  ℕ, zero, suc, ◌+◌, ◌-◌, ◌*◌, ◌/◌, ◌%◌, ◌^◌, ◌≡◌, Bool, true, false, ◌&&◌, Option, none, some,
  List, [], ◌∷◌, ◌++◌, ltb, leb, ◌==◌, if◌then◌else◌, length, get_or, take, drop, slice, replicate,
}
use cc3501e_bridge_firmware.Wire.{Resp, ok, err_no_mem, err_protocol, put_le16, get_le16}
use cc3501e_bridge_firmware.Crc.{crc_init, crc16_table_update}
use cc3501e_bridge_firmware.Bridge.{Bridge}
use cc3501e_bridge_firmware.Bridge

-- ALP_CC3501E_HEADER_BYTES, ALP_CC3501E_CRC_BYTES, CC3501E_REPLY_DATA_OFF, CC3501E_REPLY_PAD.
abbrev pub header_bytes : ℕ
header_bytes = 4

abbrev pub crc_bytes : ℕ
crc_bytes = 2

abbrev pub reply_data_off : ℕ
reply_data_off = 5

abbrev pub reply_pad : ℕ
reply_pad = 8

-- CC3501E_FRAME_MAX_BYTES, and CMD_GET_VERSION (tests/gen_protocol_vectors.py).
abbrev pub frame_max_bytes : ℕ
frame_max_bytes = 4100

abbrev pub get_version_byte : ℕ
get_version_byte = 1

-- The defensive clamp of a handler's data.
pub clamp_data : Bridge.Reply → ℕ → Bridge.Reply
clamp_data (status, bytes, b) room =
    if ltb room (length bytes) then (err_no_mem, [], b) else (status, bytes, b)

-- g_frames_ok, g_frames_err and g_last_error.
unfoldable pub tally : Resp → Bridge → Bridge
tally ok b = record b { frames_ok = (b.frames_ok + 1) % 2 ^ 32 }
tally status b = record b { frames_err = (b.frames_err + 1) % 2 ^ 32; last_error = status }

-- The zero bytes that round the payload up, where they fit.
pub pad_len : ℕ → ℕ → ℕ
pad_len reply_payload reply_cap =
    let rem = reply_payload % reply_pad in
    if rem == 0
    then 0
    else if leb (header_bytes + reply_payload + (reply_pad - rem)) reply_cap
    then reply_pad - rem
    else 0

-- `update` is the canonical CRC routine.
module _ (update : ℕ → List ℕ → ℕ) where
  -- The CRC of a frame, computed over its header and then over what follows.
  abbrev pub frame_crc : List ℕ → List ℕ → ℕ
  frame_crc header body = crc16_table_update update (crc16_table_update update crc_init header) body

-- `code` gives the byte of a status.
module _ (update : ℕ → List ℕ → ℕ) (code : Resp → ℕ) where
  -- The frame of a reply.
  pub emit : ℕ → Resp → List ℕ → ℕ → List ℕ
  emit cmd_echo status bytes reply_cap =
      let unpadded = (1 + length bytes + crc_bytes) % 2 ^ 16 in
      let pad = pad_len unpadded reply_cap in
      let reply_payload = (unpadded + pad) % 2 ^ 16 in
      let header = cmd_echo ∷ 0 ∷ put_le16 reply_payload in
      let body = take (reply_payload - crc_bytes) (code status ∷ bytes ++ replicate pad 0) in
      header ++ (body ++ put_le16 (frame_crc update header body))

-- `dispatch` is protocol_dispatch() for an opcode, a flags byte, the payload and the room for reply
-- data.
module _ (update : ℕ → List ℕ → ℕ) {Dev : Type 0}
    (dispatch : Bridge → Dev → ℕ → ℕ → List ℕ → ℕ → Bridge.Reply × Dev) where
  -- A request with a trailer: the check of the CRC, and the dispatch of what is in front of it.
  pub checked : Bridge → Dev → List ℕ → ℕ → ℕ → Bridge.Reply × Dev
  checked b d frame logical_len room =
      let payload = slice frame header_bytes logical_len in
      if frame_crc update (take header_bytes frame) payload
        == get_le16 frame (header_bytes + logical_len)
      then dispatch b d (get_or frame 0 0) (get_or frame 1 0) payload room
      else ((err_protocol, [], b), d)

  -- The part of the function up to the reply: what the request is answered with.
  pub handle_frame : Bridge → Dev → List ℕ → ℕ → Bridge.Reply × Dev
  handle_frame b d frame room =
      let payload_len = get_le16 frame 2 in
      if ltb (length frame) header_bytes
      then ((err_protocol, [], b), d)
      else if header_bytes + payload_len == length frame
      then (if get_or frame 0 0 == get_version_byte && payload_len == 0
          then dispatch b d (get_or frame 0 0) (get_or frame 1 0) [] room
          else if leb crc_bytes payload_len
          then checked b d frame (payload_len - crc_bytes) room
          else ((err_protocol, [], b), d))
      else ((err_protocol, [], b), d)

module _ (update : ℕ → List ℕ → ℕ) (code : Resp → ℕ) {Dev : Type 0}
    (dispatch : Bridge → Dev → ℕ → ℕ → List ℕ → ℕ → Bridge.Reply × Dev) where
  -- protocol_build_reply(); the empty list stands for the C result 0.
  pub build_reply : Bridge → Dev → List ℕ → ℕ → List ℕ × Bridge × Dev
  build_reply b d frame reply_cap =
      let room = reply_cap - reply_data_off - crc_bytes in
      let (reply, d') = handle_frame update dispatch b d frame room in
      let (status, bytes, b') = clamp_data reply room in
      if ltb reply_cap (reply_data_off + crc_bytes)
      then ([], b, d)
      else (emit update code (get_or frame 0 0) status bytes reply_cap, tally status b', d')
