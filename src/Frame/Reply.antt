-- ===== src/Frame/Reply.antt =====
-- The reply frame: its length, its padding, its CRC, and what a host reads from it.
use cc3501e_bridge_firmware.Base.{
  ℕ, suc, ◌+◌, ◌-◌, ◌*◌, ◌/◌, ◌%◌, ◌^◌, ◌≤◌, ◌<◌, ◌≡◌, refl, ap, ◌∙◌, ◌&&◌, Option, none, some,
  List, [], ◌∷◌, ◌++◌, leb, ◌==◌, if◌then◌else◌, length, get_or, take, slice, replicate,
  length-append, length-replicate, take_all, take-append_of_length, get_or-append_right, eq-true,
  leb-true, arith,
}
use cc3501e_bridge_firmware.Wire.{Resp, put_le16, get_le16}
use cc3501e_bridge_firmware.Crc.{
  crc_init, crc16_table_update, crc16_table_update-append, crc16_table_update-lt,
}
use cc3501e_bridge_firmware.Frame.{
  header_bytes, crc_bytes, reply_data_off, reply_pad, frame_max_bytes, frame_crc, pad_len, emit,
}

-- The padding is less than one block of eight bytes, and the frame with it still fits.
pad_len_bounds :
    (n room : ℕ)
    → header_bytes + n ≤ room
    → (pad_len n room < reply_pad) × (header_bytes + (n + pad_len n room) ≤ room)
unfolding pad_len
pad_len_bounds n room h = ground arith

-- Where the room is a whole number of eights behind the header, the padding always fits.
pub pad_len_aligns :
    (n room : ℕ)
    → header_bytes + n ≤ room
    → (room - header_bytes) % reply_pad ≡ 0
    → (n + pad_len n room) % reply_pad ≡ 0
unfolding pad_len
pad_len_aligns n room h e = ground arith

abbrev pub padding : List ℕ → ℕ → List ℕ
padding bytes room = replicate (pad_len (1 + length bytes + crc_bytes) room) 0

-- The bytes of a frame whose header declares what follows it.
abbrev pub sealed : (ℕ → List ℕ → ℕ) → ℕ → ℕ → List ℕ → List ℕ
sealed update cmd flags body =
    let header = cmd ∷ flags ∷ put_le16 (length body + crc_bytes) in
    header ++ (body ++ put_le16 (frame_crc update header body))

-- What a host reads from a reply: the opcode, the status byte and the data; none for a frame of
-- another length than it declares, or with another CRC.
pub read_payload : (ℕ → List ℕ → ℕ) → List ℕ → ℕ → Option (ℕ × ℕ × List ℕ)
read_payload update frame payload_len =
    if leb (1 + crc_bytes) payload_len
      && length frame == header_bytes + payload_len
      && crc16_table_update update crc_init (take (header_bytes + (payload_len - crc_bytes)) frame)
        == get_le16 frame (header_bytes + (payload_len - crc_bytes))
    then some (
      get_or frame 0 0,
      get_or frame 4 0,
      slice frame reply_data_off (payload_len - 1 - crc_bytes),
    )
    else none

abbrev pub read_reply : (ℕ → List ℕ → ℕ) → List ℕ → Option (ℕ × ℕ × List ℕ)
read_reply update frame = read_payload update frame (get_le16 frame 2)

module _ (update : ℕ → List ℕ → ℕ) (code : Resp → ℕ) where
  emit-sealed :
      (cmd : ℕ) (status : Resp) (bytes : List ℕ) (room : ℕ)
      → length bytes + 7 ≤ room
      → room < 2 ^ 16
      → emit update code cmd status bytes room
        ≡ sealed update cmd 0 (code status ∷ bytes ++ padding bytes room)
  unfolding emit
  emit-sealed cmd status bytes room h l =
      let n = 1 + length bytes + crc_bytes in
      let b = pad_len_bounds n room (omega arith) in
      let e0 : (1 + length bytes + crc_bytes) % 2 ^ 16 ≡ n = omega arith in
      let e1 : (n + pad_len n room) % 2 ^ 16
          ≡ length (code status ∷ bytes ++ padding bytes room) + crc_bytes =
        omega (
          arith,
          length-append bytes (padding bytes room),
          length-replicate {A = ℕ} (pad_len n room) 0,
        ) in
      let e2 : length (code status ∷ bytes ++ padding bytes room) + crc_bytes - crc_bytes
          ≡ length (code status ∷ bytes ++ padding bytes room) =
        omega arith in
      let e3 =
        take_all (length (bytes ++ padding bytes room)) (bytes ++ padding bytes room)
          (omega arith) in
      rw (e0, e1, e2, e3)

module _ (update : ℕ → List ℕ → ℕ) where
  read_payload-sealed :
      (a f lo hi status c0 c1 : ℕ) (bytes : List ℕ)
      → frame_crc update (a ∷ f ∷ lo ∷ hi ∷ []) (status ∷ bytes) ≡ c0 + c1 * 256
      → read_payload update
          (a ∷ f ∷ lo ∷ hi ∷ status ∷ bytes ++ (c0 ∷ c1 ∷ []))
          (suc (length bytes) + crc_bytes)
        ≡ some (a, status, bytes)
  unfolding read_payload
  read_payload-sealed a f lo hi status c0 c1 bytes e-crc =
      let body = status ∷ bytes in
      let trailer = c0 ∷ c1 ∷ [] in
      let frame = a ∷ f ∷ lo ∷ hi ∷ body ++ trailer in
      let n = length bytes in
      let e0 : suc n + crc_bytes - crc_bytes ≡ suc n = omega arith in
      let e1 : suc n + crc_bytes - 1 - crc_bytes ≡ n = omega arith in
      let e-take : take (header_bytes + suc n) frame ≡ a ∷ f ∷ lo ∷ hi ∷ body =
        take-append_of_length (header_bytes + suc n) (a ∷ f ∷ lo ∷ hi ∷ body) trailer
          (omega arith) in
      let e-lo : get_or frame (header_bytes + suc n) 0 ≡ c0 =
        ap (λ k. get_or frame k 0) (omega arith)
        ∙ get_or-append_right (a ∷ f ∷ lo ∷ hi ∷ body) trailer 0 0 in
      let e-hi : get_or frame (header_bytes + suc n + 1) 0 ≡ c1 =
        ap (λ k. get_or frame k 0) (omega arith)
        ∙ get_or-append_right (a ∷ f ∷ lo ∷ hi ∷ body) trailer 1 0 in
      let e-slice : slice frame reply_data_off n ≡ bytes =
        take-append_of_length n bytes trailer refl in
      let e-len : length frame ≡ header_bytes + (suc n + crc_bytes) =
        omega (arith, length-append body trailer) in
      let e-sum : crc16_table_update update crc_init (a ∷ f ∷ lo ∷ hi ∷ body) ≡ c0 + c1 * 256 =
        crc16_table_update-append update crc_init (a ∷ f ∷ lo ∷ hi ∷ []) body ∙ e-crc in
      rw (
        e0,
        e1,
        leb-true (1 + crc_bytes) (suc n + crc_bytes) (omega arith),
        eq-true (length frame) (header_bytes + (suc n + crc_bytes)) e-len,
        e-take,
        e-lo,
        e-hi,
        eq-true (crc16_table_update update crc_init (a ∷ f ∷ lo ∷ hi ∷ body)) (c0 + c1 * 256) e-sum,
        e-slice,
      )

  read_reply-sealed :
      (cmd flags status : ℕ) (bytes : List ℕ)
      → length bytes + 3 < 2 ^ 16
      → read_reply update (sealed update cmd flags (status ∷ bytes)) ≡ some (cmd, status, bytes)
  read_reply-sealed cmd flags status bytes h =
      let n = suc (length bytes) + crc_bytes in
      let header = cmd ∷ flags ∷ put_le16 n in
      let c = frame_crc update header (status ∷ bytes) in
      let c-lt =
        crc16_table_update-lt update (crc16_table_update update crc_init header) (status ∷ bytes)
          (crc16_table_update-lt update crc_init header (omega arith)) in
      let e-n : n % 256 + n / 256 % 256 * 256 ≡ n = omega arith in
      ap (read_payload update (sealed update cmd flags (status ∷ bytes))) e-n
      ∙ read_payload-sealed cmd flags (n % 256) (n / 256 % 256) status (c % 256) (c / 256 % 256)
          bytes (omega arith)

module _ (update : ℕ → List ℕ → ℕ) (code : Resp → ℕ) where
  -- A host reads from the frame of a reply the opcode of the request, the status byte of the reply
  -- and the data of the reply with the zero bytes of the padding behind it, its length and its CRC
  -- being right, where the data, the status, the header and the CRC fit in a buffer of less than
  -- 65536 bytes.
  pub read_reply-emit :
      (cmd : ℕ) (status : Resp) (bytes : List ℕ) (room : ℕ)
      → length bytes + 7 ≤ room
      → room < 2 ^ 16
      → read_reply update (emit update code cmd status bytes room)
        ≡ some (cmd, code status, bytes ++ padding bytes room)
  read_reply-emit cmd status bytes room h l =
      let b = pad_len_bounds (1 + length bytes + crc_bytes) room (omega arith) in
      let e-len = length-append bytes (padding bytes room) in
      let e-rep = length-replicate {A = ℕ} (pad_len (1 + length bytes + crc_bytes) room) 0 in
      ap (read_reply update) (emit-sealed update code cmd status bytes room h l)
      ∙ read_reply-sealed update cmd 0 (code status) (bytes ++ padding bytes room) (omega arith)

  length-emit :
      (cmd : ℕ) (status : Resp) (bytes : List ℕ) (room : ℕ)
      → length bytes + 7 ≤ room
      → room < 2 ^ 16
      → length (emit update code cmd status bytes room)
        ≡ header_bytes
          + (1 + length bytes + crc_bytes + pad_len (1 + length bytes + crc_bytes) room)
  length-emit cmd status bytes room h l =
      let n = 1 + length bytes + crc_bytes in
      let body = code status ∷ bytes ++ padding bytes room in
      let c = frame_crc update (cmd ∷ 0 ∷ put_le16 (length body + crc_bytes)) body in
      ap length (emit-sealed update code cmd status bytes room h l)
      ∙ omega (
        arith,
        length-append body (put_le16 c),
        length-append bytes (padding bytes room),
        length-replicate {A = ℕ} (pad_len n room) 0,
      )

  -- The frame of a reply is no longer than its buffer and exceeds the status, the data, the header
  -- and the CRC by less than eight bytes, where these fit in a buffer of less than 65536 bytes.
  pub length-emit_bounds :
      (cmd : ℕ) (status : Resp) (bytes : List ℕ) (room : ℕ)
      → length bytes + 7 ≤ room
      → room < 2 ^ 16
      → (length (emit update code cmd status bytes room) ≤ room)
        × (length (emit update code cmd status bytes room) < length bytes + 7 + reply_pad)
  length-emit_bounds cmd status bytes room h l =
      let b = pad_len_bounds (1 + length bytes + crc_bytes) room (omega arith) in
      let e = length-emit cmd status bytes room h l in (omega arith, omega arith)

  -- In a buffer of CC3501E_FRAME_MAX_BYTES what follows the header of a reply is a whole number of
  -- blocks of eight bytes.
  pub length-emit_aligned :
      (cmd : ℕ) (status : Resp) (bytes : List ℕ)
      → length bytes + 7 ≤ frame_max_bytes
      → (length (emit update code cmd status bytes frame_max_bytes) - header_bytes) % reply_pad ≡ 0
  length-emit_aligned cmd status bytes h =
      let a =
        pad_len_aligns (1 + length bytes + crc_bytes) frame_max_bytes (omega arith) (omega arith) in
      let e = length-emit cmd status bytes frame_max_bytes h (omega arith) in omega arith
