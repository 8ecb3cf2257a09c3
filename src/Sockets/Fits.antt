-- ===== src/Sockets/Fits.antt =====
-- The data of a socket handler's reply are within the room of the reply.
use cc3501e_bridge_firmware.Base.{
  ℕ, ◌+◌, ◌-◌, ◌%◌, ◌^◌, ◌≤◌, ◌<◌, ◌≡◌, Bool, true, false, List, ltb, ◌==◌, length, get_or, inl,
  inr, Bool-cases, length-replicate, length-take, arith,
}
use cc3501e_bridge_firmware.Wire.{
  Resp, ok, err_invalid, err_busy, err_no_mem, err_not_ready, err_radio, err_protocol, err_state,
  get_le16,
}
use cc3501e_bridge_firmware.Bridge.{Bridge}
use cc3501e_bridge_firmware.SockRing
use cc3501e_bridge_firmware.SockRing.{Served, not_armed, drained, bytes}
use cc3501e_bridge_firmware.SockRing.Stream.{served_bytes}
use cc3501e_bridge_firmware.Routed.Fits.{Fits, handle_worker_routed_payload_reply-Fits}
use cc3501e_bridge_firmware.Sockets.{
  recv_hdr, cached_reply, match_send, serve_send, handle_sock_send, match_recv, recv_reply,
  answer_ring, serve_recv, after_ring, recv_room, handle_sock_recv, is_replay, sock_send_bytes,
  sock_recv_bytes,
}

cached_reply-Fits :
    (status : Resp) (n : ℕ) (payload : List ℕ) (room : ℕ) (b : Bridge)
    → Fits (cached_reply status n payload room b) room
unfolding cached_reply
cached_reply-Fits ok n payload room b = ground (arith, length-take n payload)
cached_reply-Fits err_invalid n payload room b = omega arith
cached_reply-Fits err_busy n payload room b = omega arith
cached_reply-Fits err_no_mem n payload room b = omega arith
cached_reply-Fits err_not_ready n payload room b = omega arith
cached_reply-Fits err_radio n payload room b = omega arith
cached_reply-Fits err_protocol n payload room b = omega arith
cached_reply-Fits err_state n payload room b = omega arith

serve_send-Fits :
    (held : Bool) (b : Bridge) (req : List ℕ) (room : ℕ) → Fits (serve_send held b req room) room
unfolding serve_send
serve_send-Fits true b req room = cached_reply-Fits b.send.status 2 b.send.reply room _
serve_send-Fits false b req room = handle_worker_routed_payload_reply-Fits _ _ req 2 room

pub handle_sock_send-Fits :
    (b : Bridge) (req : List ℕ) (room : ℕ) → Fits (handle_sock_send b req room) room
unfolding handle_sock_send
handle_sock_send-Fits b req room =
    let c = match_send b.send (get_or req 3 0) in
    let f = serve_send-Fits c.cached (record b { send = c }) req room in
    elim (Bool-cases (ltb (length req) sock_send_bytes)) [
      | inl s ↦ rw s (omega arith)
      | inr s ↦ elim (Bool-cases (length req == sock_send_bytes + get_le16 req 4)) [
        | inl y ↦ rw (s, y) f
        | inr y ↦ rw (s, y) (omega arith)
      ]
    ]

serve_recv-Fits :
    (held : Bool) (b : Bridge) (req : List ℕ) (room : ℕ) → Fits (serve_recv held b req room) room
unfolding serve_recv
serve_recv-Fits true b req room =
    cached_reply-Fits b.recv.status b.recv.reply_len b.recv.reply room _
serve_recv-Fits false b req room = handle_worker_routed_payload_reply-Fits _ _ req recv_hdr room

length-recv_reply : (payload : List ℕ) → length (recv_reply payload) ≡ recv_hdr + length payload
length-recv_reply payload = omega arith

-- A ring's answer fits, where the ring served no more than its room.
answer_ring-Fits :
    (served : Served) (max_len : ℕ) (b : Bridge) (req : List ℕ) (room : ℕ)
    → recv_hdr < room
    → recv_hdr + length (served_bytes served) ≤ room
    → Fits (after_ring (answer_ring served max_len) b req room) room
unfolding after_ring answer_ring
answer_ring-Fits not_armed max_len b req room h f = serve_recv-Fits b.recv.cached b req room
answer_ring-Fits (drained SockRing.again) max_len b req room h f =
    elim (Bool-cases (max_len == 0)) [
      | inl z ↦ rw z (omega (arith, length-replicate {A = ℕ} recv_hdr 0))
      | inr z ↦ rw z (omega arith)
    ]
answer_ring-Fits (drained SockRing.reset) max_len b req room h f = omega arith
answer_ring-Fits (drained SockRing.eof) max_len b req room h f = omega arith
answer_ring-Fits (bytes payload) max_len b req room h f = omega (arith, length-recv_reply payload)

recv_room_le : (room max_len : ℕ) → recv_room room max_len ≤ room - recv_hdr
unfolding recv_room
recv_room_le room max_len = ground arith

module _ {Dev : Type 0} (ring : Dev → ℕ → ℕ → Bool → Served × Dev) where
  -- The ring serves no more bytes than it is given room for.
  abbrev pub RingFits : Type 0
  RingFits =
      (d : Dev) (handle room : ℕ) (replay : Bool)
      → length (served_bytes (ring d handle room replay).0) ≤ room

  pub handle_sock_recv-Fits :
      (b : Bridge) (d : Dev) (req : List ℕ) (room : ℕ)
      → RingFits
      → Fits (handle_sock_recv ring b d req room).0 room
  unfolding handle_sock_recv after_ring answer_ring
  handle_sock_recv-Fits b d req room f =
      let handle = get_le16 req 0 in
      let max_len = get_le16 req 2 in
      let b1 = record b { recv = match_recv b.recv b.req_seq handle max_len } in
      let b2 = record b1 {
        last_recv = record { seq = b.req_seq; handle = handle; max_len = max_len };
      } in
      let again = is_replay b.last_recv b.req_seq handle max_len in
      let given = f d handle (recv_room room max_len % 2 ^ 16) again in
      let le = recv_room_le room max_len in
      elim (Bool-cases (length req == sock_recv_bytes)) [
        | inr n ↦ rw n (omega arith)
        | inl y ↦ elim (Bool-cases (ltb recv_hdr room)) [
          | inl t ↦
              rw (y, t)
                (answer_ring-Fits (ring d handle (recv_room room max_len % 2 ^ 16) again).0 max_len
                  b2 req room (ground arith) (ground arith))
          | inr t ↦ rw (y, t) (serve_recv-Fits b1.recv.cached b1 req room)
        ]
      ]
