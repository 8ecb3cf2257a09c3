-- ===== src/Sockets.antt =====
-- src/protocol_sockets.c: the socket handlers, the reply cache of SOCK_SEND, and the reply cache
-- of the SOCK_RECV that runs in the worker.
pub mod Cache
pub mod Replay
pub mod Fits
mod Tests
use cc3501e_bridge_firmware.Base.{
  ℕ, ◌+◌, ◌-◌, ◌*◌, ◌%◌, ◌^◌, Bool, true, false, not, ◌&&◌, ◌||◌, Option, none, some, List, [], ◌∷◌,
  ◌++◌, ltb, ◌==◌, if◌then◌else◌, length, get_or, take, replicate, overwrite,
}
use cc3501e_bridge_firmware.Wire.{
  Cmd, sock_open, sock_connect, sock_bind, sock_listen, sock_send, sock_recv, sock_close, Resp, ok,
  err_invalid, err_busy, err_no_mem, err_not_ready, err_radio, err_state, HwRv, hw_ok, hw_notimpl,
  hw_inval, hw_state, Layout, put_le16, get_le16, reply_data_max,
}
use cc3501e_bridge_firmware.Worker.{
  reclaim_matching_terminal, discard_stale_terminal, discard_stale_recv,
}
use cc3501e_bridge_firmware.Bridge
use cc3501e_bridge_firmware.Bridge.{Bridge, Reply, SendCache, RecvCache}
use cc3501e_bridge_firmware.Routed.{
  with_job, handle_worker_routed_payload, handle_worker_routed_payload_reply,
}
use cc3501e_bridge_firmware.SockRing
use cc3501e_bridge_firmware.SockRing.{Served, not_armed, drained, bytes}

-- sizeof() of alp_cc3501e_sock_open_t, _send_t, _recv_t, _recv_resp_t, _handle_t and _addr_t, and
-- offsetof(alp_cc3501e_sock_send_t, seq), as the comments of src/worker.c and tests/unit lay them out.
abbrev pub sock_open_bytes : ℕ
sock_open_bytes = 4

abbrev pub sock_send_bytes : ℕ
sock_send_bytes = 8

abbrev pub sock_recv_bytes : ℕ
sock_recv_bytes = 4

abbrev pub sock_listen_bytes : ℕ
sock_listen_bytes = 4

abbrev pub sock_close_bytes : ℕ
sock_close_bytes = 4

abbrev pub sock_handle_bytes : ℕ
sock_handle_bytes = 4

abbrev pub recv_hdr : ℕ
recv_hdr = 24

abbrev pub send_seq_at : ℕ
send_seq_at = 3

-- sock_worker_hw_err_to_resp().
unfoldable pub sock_worker_hw_err_to_resp : HwRv → Resp
sock_worker_hw_err_to_resp hw_notimpl = err_not_ready
sock_worker_hw_err_to_resp hw_inval = err_invalid
sock_worker_hw_err_to_resp hw_state = err_state
sock_worker_hw_err_to_resp _ = err_radio

-- protocol_sock_send_on_worker_complete().
unfoldable pub send_on_worker_complete : SendCache → ℕ → HwRv → List ℕ → SendCache
send_on_worker_complete c seq hw_ok payload =
    if length payload == 2
    then record { cached = true; seq = seq; status = ok; reply = payload }
    else c
send_on_worker_complete c seq rv payload = record c {
  cached = true;
  seq = seq;
  status = sock_worker_hw_err_to_resp rv;
}

-- protocol_sock_recv_worker_invalidate(), protocol_sock_recv_worker_copy(),
-- protocol_sock_recv_worker_publish().
unfoldable pub recv_worker_invalidate : RecvCache → RecvCache
recv_worker_invalidate c = record c { cached = false }

unfoldable pub recv_worker_copy : RecvCache → List ℕ → RecvCache
recv_worker_copy c payload =
    if ltb reply_data_max (length payload)
    then c
    else record c { reply = overwrite c.reply payload }

unfoldable pub recv_worker_publish : RecvCache → ℕ → ℕ → HwRv → ℕ → RecvCache
recv_worker_publish c handle max_len hw_ok len =
    if ltb reply_data_max len
    then record c {
      seq = c.job_seq;
      handle = handle;
      max_len = max_len;
      reply_len = 0;
      status = err_no_mem;
      cached = true;
    }
    else record c {
      seq = c.job_seq;
      handle = handle;
      max_len = max_len;
      reply_len = len % 2 ^ 16;
      status = ok;
      cached = true;
    }
recv_worker_publish c handle max_len rv len = record c {
  seq = c.job_seq;
  handle = handle;
  max_len = max_len;
  reply_len = 0;
  status = sock_worker_hw_err_to_resp rv;
  cached = true;
}

module _ (w : Layout) where
  -- handle_sock_open().
  unfoldable pub handle_sock_open : Bridge → List ℕ → ℕ → Reply
  handle_sock_open b req room =
      if not (length req == sock_open_bytes)
      then (err_invalid, [], b)
      else if not (get_or req 0 0 == w.family_ipv4)
      then (err_invalid, [], b)
      else handle_worker_routed_payload_reply b sock_open req sock_handle_bytes room

  -- handle_sock_connect() and handle_sock_bind(), whose requests are laid out alike.
  unfoldable pub handle_sock_connect : Bridge → List ℕ → Reply
  handle_sock_connect b req =
      if not (length req == w.sock_connect_bytes)
      then (err_invalid, [], b)
      else if not (get_or req 4 0 == w.family_ipv4)
      then (err_invalid, [], b)
      else handle_worker_routed_payload b sock_connect req

  unfoldable pub handle_sock_bind : Bridge → List ℕ → Reply
  handle_sock_bind b req =
      if not (length req == w.sock_connect_bytes)
      then (err_invalid, [], b)
      else if not (get_or req 4 0 == w.family_ipv4)
      then (err_invalid, [], b)
      else handle_worker_routed_payload b sock_bind req

-- handle_sock_listen().
unfoldable pub handle_sock_listen : Bridge → List ℕ → Reply
handle_sock_listen b req =
    if not (length req == sock_listen_bytes)
    then (err_invalid, [], b)
    else if get_or req 0 0 == 0 && get_or req 1 0 == 0
    then (err_invalid, [], b)
    else handle_worker_routed_payload b sock_listen req

-- A reply out of a cache of `n` bytes.
unfoldable pub cached_reply : Resp → ℕ → List ℕ → ℕ → Bridge → Reply
cached_reply ok n payload room b =
    if ltb room n then (err_no_mem, [], b) else (ok, take n payload, b)
cached_reply status n payload room b = (status, [], b)

-- The cache of a send is dropped by a request with another sequence number.
unfoldable pub match_send : SendCache → ℕ → SendCache
match_send c seq = if c.cached && not (seq == c.seq) then record c { cached = false } else c

-- The rest of handle_sock_send(), by whether the cache still holds.
unfoldable pub serve_send : Bool → Bridge → List ℕ → ℕ → Reply
serve_send true b req room =
    cached_reply b.send.status 2 b.send.reply room
      (with_job b (reclaim_matching_terminal b.job sock_send send_seq_at (get_or req 3 0)).0)
serve_send false b req room =
    handle_worker_routed_payload_reply
      (with_job b (discard_stale_terminal b.job sock_send send_seq_at (get_or req 3 0)).0) sock_send
      req 2 room

-- handle_sock_send().
unfoldable pub handle_sock_send : Bridge → List ℕ → ℕ → Reply
handle_sock_send b req room =
    if ltb (length req) sock_send_bytes
    then (err_invalid, [], b)
    else if not (length req == sock_send_bytes + get_le16 req 4)
    then (err_invalid, [], b)
    else (let c = match_send b.send (get_or req 3 0) in
        serve_send c.cached (record b { send = c }) req room)

-- The cache of a receive is dropped by a request with another sequence number, handle or length.
unfoldable pub match_recv : RecvCache → ℕ → ℕ → ℕ → RecvCache
match_recv c seq handle max_len =
    if c.cached && (not (seq == c.seq) || (not (handle == c.handle) || not (max_len == c.max_len)))
    then record c { cached = false }
    else c

-- The header of a receive's reply and the bytes behind it.
abbrev pub recv_reply : List ℕ → List ℕ
recv_reply payload = replicate 20 0 ++ (put_le16 (length payload) ++ (0 ∷ 0 ∷ payload))

-- What the ring's outcome is answered with; none where the ring is not armed for the handle.
unfoldable pub answer_ring : Served → ℕ → Option (Resp × List ℕ)
answer_ring not_armed max_len = none
answer_ring (drained SockRing.again) max_len =
    some (if max_len == 0 then (ok, replicate recv_hdr 0) else (err_busy, []))
answer_ring (drained SockRing.reset) max_len = some (err_radio, [])
answer_ring (drained SockRing.eof) max_len = some (ok, recv_reply [])
answer_ring (bytes payload) max_len = some (ok, recv_reply payload)

-- The worker's way of a receive, by whether the cache still holds.
unfoldable pub serve_recv : Bool → Bridge → List ℕ → ℕ → Reply
serve_recv true b req room =
    let c = if b.req_seq == 0 then recv_worker_invalidate b.recv else b.recv in
    cached_reply b.recv.status b.recv.reply_len b.recv.reply room (record b {
      recv = c;
      job = (reclaim_matching_terminal b.job sock_recv 0 (get_le16 req 0 % 256)).0;
    })
serve_recv false b req room =
    handle_worker_routed_payload_reply (with_job b (discard_stale_recv b.job).0) sock_recv req
      recv_hdr room

-- handle_sock_recv() behind the ring's answer.
unfoldable pub after_ring : Option (Resp × List ℕ) → Bridge → List ℕ → ℕ → Reply
after_ring (some (status, payload)) b req room = (status, payload, b)
after_ring none b req room = serve_recv b.recv.cached b req room

-- The room for data that the ring is given.
unfoldable pub recv_room : ℕ → ℕ → ℕ
recv_room room max_len =
    let data_room = room - recv_hdr in
    if max_len == 0 then 0 else if ltb max_len data_room then max_len else data_room

-- Whether a request repeats the one before it.
unfoldable pub is_replay : Bridge.RecvTurn → ℕ → ℕ → ℕ → Bool
is_replay last seq handle max_len =
    not (seq == 0) && (seq == last.seq && (handle == last.handle && max_len == last.max_len))

-- handle_sock_recv(). `ring` is cc3501e_hw_sock_recv_ring() on the hardware's state.
module _ {Dev : Type 0} (ring : Dev → ℕ → ℕ → Bool → Served × Dev) where
  unfoldable pub handle_sock_recv : Bridge → Dev → List ℕ → ℕ → Reply × Dev
  handle_sock_recv b d req room =
      let handle = get_le16 req 0 in
      let max_len = get_le16 req 2 in
      let b1 = record b { recv = match_recv b.recv b.req_seq handle max_len } in
      if not (length req == sock_recv_bytes)
      then ((err_invalid, [], b), d)
      else if ltb recv_hdr room
      then (let (served, d') =
            ring d handle (recv_room room max_len % 2 ^ 16)
              (is_replay b.last_recv b.req_seq handle max_len) in
          let b2 = record b1 {
            last_recv = record { seq = b.req_seq; handle = handle; max_len = max_len };
          } in
          (after_ring (answer_ring served max_len) b2 req room, d'))
      else (after_ring none b1 req room, d)

-- handle_sock_close().
unfoldable pub handle_sock_close : Bridge → List ℕ → Reply
handle_sock_close b req =
    if not (length req == sock_close_bytes)
    then (err_invalid, [], b)
    else (let c =
          if b.recv.cached && get_le16 req 0 == b.recv.handle
          then recv_worker_invalidate b.recv
          else b.recv in
        handle_worker_routed_payload (record b { recv = c }) sock_close req)
