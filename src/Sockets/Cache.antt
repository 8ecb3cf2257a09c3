-- ===== src/Sockets/Cache.antt =====
-- What the two reply caches of src/protocol_sockets.c promise a host that repeats a request.
use cc3501e_bridge_firmware.Base.{
  ℕ, ◌+◌, ◌%◌, ◌^◌, ◌≤◌, ◌<◌, ◌≡◌, ◌≢◌, refl, ap, sym, ◌∙◌, Bool, true, false, List, [], ◌∷◌,
  length, get_or, take, overwrite, take-append_of_length, eq-true, eq-false, ltb-false, ltb-true,
  Bool-cases, inl, inr, arith,
}
use cc3501e_bridge_firmware.Wire.{
  sock_send, sock_recv, ok, HwRv, hw_ok, hw_busy, hw_notimpl, hw_io, hw_inval, hw_state, hw_no_mem,
  get_le16, reply_data_max,
}
use cc3501e_bridge_firmware.Worker.{reclaim_matching_terminal, discard_stale_terminal}
use cc3501e_bridge_firmware.Bridge.{Bridge, SendCache, RecvCache}
use cc3501e_bridge_firmware.Routed.{err_resp, with_job, handle_worker_routed_payload_reply}
use cc3501e_bridge_firmware.SockRing.{Served, not_armed}
use cc3501e_bridge_firmware.Sockets.{
  sock_worker_hw_err_to_resp, sock_send_bytes, sock_recv_bytes, send_seq_at, recv_hdr,
  send_on_worker_complete, recv_worker_invalidate, recv_worker_copy, recv_worker_publish,
  cached_reply, match_send, serve_send, handle_sock_send, match_recv, answer_ring, serve_recv,
  after_ring, recv_room, is_replay, handle_sock_recv,
}

-- The cache that worker_execute() leaves for a receive of `bytes`.
abbrev pub completed_recv : RecvCache → ℕ → ℕ → List ℕ → RecvCache
completed_recv c handle max_len bytes =
    recv_worker_publish (recv_worker_copy (recv_worker_invalidate c) bytes) handle max_len hw_ok
      (length bytes)

match_send_hit : (c : SendCache) (seq : ℕ) → seq ≡ c.seq → match_send c seq ≡ c
unfolding match_send
match_send_hit c seq e =
    rw (eq-true seq c.seq e) (elim (Bool-cases c.cached) [ inl t ↦ rw t | inr f ↦ rw f ])

match_recv_hit :
    (c : RecvCache) (seq handle max_len : ℕ)
    → seq ≡ c.seq
    → handle ≡ c.handle
    → max_len ≡ c.max_len
    → match_recv c seq handle max_len ≡ c
unfolding match_recv
match_recv_hit c seq handle max_len e1 e2 e3 =
    rw (eq-true seq c.seq e1, eq-true handle c.handle e2, eq-true max_len c.max_len e3)
      (elim (Bool-cases c.cached) [ inl t ↦ rw t | inr f ↦ rw f ])

cached_reply_ok :
    (n : ℕ) (bytes : List ℕ) (room : ℕ) (b : Bridge)
    → n ≤ room
    → cached_reply ok n bytes room b ≡ (ok, take n bytes, b)
unfolding cached_reply
cached_reply_ok n bytes room b h = rw (ltb-false room n h)

-- A send that completed with the sequence number of a well-formed request is answered from the
-- cache, with the two bytes of its result: the cache stays for the next repetition, and the job slot
-- is at most reclaimed, so that the send is not queued again.
pub handle_sock_send_repeats :
    (b : Bridge) (c : SendCache) (req : List ℕ) (lo hi room : ℕ)
    → sock_send_bytes + get_le16 req 4 ≡ length req
    → 2 ≤ room
    → b.send ≡ send_on_worker_complete c (get_or req send_seq_at 0) hw_ok (lo ∷ hi ∷ [])
    → handle_sock_send b req room ≡ (
      ok,
      lo ∷ hi ∷ [],
      with_job b
          (reclaim_matching_terminal b.job sock_send send_seq_at (get_or req send_seq_at 0)).0,
    )
unfolding handle_sock_send serve_send send_on_worker_complete
handle_sock_send_repeats b c req lo hi room h1 h2 e =
    let j = with_job b (reclaim_matching_terminal b.job sock_send send_seq_at (get_or req 3 0)).0 in
    let hit = match_send_hit b.send (get_or req 3 0) (sym (ap (λ x. x.seq) e)) in
    rw
      (
        ltb-false (length req) sock_send_bytes (omega arith),
        eq-true (length req) (sock_send_bytes + get_le16 req 4) (sym h1),
      )
      (ap (λ x. serve_send x.cached (record b { send = x }) req room) hit
        ∙ ap (λ x. serve_send x.cached b req room) e
        ∙ ap (λ x. cached_reply x.status 2 x.reply room j) e
        ∙ cached_reply_ok 2 (lo ∷ hi ∷ []) room j h2)

-- A well-formed send with another sequence number than the cached one drops the cache and goes to
-- the worker, behind the discard of a finished job of another number.
pub handle_sock_send_advances :
    (b : Bridge) (req : List ℕ) (room : ℕ)
    → sock_send_bytes + get_le16 req 4 ≡ length req
    → b.send.cached ≡ true
    → get_or req send_seq_at 0 ≢ b.send.seq
    → handle_sock_send b req room
      ≡ handle_worker_routed_payload_reply
          (record b {
            send = record (b.send) { cached = false };
            job = (discard_stale_terminal b.job sock_send send_seq_at (get_or req send_seq_at 0)).0;
          })
          sock_send
          req
          2
          room
unfolding handle_sock_send match_send serve_send
handle_sock_send_advances b req room h1 e1 ne =
    let miss : match_send b.send (get_or req 3 0) ≡ record (b.send) { cached = false } =
      rw (eq-false (get_or req 3 0) b.send.seq ne) (rw e1) in
    rw
      (
        ltb-false (length req) sock_send_bytes (omega arith),
        eq-true (length req) (sock_send_bytes + get_le16 req 4) (sym h1),
      )
      (ap (λ x. serve_send x.cached (record b { send = x }) req room) miss)

completed_recv-full :
    (c : RecvCache) (handle max_len : ℕ) (bytes : List ℕ)
    → length bytes ≤ reply_data_max
    → completed_recv c handle max_len bytes ≡ record c {
      cached = true;
      seq = c.job_seq;
      handle = handle;
      max_len = max_len;
      status = ok;
      reply = overwrite c.reply bytes;
      reply_len = length bytes % 2 ^ 16;
    }
unfolding recv_worker_publish recv_worker_copy recv_worker_invalidate
completed_recv-full c handle max_len bytes h = rw (ltb-false reply_data_max (length bytes) h)

-- A receive that the worker completed is answered from the cache, with all its bytes, to a request of
-- the sequence number that it was submitted under and of its handle and length, where the ring is
-- not armed for the handle, the room suffices, the bytes are within a reply's, and the sequence
-- number is not the 0 of a host that sends none. The cache stays for the next repetition.
pub handle_sock_recv_repeats :
    {Dev : Type 0} (ring : Dev → ℕ → ℕ → Bool → Served × Dev) (b : Bridge) (c : RecvCache)
    (d d' : Dev) (req bytes : List ℕ) (room : ℕ)
    → length req ≡ sock_recv_bytes
    → recv_hdr < room
    → length bytes ≤ room
    → length bytes ≤ reply_data_max
    → b.req_seq ≡ c.job_seq
    → c.job_seq ≢ 0
    → b.recv ≡ completed_recv c (get_le16 req 0) (get_le16 req 2) bytes
    → ring d
        (get_le16 req 0)
        (recv_room room (get_le16 req 2) % 2 ^ 16)
        (is_replay b.last_recv b.req_seq (get_le16 req 0) (get_le16 req 2))
      ≡ (not_armed, d')
    → handle_sock_recv ring b d req room ≡ (
      (
        ok,
        bytes,
        record b {
          last_recv = record { seq = b.req_seq; handle = get_le16 req 0; max_len = get_le16 req 2 };
          job = (reclaim_matching_terminal b.job sock_recv 0 (get_le16 req 0 % 256)).0;
        },
      ),
      d',
    )
unfolding handle_sock_recv answer_ring serve_recv after_ring
handle_sock_recv_repeats ring b c d d' req bytes room h0 h1 h2 h3 e-seq ne e e-ring =
    let handle = get_le16 req 0 in
    let max_len = get_le16 req 2 in
    let turn = record b {
      last_recv = record { seq = b.req_seq; handle = handle; max_len = max_len };
    } in
    let j = record turn { job = (reclaim_matching_terminal b.job sock_recv 0 (handle % 256)).0 } in
    let full = completed_recv-full c handle max_len bytes h3 in
    let f = e ∙ full in
    let hit =
      match_recv_hit b.recv b.req_seq handle max_len (e-seq ∙ sym (ap (λ x. x.seq) f))
        (sym (ap (λ x. x.handle) f)) (sym (ap (λ x. x.max_len) f)) in
    let last : serve_recv true turn req room ≡ (ok, bytes, j) =
      rw (eq-false b.req_seq 0 (λ z. ne (sym e-seq ∙ z))) (
        ap (λ x. cached_reply x.status x.reply_len x.reply room j) f
        ∙ ap (λ n. cached_reply ok n (overwrite c.reply bytes) room j) (omega arith)
        ∙ cached_reply_ok (length bytes) (overwrite c.reply bytes) room j h2
        ∙ ap (λ x. (ok, x, j)) (take-append_of_length (length bytes) bytes _ refl)) in
    rw (eq-true (length req) sock_recv_bytes h0, ltb-true recv_hdr room h1, e-ring)
      (ap (λ x. (serve_recv x.cached (record turn { recv = x }) req room, d')) hit
        ∙ ap (λ x. (serve_recv x.cached turn req room, d')) f
        ∙ ap (λ r. (r, d')) last)

-- The status that the caches give to the error of a body is the one that the collect of a
-- worker-routed request gives, for every result code but NO_MEM, which a poll sets and no body.
pub sock_worker_hw_err_to_resp-err_resp :
    (rv : HwRv) → rv ≢ hw_no_mem → sock_worker_hw_err_to_resp rv ≡ err_resp rv
unfolding sock_worker_hw_err_to_resp err_resp
sock_worker_hw_err_to_resp-err_resp hw_ok n = refl
sock_worker_hw_err_to_resp-err_resp hw_busy n = refl
sock_worker_hw_err_to_resp-err_resp hw_notimpl n = refl
sock_worker_hw_err_to_resp-err_resp hw_io n = refl
sock_worker_hw_err_to_resp-err_resp hw_inval n = refl
sock_worker_hw_err_to_resp-err_resp hw_state n = refl
sock_worker_hw_err_to_resp-err_resp hw_no_mem n = absurd (n refl)
