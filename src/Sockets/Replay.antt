-- ===== src/Sockets/Replay.antt =====
-- handle_sock_recv() over the prefetch ring: a receive whose reply was lost.
use cc3501e_bridge_firmware.Base.{
  ℕ, ◌+◌, ◌-◌, ◌%◌, ◌^◌, ◌≤◌, ◌<◌, ◌≡◌, ◌≢◌, refl, ap, ◌∙◌, sym, Bool, true, some, List, ◌∷◌, ◌++◌,
  length, take, drop, slice, length-append, take-append_take, slice-append_left, eq-true, eq-false,
  ltb-true, arith,
}
use cc3501e_bridge_firmware.Wire.{Resp, ok, get_le16}
use cc3501e_bridge_firmware.Bridge.{Bridge}
use cc3501e_bridge_firmware.SockRing
use cc3501e_bridge_firmware.SockRing.{RxRing, Served, sock_recv_ring, Recv}
use cc3501e_bridge_firmware.SockRing.Stream.{
  Carries, Bounded, start, served_bytes, sock_recv_ring-Serves,
}
use cc3501e_bridge_firmware.SockRing.Pump.{pumps, pumps-Pumped}
use cc3501e_bridge_firmware.SockRing.Replay.{sock_recv_ring_replay}
use cc3501e_bridge_firmware.Sockets.{
  sock_recv_bytes, recv_hdr, match_recv, answer_ring, after_ring, recv_room, is_replay, recv_reply,
  handle_sock_recv,
}

-- What the ring is asked for by a request.
abbrev pub asked : Bridge → RxRing → List ℕ → ℕ → Served × RxRing
asked b r req room =
    sock_recv_ring r (get_le16 req 0) (recv_room room (get_le16 req 2) % 2 ^ 16)
      (is_replay b.last_recv b.req_seq (get_le16 req 0) (get_le16 req 2))

-- The state that an answer of the ring leaves.
abbrev pub turned : Bridge → List ℕ → Bridge
turned b req = record b {
  recv = match_recv b.recv b.req_seq (get_le16 req 0) (get_le16 req 2);
  last_recv = record { seq = b.req_seq; handle = get_le16 req 0; max_len = get_le16 req 2 };
}

ring_answers :
    (b : Bridge) (r : RxRing) (req : List ℕ) (room : ℕ) (status : Resp) (payload : List ℕ)
    → length req ≡ sock_recv_bytes
    → recv_hdr < room
    → answer_ring (asked b r req room).0 (get_le16 req 2) ≡ some (status, payload)
    → handle_sock_recv sock_recv_ring b r req room
      ≡ ((status, payload, turned b req), (asked b r req room).1)
unfolding handle_sock_recv after_ring
ring_answers b r req room status payload h0 h1 e =
    rw (eq-true (length req) sock_recv_bytes h0, ltb-true recv_hdr room h1)
      (ap (λ o. (after_ring o (turned b req) req room, (asked b r req room).1)) e)

is_replay_same :
    (seq handle max_len : ℕ)
    → seq ≢ 0
    → is_replay (record { seq = seq; handle = handle; max_len = max_len }) seq handle max_len ≡ true
unfolding is_replay
is_replay_same seq handle max_len n = rw (
  eq-false seq 0 n,
  eq-true seq seq refl,
  eq-true handle handle refl,
  eq-true max_len max_len refl,
)

-- A receive that the ring answers, sent again at once, with no pump in between, with its sequence
-- number, handle and length and the same room: the second answer has the status and the bytes of the
-- first, and the ring stands where the first left it. The sequence number is not the 0 of a host that
-- sends none.
pub handle_sock_recv_replays :
    (b : Bridge) (r : RxRing) (req : List ℕ) (room : ℕ) (status : Resp) (payload : List ℕ)
    → length req ≡ sock_recv_bytes
    → recv_hdr < room
    → b.req_seq ≢ 0
    → answer_ring (asked b r req room).0 (get_le16 req 2) ≡ some (status, payload)
    → ((handle_sock_recv sock_recv_ring b r req room).0.0 ≡ status)
      × ((handle_sock_recv sock_recv_ring b r req room).0.1 ≡ payload)
      × ((handle_sock_recv sock_recv_ring
            (handle_sock_recv sock_recv_ring b r req room).0.2
            (handle_sock_recv sock_recv_ring b r req room).1
            req
            room).0.0
          ≡ status)
      × ((handle_sock_recv sock_recv_ring
            (handle_sock_recv sock_recv_ring b r req room).0.2
            (handle_sock_recv sock_recv_ring b r req room).1
            req
            room).0.1
          ≡ payload)
      × ((handle_sock_recv sock_recv_ring
            (handle_sock_recv sock_recv_ring b r req room).0.2
            (handle_sock_recv sock_recv_ring b r req room).1
            req
            room).1
          ≡ (handle_sock_recv sock_recv_ring b r req room).1)
handle_sock_recv_replays b r req room status payload h0 h1 n e =
    let first = ring_answers b r req room status payload h0 h1 e in
    let r1 = (asked b r req room).1 in
    let same : asked (turned b req) r1 req room ≡ asked b r req room =
      ap (λ k. sock_recv_ring r1 (get_le16 req 0) (recv_room room (get_le16 req 2) % 2 ^ 16) k)
        (is_replay_same b.req_seq (get_le16 req 0) (get_le16 req 2) n)
      ∙ sock_recv_ring_replay r (get_le16 req 0) (recv_room room (get_le16 req 2) % 2 ^ 16)
          (is_replay b.last_recv b.req_seq (get_le16 req 0) (get_le16 req 2)) in
    let second =
      ring_answers (turned b req) r1 req room status payload h0 h1
        (ap (λ x. answer_ring x.0 (get_le16 req 2)) same ∙ e) in
    rw (first, second) (refl, refl, refl, refl, ap (λ x. x.1) same)

-- The ring's answer with a byte or more is the only one that serves bytes.
served_some :
    (o : Served) (x : ℕ) (xs : List ℕ) → served_bytes o ≡ x ∷ xs → o ≡ SockRing.bytes (x ∷ xs)
served_some SockRing.not_armed x xs e = cc e
served_some (SockRing.drained st) x xs e = cc e
served_some (SockRing.bytes bs) x xs e = ap SockRing.bytes e

-- A longer piece of a longer stream, from the same place, starts with the shorter one.
slice-longer :
    (stream stored : List ℕ) (at n m : ℕ)
    → at + n ≤ length stream
    → n ≤ m
    → slice (stream ++ stored) at m
      ≡ slice stream at n ++ slice (drop at (stream ++ stored)) n (m - n)
slice-longer stream stored at n m inside le =
    let e : n + (m - n) ≡ m = omega arith in
    ap (λ k. take k (drop at (stream ++ stored))) (sym e)
    ∙ take-append_take n (m - n) (drop at (stream ++ stored))
    ∙ ap (λ t. t ++ slice (drop at (stream ++ stored)) n (m - n))
        (slice-append_left stream stored at n inside)

-- The ring's answers to a call and to its replay behind any number of pumps.
module _ {Socket : Type 0} (recv : Socket → ℕ → Recv × Socket) (bounded : Bounded recv) where
  ring_resends :
      (r : RxRing) (s : Socket) (stream : List ℕ) (from handle room n : ℕ) (replay : Bool) (x : ℕ)
      (xs : List ℕ)
      → Carries r stream from
      → r.fd_plus1 ≡ handle
      → handle ≢ 0
      → (sock_recv_ring r handle room replay).0 ≡ SockRing.bytes (x ∷ xs)
      → let r2 = (pumps recv n (sock_recv_ring r handle room replay).1 s).0 in
        let all = stream ++ (pumps recv n (sock_recv_ring r handle room replay).1 s).2 in
        (more : List ℕ) × ((sock_recv_ring r2 handle room true).0 ≡ SockRing.bytes (x ∷ xs ++ more))
        × ((m : ℕ) × (x ∷ xs ++ more ≡ slice all (start r from replay) m))
  ring_resends r s stream from handle room n replay x xs v a z e =
      let at = start r from replay in
      let q1 = sock_recv_ring-Serves r stream from room replay v handle (a, z) in
      let out = sock_recv_ring r handle room replay in
      let p = pumps-Pumped recv bounded n out.1 s stream at q1.after in
      let stored = (pumps recv n out.1 s).2 in
      let r2 = (pumps recv n out.1 s).0 in
      let q2 =
        sock_recv_ring-Serves r2 (stream ++ stored) at room true p.after handle
          (p.same_fd ∙ q1.same_fd ∙ a, z) in
      let u1 = out.1.uncommitted in
      let u2 = (sock_recv_ring r2 handle room true).1.uncommitted in
      let more = slice (drop at (stream ++ stored)) u1 (u2 - u1) in
      let inside : at + u1 ≤ length stream = q1.after.served_in in
      let le : u1 ≤ u2 = omega (arith, q1.count, q2.count, length-append stream stored) in
      let first : slice stream at u1 ≡ x ∷ xs = sym q1.data_served ∙ ap served_bytes e in
      let longer : slice (stream ++ stored) at u2 ≡ x ∷ xs ++ more =
        slice-longer stream stored at u1 u2 inside le ∙ ap (λ t. t ++ more) first in
      (
        more,
        served_some (sock_recv_ring r2 handle room true).0 x (xs ++ more) (q2.data_served ∙ longer),
        (u2, sym longer),
      )

  -- A receive whose reply carries a byte or more of the ring, sent again with its sequence number,
  -- handle and length and the same room, after any number of pumps: the second reply is OK and carries
  -- the data of the first, and behind them only bytes that follow them in the stream. The ring carries
  -- `stream` and is armed for the handle; the sequence number is not the 0 of a host that sends none.
  pub handle_sock_recv_resends :
      (b : Bridge) (r : RxRing) (s : Socket) (stream : List ℕ) (from : ℕ) (req : List ℕ)
      (room n x : ℕ) (xs : List ℕ)
      → length req ≡ sock_recv_bytes
      → recv_hdr < room
      → b.req_seq ≢ 0
      → Carries r stream from
      → r.fd_plus1 ≡ get_le16 req 0
      → get_le16 req 0 ≢ 0
      → (asked b r req room).0 ≡ SockRing.bytes (x ∷ xs)
      → let ((status, payload, b1), r1) = handle_sock_recv sock_recv_ring b r req room in
        let (r2, s2, stored) = pumps recv n r1 s in
        let replay = is_replay b.last_recv b.req_seq (get_le16 req 0) (get_le16 req 2) in
        let ((status', payload', b2), r3) = handle_sock_recv sock_recv_ring b1 r2 req room in
        (status ≡ ok)
        × (payload ≡ recv_reply (x ∷ xs))
        × ((more : List ℕ) × (status' ≡ ok)
            × (payload' ≡ recv_reply (x ∷ xs ++ more))
            × ((m : ℕ) × (x ∷ xs ++ more ≡ slice (stream ++ stored) (start r from replay) m)))
  unfolding answer_ring
  handle_sock_recv_resends b r s stream from req room n x xs h0 h1 nz v a z e =
      let handle = get_le16 req 0 in
      let max_len = get_le16 req 2 in
      let k = recv_room room max_len % 2 ^ 16 in
      let out = asked b r req room in
      let r2 = (pumps recv n out.1 s).0 in
      let first =
        ring_answers b r req room ok (recv_reply (x ∷ xs)) h0 h1
          (ap (λ o. answer_ring o max_len) e) in
      let (more, again, (m, piece)) =
        ring_resends r s stream from handle k n (is_replay b.last_recv b.req_seq handle max_len) x
          xs v a z e in
      let same : asked (turned b req) r2 req room ≡ sock_recv_ring r2 handle k true =
        ap (λ t. sock_recv_ring r2 handle k t) (is_replay_same b.req_seq handle max_len nz) in
      let second =
        ring_answers (turned b req) r2 req room ok (recv_reply (x ∷ xs ++ more)) h0 h1
          (ap (λ o. answer_ring o.0 max_len) same ∙ ap (λ o. answer_ring o max_len) again) in
      rw (first, second) (refl, refl, (more, refl, refl, (m, piece)))
