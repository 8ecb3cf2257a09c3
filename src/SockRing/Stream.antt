-- ===== src/SockRing/Stream.antt =====
-- What the prefetch ring delivers: one call of each operation, then any sequence of calls.
use cc3501e_bridge_firmware.Base.{
  ℕ, ◌+◌, ◌-◌, ◌%◌, ◌^◌, ◌≤◌, min, ◌≡◌, ◌≢◌, refl, ap, ◌∙◌, sym, Bool, true, false, List, [],
  length, slice, if◌then◌else◌, ◌==◌, Bool-cases, inl, inr, arith,
}
use cc3501e_bridge_firmware.SockRing.{
  ring_bytes, Cursor, sock_recv_commit, RxRing, copy_out, Served, drained, bytes,
  sock_recv_ring_drained_status, sock_recv_ring, Recv, received,
}
use cc3501e_bridge_firmware.SockRing.Memory.{Holds, copy_out-slice}

-- The ring carries `stream`, all the bytes stored since it was armed, and has retired the first
-- `from` of them.
pub record Carries (r : RxRing) (stream : List ℕ) (from : ℕ) : Type 0 where
  pub head_at : r.head ≡ length stream % 2 ^ 32
  pub tail_at : r.tail ≡ from % 2 ^ 32
  pub served_in : from + r.uncommitted ≤ length stream
  pub fits : length stream ≤ from + ring_bytes
  pub holds : Holds r.buf stream from

-- Where a call serves from: a replay starts where the call before it did.
abbrev pub start : RxRing → ℕ → Bool → ℕ
start r from replay = if replay then from else from + r.uncommitted

abbrev pub served_bytes : Served → List ℕ
served_bytes (bytes bs) = bs
served_bytes _ = []

abbrev pub received_length : Recv → ℕ
received_length (received bs) = length bs
received_length _ = 0

abbrev cursor : RxRing → Cursor
cursor r = record { tail = r.tail; uncommitted = r.uncommitted }

-- The 32-bit cursor arithmetic is that of the unbounded positions.
commit_exact :
    (r : RxRing) (stream : List ℕ) (from room : ℕ) (replay : Bool)
    → Carries r stream from
    → let (n, c) = sock_recv_commit (cursor r) r.head replay room in
      (n ≡ min (length stream - start r from replay) room)
      × (c.tail ≡ start r from replay % 2 ^ 32)
      × (c.uncommitted ≡ n)
unfolding sock_recv_commit
commit_exact r stream from room true v = ground arith
commit_exact r stream from room false v = ground arith

Holds-later :
    (buf : ℕ → ℕ) (stream : List ℕ) (from at : ℕ)
    → from ≤ at
    → Holds buf stream from
    → Holds buf stream at
Holds-later buf stream from at le h i ge lt = h i (omega arith) lt

-- One call of cc3501e_hw_sock_recv_ring() for the armed handle.
pub record Serves (r : RxRing) (stream : List ℕ) (from room : ℕ) (replay : Bool)
    (out : Served × RxRing) : Type 0 where
  pub count : out.1.uncommitted ≡ min (length stream - start r from replay) room
  pub data_served : served_bytes out.0 ≡ slice stream (start r from replay) out.1.uncommitted
  pub after : Carries out.1 stream (start r from replay)
  pub same_fd : out.1.fd_plus1 ≡ r.fd_plus1

module _ (r : RxRing) (stream : List ℕ) (from room : ℕ) (replay : Bool)
    (v : Carries r stream from) where
  n : ℕ
  n = (sock_recv_commit (cursor r) r.head replay room).0

  c : Cursor
  c = (sock_recv_commit (cursor r) r.head replay room).1

  at : ℕ
  at = start r from replay

  start_le : (from ≤ at) × (at ≤ length stream)
  unfolding at
  start_le = ground (arith, v.served_in)

  next : RxRing
  next = record r { tail = c.tail; uncommitted = c.uncommitted }

  next-Carries : Carries next stream at
  unfolding next c at
  next-Carries = record {
    head_at = v.head_at;
    tail_at = (commit_exact r stream from room replay v).1;
    served_in = omega (arith, commit_exact r stream from room replay v, start_le);
    fits = omega (arith, v.fits, start_le);
    holds = Holds-later r.buf stream from (start r from replay) start_le.0 v.holds;
  }

  copied : copy_out r.buf c.tail n ≡ slice stream at n
  unfolding c n at
  copied =
      copy_out-slice r.buf stream from (start r from replay) _ _ v.holds start_le.0
        (omega (arith, commit_exact r stream from room replay v, start_le))
        (omega (arith, commit_exact r stream from room replay v))
        (omega (arith, commit_exact r stream from room replay v, v.fits, start_le))

  abbrev Armed : ℕ → Type 0
  Armed handle = (r.fd_plus1 ≡ handle) × (handle ≢ 0)

  when_empty :
      (handle : ℕ)
      → Armed handle
      → n ≡ 0
      → sock_recv_ring r handle room replay
        ≡ (drained (sock_recv_ring_drained_status r.peer_closed r.peer_error), next)
  unfolding sock_recv_ring n c next
  when_empty handle a z = ground arith

  when_some :
      (handle : ℕ)
      → Armed handle
      → n ≢ 0
      → sock_recv_ring r handle room replay ≡ (bytes (copy_out r.buf c.tail n), next)
  unfolding sock_recv_ring n c next
  when_some handle a z = ground arith

  count_lem : next.uncommitted ≡ min (length stream - at) room
  unfolding next c at
  count_lem = omega (arith, commit_exact r stream from room replay v)

  n-eq : n ≡ next.uncommitted
  unfolding n c next
  n-eq = sym (commit_exact r stream from room replay v).2

  -- For the handle that the ring is armed for, a call serves as many bytes as are there and fit,
  -- from where the last collected byte ended (a replay: from where the call before it began), and
  -- they are the bytes of the stream at that place.
  pub sock_recv_ring-Serves :
      (handle : ℕ)
      → Armed handle
      → Serves r stream from room replay (sock_recv_ring r handle room replay)
  unfolding at next
  sock_recv_ring-Serves handle a = elim (Bool-cases (n == 0)) [
    | inl z ↦
        let none_left : n ≡ 0 = ground arith in
        rw (when_empty handle a none_left) (record {
          count = count_lem;
          data_served =
              let k : next.uncommitted ≡ 0 = omega (arith, n-eq) in
              ap (λ t. slice stream (start r from replay) t) (sym k);
          after = next-Carries;
          same_fd = refl;
        })
    | inr some_left ↦ rw (when_some handle a (ground arith)) (record {
      count = count_lem;
      data_served = copied ∙ ap (λ t. slice stream (start r from replay) t) n-eq;
      after = next-Carries;
      same_fd = refl;
    })
  ]

-- lwip_recv() gives at most as many bytes as it has room for.
abbrev pub Bounded {ℓ} : {Socket : Type ℓ} → (Socket → ℕ → Recv × Socket) → Type ℓ
Bounded {Socket} recv = (s : Socket) (room : ℕ) → received_length (recv s room).0 ≤ room
