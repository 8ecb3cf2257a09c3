-- ===== src/SockRing/Replay.antt =====
-- A call of cc3501e_hw_sock_recv_ring() that repeats the one before it.
use cc3501e_bridge_firmware.Base.{
  ℕ, ◌≡◌, refl, ap, sym, ◌∙◌, Bool, true, false, not, ◌||◌, ◌==◌, Bool-cases, inl, inr,
}
use cc3501e_bridge_firmware.SockRing.{
  Cursor, RxRing, not_armed, drained, bytes, copy_out, sock_recv_commit, sock_recv_ring,
  sock_recv_ring_drained_status,
}

abbrev picked : RxRing → ℕ → Bool → ℕ × Cursor
picked r room replay =
    sock_recv_commit (record { tail = r.tail; uncommitted = r.uncommitted }) r.head replay room

abbrev moved : RxRing → ℕ → Bool → RxRing
moved r room replay = record r {
  tail = (picked r room replay).1.tail;
  uncommitted = (picked r room replay).1.uncommitted;
}

abbrev refuses : RxRing → ℕ → Bool
refuses r handle = not (r.fd_plus1 == handle) || handle == 0

when_refused :
    (r : RxRing) (handle room : ℕ) (replay : Bool)
    → refuses r handle ≡ true
    → sock_recv_ring r handle room replay ≡ (not_armed, r)
unfolding sock_recv_ring
when_refused r handle room replay e = rw e

when_drained :
    (r : RxRing) (handle room : ℕ) (replay : Bool)
    → refuses r handle ≡ false
    → ((picked r room replay).0 == 0) ≡ true
    → sock_recv_ring r handle room replay
      ≡ (drained (sock_recv_ring_drained_status r.peer_closed r.peer_error), moved r room replay)
unfolding sock_recv_ring
when_drained r handle room replay e z = rw (e, z)

when_served :
    (r : RxRing) (handle room : ℕ) (replay : Bool)
    → refuses r handle ≡ false
    → ((picked r room replay).0 == 0) ≡ false
    → sock_recv_ring r handle room replay ≡ (
      bytes (copy_out r.buf (picked r room replay).1.tail (picked r room replay).0),
      moved r room replay,
    )
unfolding sock_recv_ring
when_served r handle room replay e z = rw (e, z)

picked_again :
    (r : RxRing) (room : ℕ) (replay : Bool)
    → picked (moved r room replay) room true ≡ picked r room replay
unfolding sock_recv_commit
picked_again r room replay = refl

-- A replay answers as the call before it did, byte for byte, and leaves the ring as that call did.
pub sock_recv_ring_replay :
    (r : RxRing) (handle room : ℕ) (replay : Bool)
    → sock_recv_ring (sock_recv_ring r handle room replay).1 handle room true
      ≡ sock_recv_ring r handle room replay
sock_recv_ring_replay r handle room replay =
    let again = picked_again r room replay in
    let r1 = moved r room replay in
    elim (Bool-cases (refuses r handle)) [
      | inl other ↦
          let e = when_refused r handle room replay other in
          ap (λ x. sock_recv_ring x.1 handle room true) e
          ∙ when_refused r handle room true other
          ∙ sym e
      | inr own ↦ elim (Bool-cases ((picked r room replay).0 == 0)) [
        | inl z ↦
            let e = when_drained r handle room replay own z in
            ap (λ x. sock_recv_ring x.1 handle room true) e
            ∙ when_drained r1 handle room true own (ap (λ x. x.0 == 0) again ∙ z)
            ∙ ap
                (λ x. (
                  drained (sock_recv_ring_drained_status r.peer_closed r.peer_error),
                  record r { tail = x.1.tail; uncommitted = x.1.uncommitted },
                ))
                again
            ∙ sym e
        | inr z ↦
            let e = when_served r handle room replay own z in
            ap (λ x. sock_recv_ring x.1 handle room true) e
            ∙ when_served r1 handle room true own (ap (λ x. x.0 == 0) again ∙ z)
            ∙ ap
                (λ x. (
                  bytes (copy_out r.buf x.1.tail x.0),
                  record r { tail = x.1.tail; uncommitted = x.1.uncommitted },
                ))
                again
            ∙ sym e
      ]
    ]
