-- ===== src/SockRing/Pump.antt =====
-- cc3501e_hw_sock_pump(): what the task side stores.
use cc3501e_bridge_firmware.Base.{
  ℕ, zero, suc, ◌+◌, ◌-◌, ◌%◌, ◌^◌, ◌≤◌, ◌<◌, ◌≡◌, refl, subst, ◌∙◌, sym, true, ◌||◌, List, [], ◌∷◌,
  ◌++◌, append-nil, append_assoc, length, ◌==◌, length-append, Bool-cases, inl, inr, arith,
}
use cc3501e_bridge_firmware.SockRing.{
  ring_bytes, RxRing, store, Recv, received, would_block, failed, on_recv, pump_room, pump_loop,
  sock_pump, pump_passes,
}
use cc3501e_bridge_firmware.SockRing.Memory.{Holds, store-Holds}
use cc3501e_bridge_firmware.SockRing.Stream.{Carries, Bounded, received_length}

-- What a pump keeps: the stream grows by what it stored, and nothing is retired or served.
pub record Pumped (r : RxRing) (stream : List ℕ) (from : ℕ) (r' : RxRing) (stored : List ℕ)
    : Type 0 where
  pub after : Carries r' (stream ++ stored) from
  pub same_uncommitted : r'.uncommitted ≡ r.uncommitted
  pub same_fd : r'.fd_plus1 ≡ r.fd_plus1

nothing_stored :
    (r r' : RxRing) (stream : List ℕ) (from : ℕ)
    → Carries r' stream from
    → r'.uncommitted ≡ r.uncommitted
    → r'.fd_plus1 ≡ r.fd_plus1
    → Pumped r stream from r' []
nothing_stored r r' stream from v d e = record {
  after = subst (λ t. Carries r' t from) (sym (append-nil stream)) v;
  same_uncommitted = d;
  same_fd = e;
}

-- The room keeps within the array, and off the bytes that are not retired.
pump_room-le :
    (r : RxRing) (stream : List ℕ) (from : ℕ)
    → Carries r stream from
    → (length stream % ring_bytes + pump_room r ≤ ring_bytes)
      × (length stream + pump_room r ≤ from + ring_bytes)
unfolding pump_room
pump_room-le r stream from v =
    let used : (r.head + 2 ^ 32 - r.tail) % 2 ^ 32 ≡ length stream - from = omega arith in
    let idx : r.head % ring_bytes ≡ length stream % ring_bytes = omega arith in
    let below : length stream % ring_bytes < ring_bytes = omega arith in
    (rw (used, idx) (ground arith), rw (used, idx) (ground arith))

on_recv-Pumped :
    (r : RxRing) (stream : List ℕ) (from : ℕ) (outcome : Recv)
    → Carries r stream from
    → received_length outcome ≤ pump_room r
    → let (r', stored, more) = on_recv r (pump_room r) outcome in Pumped r stream from r' stored
unfolding on_recv
on_recv-Pumped r stream from (received []) v le = nothing_stored r _ stream from (same v) refl refl
  where
    same : Carries r stream from → Carries (record r { peer_closed = true }) stream from
    same w = record {
      head_at = w.head_at;
      tail_at = w.tail_at;
      served_in = w.served_in;
      fits = w.fits;
      holds = w.holds;
    }
on_recv-Pumped r stream from (received (b ∷ bs)) v le = record {
  after = record {
    head_at = omega (arith, length-append stream (b ∷ bs));
    tail_at = v.tail_at;
    served_in = omega (arith, length-append stream (b ∷ bs));
    fits = omega (arith, length-append stream (b ∷ bs), pump_room-le r stream from v);
    holds =
        let e : r.head % ring_bytes ≡ length stream % ring_bytes = omega arith in
        subst (λ i. Holds (store r.buf i (b ∷ bs)) (stream ++ b ∷ bs) from) (sym e)
          (store-Holds r.buf stream (b ∷ bs) from (omega arith)
            (omega (arith, pump_room-le r stream from v))
            (omega (arith, pump_room-le r stream from v)) v.holds);
  };
  same_uncommitted = refl;
  same_fd = refl;
}
on_recv-Pumped r stream from would_block v le = nothing_stored r r stream from v refl refl
on_recv-Pumped r stream from failed v le = nothing_stored r _ stream from (same v) refl refl
  where
    same : Carries r stream from → Carries (record r { peer_error = true }) stream from
    same w = record {
      head_at = w.head_at;
      tail_at = w.tail_at;
      served_in = w.served_in;
      fits = w.fits;
      holds = w.holds;
    }

Pumped-trans :
    (r r' r'' : RxRing) (stream stored rest : List ℕ) (from : ℕ)
    → Pumped r stream from r' stored
    → Pumped r' (stream ++ stored) from r'' rest
    → Pumped r stream from r'' (stored ++ rest)
Pumped-trans r r' r'' stream stored rest from p q = record {
  after = subst (λ t. Carries r'' t from) (append_assoc stream stored rest) q.after;
  same_uncommitted = q.same_uncommitted ∙ p.same_uncommitted;
  same_fd = q.same_fd ∙ p.same_fd;
}

module _ {Socket : Type 0} (recv : Socket → ℕ → Recv × Socket) where
  -- A number of pumps, one after the other, and all that they stored.
  abbrev pub pumps : ℕ → RxRing → Socket → RxRing × Socket × List ℕ
  pumps zero r s = (r, s, [])
  pumps (suc n) r s =
      let (r1, s1, stored) = sock_pump recv r s in
      let (r2, s2, rest) = pumps n r1 s1 in (r2, s2, stored ++ rest)

module _ {Socket : Type 0} (recv : Socket → ℕ → Recv × Socket) (bounded : Bounded recv) where
  pump_loop-Pumped :
      (passes : ℕ) (r : RxRing) (s : Socket) (stream : List ℕ) (from : ℕ)
      → Carries r stream from
      → let (r', s', stored) = pump_loop recv passes r s in Pumped r stream from r' stored
  unfolding pump_loop
  pump_loop-Pumped zero r s stream from v = nothing_stored r r stream from v refl refl
  pump_loop-Pumped (suc passes) r s stream from v =
      let out = recv s (pump_room r) in
      let now = on_recv r (pump_room r) out.0 in
      let p : Pumped r stream from now.0 now.1 =
        on_recv-Pumped r stream from out.0 v (bounded s (pump_room r)) in
      elim (Bool-cases (pump_room r == 0)) [
        | inl full ↦ rw full (nothing_stored r r stream from v refl refl)
        | inr room ↦ elim (Bool-cases now.2) [
          | inl more ↦
              rw (room, more)
                (Pumped-trans r now.0 _ stream now.1 _ from p
                  (pump_loop-Pumped passes now.0 out.1 (stream ++ now.1) from p.after))
          | inr done ↦ rw (room, done) p
        ]
      ]

  -- A pump only appends: the ring then carries the stream with the stored bytes behind it, so no
  -- byte that was not yet retired is overwritten, and the cursors of the reader do not move.
  pub sock_pump-Pumped :
      (r : RxRing) (s : Socket) (stream : List ℕ) (from : ℕ)
      → Carries r stream from
      → let (r', s', stored) = sock_pump recv r s in Pumped r stream from r' stored
  unfolding sock_pump
  sock_pump-Pumped r s stream from v =
      elim (Bool-cases (r.fd_plus1 == 0 || (r.peer_closed || r.peer_error))) [
        | inl idle ↦ rw idle (nothing_stored r r stream from v refl refl)
        | inr live ↦ rw live (pump_loop-Pumped pump_passes r s stream from v)
      ]

  pub pumps-Pumped :
      (n : ℕ) (r : RxRing) (s : Socket) (stream : List ℕ) (from : ℕ)
      → Carries r stream from
      → let (r', s', stored) = pumps recv n r s in Pumped r stream from r' stored
  pumps-Pumped zero r s stream from v = nothing_stored r r stream from v refl refl
  pumps-Pumped (suc n) r s stream from v =
      let p = sock_pump-Pumped r s stream from v in
      let (r1, s1, stored) = sock_pump recv r s in
      let rest = pumps recv n r1 s1 in
      Pumped-trans r r1 rest.0 stream stored rest.2 from p
        (pumps-Pumped n r1 s1 (stream ++ stored) from p.after)
