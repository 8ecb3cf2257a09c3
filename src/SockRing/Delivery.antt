-- ===== src/SockRing/Delivery.antt =====
-- Any sequence of pumps and receive calls, with replies that may be lost on the wire: the host
-- collects the bytes of the stream, each once and in order.
use cc3501e_bridge_firmware.Base.{
  ℕ, ◌+◌, ◌-◌, ◌≤◌, ◌<◌, ◌≡◌, ◌≢◌, refl, ap, ◌∙◌, sym, Bool, true, false, List, [], ◌∷◌, ◌++◌,
  length, slice, take, if◌then◌else◌, take-append_take, slice-append_left, length-take,
  length-slice, ap₂, take_all, arith,
}
use cc3501e_bridge_firmware.SockRing.{
  RxRing, Drained, drained, sock_recv_ring, Recv, sock_pump, sock_prefetch,
}
use cc3501e_bridge_firmware.SockRing.Stream.{
  Carries, Bounded, served_bytes, start, sock_recv_ring-Serves,
}
use cc3501e_bridge_firmware.SockRing.Pump.{sock_pump-Pumped}

-- The task pumps, or the host asks for `room` bytes, and its reply arrives or is lost.
pub data Op : Type 0 where
  pump : Op
  ask : ℕ → Bool → Op

-- `host` is what the host has collected and `stored` all that pumps have put into the ring.
-- A host whose reply was lost asks again for the same handle with the same sequence number, which
-- is what makes the call a replay: `lost` is that state.
pub record Link (Socket : Type 0) : Type 0 where
  pub ring : RxRing
  pub socket : Socket
  pub lost : Bool
  pub host : List ℕ
  pub stored : List ℕ

module _ {Socket : Type 0} (recv : Socket → ℕ → Recv × Socket) where
  unfoldable pub step : ℕ → Link Socket → Op → Link Socket
  step handle l pump =
      let (r, s, new) = sock_pump recv l.ring l.socket in
      record l { ring = r; socket = s; stored = l.stored ++ new }
  step handle l (ask room arrives) =
      let (served, r) = sock_recv_ring l.ring handle room l.lost in
      record l {
        ring = r;
        lost = if arrives then false else true;
        host = if arrives then l.host ++ served_bytes served else l.host;
      }

  unfoldable pub run : ℕ → Link Socket → List Op → Link Socket
  run handle l [] = l
  run handle l (op ∷ ops) = run handle (step handle l op) ops

  -- The ring just after cc3501e_hw_sock_prefetch() armed it for `handle`.
  abbrev pub fresh : RxRing → ℕ → Socket → Link Socket
  fresh r handle s = record {
    ring = sock_prefetch r handle true;
    socket = s;
    lost = false;
    host = [];
    stored = [];
  }

-- What holds between two steps: the host stands where the next call will serve from.
pub record InStep {Socket : Type 0} (handle : ℕ) (l : Link Socket) (from : ℕ) : Type 0 where
  pub carried : Carries l.ring l.stored from
  pub armed_for : l.ring.fd_plus1 ≡ handle
  pub collected : l.host ≡ take (start l.ring from l.lost) l.stored

module _ {Socket : Type 0} (recv : Socket → ℕ → Recv × Socket) (bounded : Bounded recv) (handle : ℕ)
    (real : handle ≢ 0) where
  pump-InStep :
      (l : Link Socket) (from : ℕ)
      → InStep handle l from
      → InStep handle (step recv handle l pump) from
  unfolding step
  pump-InStep l from v =
      let p = sock_pump-Pumped recv bounded l.ring l.socket l.stored from v.carried in
      let (r, s, new) = sock_pump recv l.ring l.socket in
      let at : start r from l.lost ≡ start l.ring from l.lost =
        ap (λ k. if l.lost then from else from + k) p.same_uncommitted in
      let inside : 0 + start l.ring from l.lost ≤ length l.stored =
        ground (arith, v.carried.served_in) in
      record {
        carried = p.after;
        armed_for = p.same_fd ∙ v.armed_for;
        collected =
            v.collected
            ∙ sym (slice-append_left l.stored new 0 (start l.ring from l.lost) inside)
            ∙ ap (λ k. take k (l.stored ++ new)) (sym at);
      }

  ask-InStep :
      (l : Link Socket) (from room : ℕ) (arrives : Bool)
      → InStep handle l from
      → InStep handle (step recv handle l (ask room arrives)) (start l.ring from l.lost)
  unfolding step
  ask-InStep l from room true v =
      let q =
        sock_recv_ring-Serves l.ring l.stored from room l.lost v.carried handle
          (v.armed_for, real) in
      let n = (sock_recv_ring l.ring handle room l.lost).1.uncommitted in
      record {
        carried = q.after;
        armed_for = q.same_fd ∙ v.armed_for;
        collected =
            ap₂ ◌++◌ v.collected q.data_served
            ∙ sym (take-append_take (start l.ring from l.lost) n l.stored);
      }
  ask-InStep l from room false v =
      let q =
        sock_recv_ring-Serves l.ring l.stored from room l.lost v.carried handle
          (v.armed_for, real) in
      record { carried = q.after; armed_for = q.same_fd ∙ v.armed_for; collected = v.collected }

  run-InStep :
      (ops : List Op) (l : Link Socket) (from : ℕ)
      → InStep handle l from
      → (from' : ℕ) × InStep handle (run recv handle l ops) from'
  unfolding run
  run-InStep [] l from v = (from, v)
  run-InStep (pump ∷ ops) l from v =
      run-InStep ops (step recv handle l pump) from (pump-InStep l from v)
  run-InStep (ask room arrives ∷ ops) l from v =
      run-InStep ops (step recv handle l (ask room arrives)) (start l.ring from l.lost)
        (ask-InStep l from room arrives v)

  prefetch_free :
      (r : RxRing)
      → r.fd_plus1 ≡ 0
      → sock_prefetch r handle true ≡ record r {
        head = 0;
        tail = 0;
        peer_closed = false;
        peer_error = false;
        uncommitted = 0;
        fd_plus1 = handle;
      }
  unfolding sock_prefetch
  prefetch_free r free = ground arith

  fresh-InStep :
      (r : RxRing) (s : Socket) → r.fd_plus1 ≡ 0 → InStep handle (fresh recv r handle s) 0
  fresh-InStep r s free = rw (prefetch_free r free) (record {
    carried = record {
      head_at = refl;
      tail_at = refl;
      served_in = omega arith;
      fits = omega arith;
      holds = λ i a b. absurd (omega arith);
    };
    armed_for = refl;
    collected = refl;
  })

  position :
      (l : Link Socket) (from : ℕ) → InStep handle l from → length l.host ≡ start l.ring from l.lost
  position l from v =
      let e : length l.host ≡ length (take (start l.ring from l.lost) l.stored) =
        ap length v.collected in
      ground (arith, e, length-take (start l.ring from l.lost) l.stored, v.carried.served_in)

  -- The state after `ops`, from a ring that was free and has been armed for the handle.
  abbrev pub reached : RxRing → Socket → List Op → Link Socket
  reached r s ops = run recv handle (fresh recv r handle s) ops

  reached-InStep :
      (r : RxRing) (s : Socket) (ops : List Op)
      → r.fd_plus1 ≡ 0
      → (from : ℕ) × InStep handle (reached r s ops) from
  reached-InStep r s ops free = run-InStep ops (fresh recv r handle s) 0 (fresh-InStep r s free)

  -- From a free ring, whatever the order of pumps and receive calls and whichever replies are
  -- lost, what the host has collected is a prefix of what the socket gave: no byte is lost, doubled
  -- or moved. (A host whose reply was lost asks again with the same handle and sequence number.)
  pub host_prefix :
      (r : RxRing) (s : Socket) (ops : List Op)
      → r.fd_plus1 ≡ 0
      → (reached r s ops).host ≡ take (length (reached r s ops).host) (reached r s ops).stored
  host_prefix r s ops free =
      let (from, v) = reached-InStep r s ops free in
      v.collected
      ∙ ap (λ k. take k (reached r s ops).stored) (sym (position (reached r s ops) from v))

  all_served :
      (l : Link Socket) (from n : ℕ)
      → InStep handle l from
      → n ≡ length l.stored - start l.ring from l.lost
      → l.host ++ slice l.stored (start l.ring from l.lost) n ≡ l.stored
  all_served l from n v e = rw v.collected (
      sym (take-append_take (start l.ring from l.lost) n l.stored)
      ∙ take_all _ l.stored (omega arith))

  -- The host catches up: a reply that arrives and that had room for all that is stored and not yet
  -- collected leaves nothing missing, also after any lost replies.
  pub host_catches_up :
      (r : RxRing) (s : Socket) (ops : List Op) (room : ℕ)
      → r.fd_plus1 ≡ 0
      → length (reached r s ops).stored ≤ length (reached r s ops).host + room
      → (step recv handle (reached r s ops) (ask room true)).host ≡ (reached r s ops).stored
  unfolding step
  host_catches_up r s ops room free enough =
      let (from, v) = reached-InStep r s ops free in
      let l = reached r s ops in
      let q =
        sock_recv_ring-Serves l.ring l.stored from room l.lost v.carried handle
          (v.armed_for, real) in
      ap (λ t. l.host ++ t) q.data_served
      ∙ all_served l from _ v (omega (arith, position l from v, q.count))

  -- A call with room answers that the ring is drained (no data yet, end of the stream, or reset)
  -- only when the host has all its bytes: neither of the last two cuts the stream short.
  pub drained_after_all :
      (r : RxRing) (s : Socket) (ops : List Op) (room : ℕ) (d : Drained)
      → r.fd_plus1 ≡ 0
      → 0 < room
      → (sock_recv_ring (reached r s ops).ring handle room (reached r s ops).lost).0 ≡ drained d
      → (reached r s ops).host ≡ (reached r s ops).stored
  drained_after_all r s ops room d free some_room e =
      let (from, v) = reached-InStep r s ops free in
      let l = reached r s ops in
      let q =
        sock_recv_ring-Serves l.ring l.stored from room l.lost v.carried handle
          (v.armed_for, real) in
      let n = (sock_recv_ring l.ring handle room l.lost).1.uncommitted in
      let none_served : slice l.stored (start l.ring from l.lost) n ≡ [] =
        sym q.data_served ∙ ap served_bytes e in
      let inside : start l.ring from l.lost ≤ length l.stored =
        ground (arith, v.carried.served_in) in
      let zero_served : n ≡ 0 =
        sym (length-slice l.stored (start l.ring from l.lost) n (omega (arith, q.count, inside)))
        ∙ ap length none_served in
      v.collected ∙ take_all _ l.stored (omega (arith, q.count, inside))
