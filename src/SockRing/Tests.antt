-- ===== src/SockRing/Tests.antt =====
-- The prefetch ring over a socket that gives its bytes as asked.
use cc3501e_bridge_firmware.Base.{
  ℕ, ◌+◌, ◌≤◌, ◌≡◌, ◌≢◌, refl, false, true, List, [], ◌∷◌, length, take, arith,
}
use cc3501e_bridge_firmware.SockRing.{
  RxRing, again, drained, sock_recv_ring, sock_pump, sock_prefetch, sock_prefetch_should_arm,
  pump_loop, pump_room, on_recv, sock_recv_commit, sock_recv_ring_drained_status,
}
use cc3501e_bridge_firmware.SockRing.Stream.{Serves, sock_recv_ring-Serves}
use cc3501e_bridge_firmware.Fixture.{recv, recv-Bounded, three_bytes, three_bytes-Carries}
use cc3501e_bridge_firmware.SockRing.Pump.{Pumped, sock_pump-Pumped}
use cc3501e_bridge_firmware.SockRing.Delivery.{
  Op, pump, ask, step, run, reached, host_prefix, host_catches_up, drained_after_all,
}

abbrev free_ring : RxRing
free_ring = record {
  buf = λ i. 0;
  head = 7;
  tail = 7;
  uncommitted = 0;
  fd_plus1 = 0;
  peer_closed = false;
  peer_error = false;
}

sock_recv_ring-Serves_example :
    Serves three_bytes (0 ∷ 1 ∷ 2 ∷ []) 0 2 false (sock_recv_ring three_bytes 5 2 false)
sock_recv_ring-Serves_example =
    sock_recv_ring-Serves three_bytes (0 ∷ 1 ∷ 2 ∷ []) 0 2 false three_bytes-Carries 5
      (refl, λ e. omega arith)

sock_pump-Pumped_example :
    Pumped three_bytes
      (0 ∷ 1 ∷ 2 ∷ [])
      0
      (sock_pump recv three_bytes (8 ∷ 9 ∷ [])).0
      (sock_pump recv three_bytes (8 ∷ 9 ∷ [])).2
sock_pump-Pumped_example =
    sock_pump-Pumped recv recv-Bounded three_bytes (8 ∷ 9 ∷ []) (0 ∷ 1 ∷ 2 ∷ []) 0
      three_bytes-Carries

abbrev handle : ℕ
handle = 5

real : handle ≢ 0
real e = omega arith

-- The first reply is lost.
abbrev steps : List Op
steps = pump ∷ ask 2 false ∷ ask 2 true ∷ []

host_prefix_example :
    (reached recv recv-Bounded handle real free_ring (8 ∷ 9 ∷ 4 ∷ []) steps).host
    ≡ take
        (length (reached recv recv-Bounded handle real free_ring (8 ∷ 9 ∷ 4 ∷ []) steps).host)
        (reached recv recv-Bounded handle real free_ring (8 ∷ 9 ∷ 4 ∷ []) steps).stored
host_prefix_example =
    host_prefix recv recv-Bounded handle real free_ring (8 ∷ 9 ∷ 4 ∷ []) steps refl

stored_fit :
    length (reached recv recv-Bounded handle real free_ring (8 ∷ 9 ∷ []) (pump ∷ [])).stored
    ≤ length (reached recv recv-Bounded handle real free_ring (8 ∷ 9 ∷ []) (pump ∷ [])).host + 4
unfolding run step sock_prefetch sock_prefetch_should_arm sock_pump pump_loop pump_room on_recv
stored_fit = omega arith

host_catches_up_example :
    (step recv handle
      (reached recv recv-Bounded handle real free_ring (8 ∷ 9 ∷ []) (pump ∷ []))
      (ask 4 true)).host
    ≡ (reached recv recv-Bounded handle real free_ring (8 ∷ 9 ∷ []) (pump ∷ [])).stored
host_catches_up_example =
    host_catches_up recv recv-Bounded handle real free_ring (8 ∷ 9 ∷ []) (pump ∷ []) 4 refl
      stored_fit

all_drained :
    (sock_recv_ring
      (reached recv recv-Bounded handle real free_ring (8 ∷ 9 ∷ []) (pump ∷ ask 4 true ∷ [])).ring
      handle
      4
      (reached recv recv-Bounded handle real free_ring
        (8 ∷ 9 ∷ [])
        (pump ∷ ask 4 true ∷ [])).lost).0
    ≡ drained again
unfolding run step sock_prefetch sock_prefetch_should_arm sock_pump pump_loop pump_room on_recv
    sock_recv_ring sock_recv_commit sock_recv_ring_drained_status
all_drained = refl

drained_after_all_example :
    (reached recv recv-Bounded handle real free_ring (8 ∷ 9 ∷ []) (pump ∷ ask 4 true ∷ [])).host
    ≡ (reached recv recv-Bounded handle real free_ring (8 ∷ 9 ∷ []) (pump ∷ ask 4 true ∷ [])).stored
drained_after_all_example =
    drained_after_all recv recv-Bounded handle real free_ring (8 ∷ 9 ∷ []) (pump ∷ ask 4 true ∷ [])
      4 again refl (omega arith) all_drained
