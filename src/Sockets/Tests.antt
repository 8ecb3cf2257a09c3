-- ===== src/Sockets/Tests.antt =====
-- A send and a receive that completed, and their repetitions.
use cc3501e_bridge_firmware.Base.{
  some, ℕ, ◌≡◌, refl, Bool, true, List, [], ◌∷◌, ◌++◌, slice, arith, ◌%◌,
}
use cc3501e_bridge_firmware.Wire.{ok, hw_ok, hw_state, sock_recv}
use cc3501e_bridge_firmware.Worker.{reclaim_matching_terminal}
use cc3501e_bridge_firmware.Bridge.{Bridge}
use cc3501e_bridge_firmware.Routed.{err_resp}
use cc3501e_bridge_firmware.SockRing.{
  Served, not_armed, sock_recv_ring, sock_recv_commit, copy_out, load,
}
use cc3501e_bridge_firmware.Sockets.Replay.{
  asked, handle_sock_recv_replays, handle_sock_recv_resends,
}
use cc3501e_bridge_firmware.SockRing
use cc3501e_bridge_firmware.SockRing.Stream.{start}
use cc3501e_bridge_firmware.SockRing.Pump.{pumps}
use cc3501e_bridge_firmware.Fixture.{bridge, recv, recv-Bounded, three_bytes, three_bytes-Carries}
use cc3501e_bridge_firmware.Sockets.{
  answer_ring, recv_reply, recv_room, is_replay, sock_worker_hw_err_to_resp,
  send_on_worker_complete, handle_sock_recv,
}
use cc3501e_bridge_firmware.Sockets.Cache.{
  completed_recv, sock_worker_hw_err_to_resp-err_resp, handle_sock_recv_repeats,
}

-- A request to send one byte with the sequence number `seq`.
abbrev request : ℕ → List ℕ
request seq = 1 ∷ 0 ∷ 0 ∷ seq ∷ 1 ∷ 0 ∷ 0 ∷ 0 ∷ 170 ∷ []

abbrev sent : Bridge
sent = record bridge { send = send_on_worker_complete bridge.send 9 hw_ok (1 ∷ 0 ∷ []) }

abbrev held : Bridge
held = record bridge { send = record { cached = true; seq = 9; status = ok; reply = 1 ∷ 0 ∷ [] } }

abbrev ring : ℕ → ℕ → ℕ → Bool → Served × ℕ
ring d handle room replay = (not_armed, d)

abbrev got : Bridge
got = record bridge {
  req_seq = 4;
  recv = completed_recv (record (bridge.recv) { job_seq = 4 }) 1 32 (66 ∷ []);
}

handle_sock_recv_repeats_example : handle_sock_recv ring got 0 (1 ∷ 0 ∷ 32 ∷ 0 ∷ []) 64 ≡ (
  (
    ok,
    66 ∷ [],
    record got {
      last_recv = record { seq = 4; handle = 1; max_len = 32 };
      job = (reclaim_matching_terminal got.job sock_recv 0 (1 % 256)).0;
    },
  ),
  0,
)
handle_sock_recv_repeats_example =
    handle_sock_recv_repeats ring got (record (bridge.recv) { job_seq = 4 }) 0 0
      (1 ∷ 0 ∷ 32 ∷ 0 ∷ []) (66 ∷ []) 64 refl (omega arith) (omega arith) (omega arith) refl
      (λ e. omega arith) refl refl

sock_worker_hw_err_to_resp-err_resp_example :
    sock_worker_hw_err_to_resp hw_state ≡ err_resp hw_state
sock_worker_hw_err_to_resp-err_resp_example = sock_worker_hw_err_to_resp-err_resp hw_state (λ e. cc)

abbrev asking : Bridge
asking = record bridge { req_seq = 4 }

-- The handle 5, at most two bytes.
abbrev recv_request : List ℕ
recv_request = 5 ∷ 0 ∷ 2 ∷ 0 ∷ []

two_bytes :
    answer_ring (asked asking three_bytes recv_request 64).0 2 ≡ some (ok, recv_reply (0 ∷ 1 ∷ []))
unfolding answer_ring recv_room is_replay sock_recv_ring sock_recv_commit copy_out load
two_bytes = refl

handle_sock_recv_replays_example :
    ((handle_sock_recv sock_recv_ring asking three_bytes recv_request 64).0.0 ≡ ok)
    × ((handle_sock_recv sock_recv_ring asking three_bytes recv_request 64).0.1
        ≡ recv_reply (0 ∷ 1 ∷ []))
    × ((handle_sock_recv sock_recv_ring
          (handle_sock_recv sock_recv_ring asking three_bytes recv_request 64).0.2
          (handle_sock_recv sock_recv_ring asking three_bytes recv_request 64).1
          recv_request
          64).0.0
        ≡ ok)
    × ((handle_sock_recv sock_recv_ring
          (handle_sock_recv sock_recv_ring asking three_bytes recv_request 64).0.2
          (handle_sock_recv sock_recv_ring asking three_bytes recv_request 64).1
          recv_request
          64).0.1
        ≡ recv_reply (0 ∷ 1 ∷ []))
    × ((handle_sock_recv sock_recv_ring
          (handle_sock_recv sock_recv_ring asking three_bytes recv_request 64).0.2
          (handle_sock_recv sock_recv_ring asking three_bytes recv_request 64).1
          recv_request
          64).1
        ≡ (handle_sock_recv sock_recv_ring asking three_bytes recv_request 64).1)
handle_sock_recv_replays_example =
    handle_sock_recv_replays asking three_bytes recv_request 64 ok (recv_reply (0 ∷ 1 ∷ [])) refl
      (omega arith) (λ e. omega arith) two_bytes

-- The handle 5, at most eight bytes; two more bytes come in before the repetition.
abbrev long_request : List ℕ
long_request = 5 ∷ 0 ∷ 8 ∷ 0 ∷ []

all_three : (asked asking three_bytes long_request 64).0 ≡ SockRing.bytes (0 ∷ 1 ∷ 2 ∷ [])
unfolding recv_room is_replay sock_recv_ring sock_recv_commit copy_out load
all_three = refl

handle_sock_recv_resends_example :
    let ((status, payload, b1), r1) =
      handle_sock_recv sock_recv_ring asking three_bytes long_request 64 in
    let (r2, s2, stored) = pumps recv 1 r1 (8 ∷ 9 ∷ []) in
    let ((status', payload', b2), r3) = handle_sock_recv sock_recv_ring b1 r2 long_request 64 in
    (status ≡ ok)
    × (payload ≡ recv_reply (0 ∷ 1 ∷ 2 ∷ []))
    × ((more : List ℕ) × (status' ≡ ok)
        × (payload' ≡ recv_reply (0 ∷ 1 ∷ 2 ∷ more))
        × ((m : ℕ) × (0 ∷ 1 ∷ 2 ∷ more
              ≡ slice
                  ((0 ∷ 1 ∷ 2 ∷ []) ++ stored)
                  (start three_bytes 0 (is_replay asking.last_recv 4 5 8))
                  m)))
handle_sock_recv_resends_example =
    handle_sock_recv_resends recv recv-Bounded asking three_bytes (8 ∷ 9 ∷ []) (0 ∷ 1 ∷ 2 ∷ []) 0
      long_request 64 1 0 (1 ∷ 2 ∷ []) refl (omega arith) (λ e. omega arith) three_bytes-Carries
      refl (λ e. omega arith) all_three
