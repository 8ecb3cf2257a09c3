-- ===== src/Execute/Once.antt =====
-- A socket request that the drain has run is not run again: its repetitions are answered from the
-- caches of src/protocol_sockets.c.
use cc3501e_bridge_firmware.Base.{
  ℕ, ◌+◌, ◌≤◌, ◌≡◌, ap, ◌∙◌, List, [], ◌∷◌, length, get_or, take, take_all, arith,
}
use cc3501e_bridge_firmware.Wire
use cc3501e_bridge_firmware.Wire.{
  Cmd, Resp, ok, hw_ok, HwRv, Layout, get_le16, max_payload, reply_data_max,
}
use cc3501e_bridge_firmware.Worker.{queued, reclaim_matching_terminal}
use cc3501e_bridge_firmware.Bridge.{Bridge}
use cc3501e_bridge_firmware.Routed.{with_job}
use cc3501e_bridge_firmware.Hal.{Hal}
use cc3501e_bridge_firmware.Sockets.{
  sock_send_bytes, send_seq_at, handle_sock_send, send_on_worker_complete,
}
use cc3501e_bridge_firmware.Sockets.Cache.{handle_sock_send_repeats, completed_recv}
use cc3501e_bridge_firmware.Execute.{finish, store_caches, store_recv, run_pending}
use cc3501e_bridge_firmware.Execute.Settle.{started, body, run_pending_runs}

module _ (w : Layout) {Dev : Type 0} (hal : Hal Dev) where
  drained-send :
      (b : Bridge) (d d' : Dev) (lo hi : ℕ)
      → b.job.state ≡ queued
      → b.job.job_cmd ≡ Wire.sock_send
      → body w hal b d ≡ (hw_ok, lo ∷ hi ∷ [], d')
      → (run_pending w hal b d).0.send
        ≡ send_on_worker_complete b.send (get_or b.job.req send_seq_at 0) hw_ok (lo ∷ hi ∷ [])
  unfolding finish store_caches
  drained-send b d d' lo hi q c e =
      ap (λ r. r.0.send) (run_pending_runs w hal b d q)
      ∙ ap
          (λ x.
            (store_caches x (with_job b (started b.job)) (body w hal b d).0
              (take max_payload (body w hal b d).1)).send)
          c
      ∙ ap
          (λ x.
            send_on_worker_complete b.send (get_or b.job.req send_seq_at 0) x.0
              (take max_payload x.1))
          e

  -- A queued send whose body returned success with the two bytes of its count is run by the drain; a
  -- well-formed request with the sequence number of the stashed one is then answered with OK and
  -- those two bytes, and the slot is at most reclaimed: no second send is queued.
  pub handle_sock_send_once :
      (b : Bridge) (d d' : Dev) (req : List ℕ) (lo hi room : ℕ)
      → b.job.state ≡ queued
      → b.job.job_cmd ≡ Wire.sock_send
      → get_or b.job.req send_seq_at 0 ≡ get_or req send_seq_at 0
      → body w hal b d ≡ (hw_ok, lo ∷ hi ∷ [], d')
      → sock_send_bytes + get_le16 req 4 ≡ length req
      → 2 ≤ room
      → handle_sock_send (run_pending w hal b d).0 req room ≡ (
        ok,
        lo ∷ hi ∷ [],
        with_job
            (run_pending w hal b d).0
            (reclaim_matching_terminal
              (run_pending w hal b d).0.job
              Wire.sock_send
              send_seq_at
              (get_or req send_seq_at 0)).0,
      )
  handle_sock_send_once b d d' req lo hi room q c s e h1 h2 =
      handle_sock_send_repeats (run_pending w hal b d).0 b.send req lo hi room h1 h2 (
        drained-send b d d' lo hi q c e
        ∙ ap (λ n. send_on_worker_complete b.send n hw_ok (lo ∷ hi ∷ [])) s)

  drained-recv :
      (b : Bridge) (d d' : Dev) (bytes : List ℕ)
      → b.job.state ≡ queued
      → b.job.job_cmd ≡ Wire.sock_recv
      → length bytes ≤ reply_data_max
      → body w hal b d ≡ (hw_ok, bytes, d')
      → (run_pending w hal b d).0.recv
        ≡ completed_recv b.recv (get_le16 b.job.req 0) (get_le16 b.job.req 2) bytes
  unfolding finish store_caches store_recv
  drained-recv b d d' bytes q c h e =
      ap (λ r. r.0.recv) (run_pending_runs w hal b d q)
      ∙ ap
          (λ x.
            (store_caches x (with_job b (started b.job)) (body w hal b d).0
              (take max_payload (body w hal b d).1)).recv)
          c
      ∙ ap (λ x. store_recv b.recv (started b.job) x.0 (take max_payload x.1)) e
      ∙ ap (λ x. completed_recv b.recv (get_le16 b.job.req 0) (get_le16 b.job.req 2) x)
          (take_all max_payload bytes (omega arith))
