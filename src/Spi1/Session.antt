-- ===== src/Spi1/Session.antt =====
-- What a host can rely on in a session of SPI1 transfers.
use cc3501e_bridge_firmware.Base.{
  ℕ, ◌≡◌, ◌≢◌, inl, inr, refl, ap, ◌∙◌, false, ◌&&◌, none, some, List, leb, ◌==◌, length, get_or,
  take, Bool-cases, Option-cases, arith,
}
use cc3501e_bridge_firmware.Wire
use cc3501e_bridge_firmware.Wire.{
  Resp, ok, err_invalid, HwRv, hw_ok, hw_busy, hw_notimpl, hw_io, hw_inval, hw_state, hw_no_mem,
  Layout, get_le16,
}
use cc3501e_bridge_firmware.Worker.{WorkerState, idle, queued, running, done, err, Polled, poll}
use cc3501e_bridge_firmware.Worker.Slot.{poll_exact}
use cc3501e_bridge_firmware.Bridge.{Bridge, Spi1}
use cc3501e_bridge_firmware.Routed.{with_job}
use cc3501e_bridge_firmware.Spi1.{
  transfer_guard, transfer_err, settle_transfer, guarded_transfer, handle_spi1_transfer,
  transfer_resp_bytes,
}

transfer_err_ne_ok : (rv : HwRv) → transfer_err rv ≢ ok
unfolding transfer_err
transfer_err_ne_ok hw_ok e = cc
transfer_err_ne_ok hw_busy e = cc
transfer_err_ne_ok hw_notimpl e = cc
transfer_err_ne_ok hw_io e = cc
transfer_err_ne_ok hw_inval e = cc
transfer_err_ne_ok hw_state e = cc
transfer_err_ne_ok hw_no_mem e = cc

transfer_guard_ne_ok :
    (w : Layout) (s : Spi1) (req : List ℕ) (room : ℕ) → transfer_guard w s req room ≢ some ok
unfolding transfer_guard
transfer_guard_ne_ok w s req room e = ground arith

settle_transfer_ok :
    (st : WorkerState) (w : Layout) (b : Bridge) (s : Spi1) (p : Polled) (req : List ℕ)
    → (settle_transfer st w b s p req).0.0 ≡ ok
    → (st ≡ done)
      × (get_or p.out 3 0 ≡ get_or req 3 0)
      × ((settle_transfer st w b s p req).0 ≡ (ok, p.out, b))
unfolding settle_transfer
settle_transfer_ok done w b s p req e =
    elim (Bool-cases
      (leb transfer_resp_bytes (length p.out) && get_or p.out 3 0 == get_or req 3 0)) [
        | inl t ↦ (refl, ground arith, rw t)
        | inr f ↦ let h = rw f at e in cc h
      ]
settle_transfer_ok err w b s p req e = absurd (transfer_err_ne_ok p.rv e)
settle_transfer_ok idle w b s p req e = cc e
settle_transfer_ok queued w b s p req e = cc e
settle_transfer_ok running w b s p req e = cc e

-- A transfer is answered with OK only out of its own result: the reply data are the whole result of a
-- finished SPI1_TRANSFER, with the sequence number of this request in it, and the state of the bridge
-- stays as it was, so that a repetition of the request is answered alike.
pub handle_spi1_transfer_own :
    (w : Layout) (b : Bridge) (s : Spi1) (req : List ℕ) (room : ℕ)
    → (handle_spi1_transfer w b s req room).0.0 ≡ ok
    → (b.job.state ≡ done)
      × (b.job.job_cmd ≡ Wire.spi1_transfer)
      × ((handle_spi1_transfer w b s req room).0.1 ≡ take b.job.result_len b.job.result)
      × (get_or (handle_spi1_transfer w b s req room).0.1 3 0 ≡ get_or req 3 0)
      × ((handle_spi1_transfer w b s req room).0.2 ≡ b)
unfolding handle_spi1_transfer guarded_transfer
handle_spi1_transfer_own w b s req room e = elim (Option-cases (transfer_guard w s req room)) [
  | inl pass ↦
      let p = (poll b.job Wire.spi1_transfer room).0 in
      let b1 = with_job b (poll b.job Wire.spi1_transfer room).1 in
      let h : (settle_transfer p.status w b1 s p req).0.0 ≡ ok = rw pass at e in
      let k = settle_transfer_ok p.status w b1 s p req h in
      let x = poll_exact b.job Wire.spi1_transfer room k.0 in
      rw (pass, k.2) (x.0, x.1, x.2, k.1, ap (λ j. with_job b j) x.4)
  | inr (status, stop) ↦
      let h : status ≡ ok = rw stop at e in
      absurd (transfer_guard_ne_ok w s req room (stop ∙ ap (λ x. some x) h))
]

closed_guard :
    (w : Layout) (s : Spi1) (req : List ℕ) (room : ℕ)
    → s.configured ≡ false
    → transfer_guard w s req room ≢ none
unfolding transfer_guard
closed_guard w s req room c e = ground arith

-- Without an open session no transfer is answered with OK or queued, whatever the request: the
-- bridge and the session stay as they were.
pub handle_spi1_transfer_closed :
    (w : Layout) (b : Bridge) (s : Spi1) (req : List ℕ) (room : ℕ)
    → s.configured ≡ false
    → ((handle_spi1_transfer w b s req room).0.0 ≢ ok)
      × ((handle_spi1_transfer w b s req room).0.2 ≡ b)
      × ((handle_spi1_transfer w b s req room).1 ≡ s)
unfolding handle_spi1_transfer guarded_transfer
handle_spi1_transfer_closed w b s req room c = elim (Option-cases (transfer_guard w s req room)) [
  | inl pass ↦ absurd (closed_guard w s req room c pass)
  | inr (status, stop) ↦
      rw stop (λ h. transfer_guard_ne_ok w s req room (stop ∙ ap (λ x. some x) h), refl, refl)
]
