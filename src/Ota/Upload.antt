-- ===== src/Ota/Upload.antt =====
-- The jobs of an update, and the pump that runs them.
use cc3501e_bridge_firmware.Base.{
  ℕ, ◌≡◌, ◌⊎◌, inl, inr, refl, sym, subst, ◌∙◌, true, false, List, length, Bool-cases, arith,
}
use cc3501e_bridge_firmware.Wire.{hw_ok}
use cc3501e_bridge_firmware.Ota.{
  ota_writing, Op, op_idle, op_begin, op_finish, op_flush, Ota, Link, Fwu, in_flight,
}
use cc3501e_bridge_firmware.Ota.Job.{
  opened, do_begin, run_op, prime_by, prime, park, pump_job, ota_pump,
}
use cc3501e_bridge_firmware.Ota.Image.{IsFlash, Carries}
use cc3501e_bridge_firmware.Ota.Flush.{flush-Open, do_finish-image}
use cc3501e_bridge_firmware.Ota.Chunk.{SameSession-Carries}
use cc3501e_bridge_firmware.Ota.Pump.{
  IsQuiet, Updates, Settled, prime_by-Updates, park-stored, pump_end-Updates,
}
use cc3501e_bridge_firmware.Ota.Outcome.{Ends, flush-Ends, do_finish-Ends, do_begin-Begins}

module _ (manifest : ℕ) {F : Type 0} (fwu : Fwu F) (link : Link F) (stored : F → List ℕ)
    (flash : IsFlash fwu stored) (quiet : IsQuiet fwu link stored) (image : List ℕ) where
  opened-Carries :
      (o : Ota) (f : F) (target : ℕ)
      → o.op_total ≡ length image
      → Carries stored image (opened manifest fwu o target) f
  unfolding opened
  opened-Carries o f target e = record {
    total = e;
    cursor_in = omega arith;
    base_in = omega arith;
    flushed_in = omega arith;
    window_is = refl;
    room = omega arith;
    kept = λ z. cc z;
    fresh = λ z. (refl, refl);
  }

  opened_state : (o : Ota) (target : ℕ) → (opened manifest fwu o target).state ≡ ota_writing
  unfolding opened
  opened_state o target = refl

  -- Each job of an update of this image leaves the session as it should be.
  run_op-Settled :
      (op : Op) (o : Ota) (f : F)
      → (o.state ≡ ota_writing → Carries stored image o f)
      → (op ≡ op_begin → o.op_total ≡ length image)
      → (op ≡ op_begin) ⊎ (op ≡ op_idle) ⊎ (o.state ≡ ota_writing)
      → Ends (run_op manifest fwu op o f)
        × ((run_op manifest fwu op o f).0 ≡ hw_ok
            → Settled stored image (run_op manifest fwu op o f).1 (run_op manifest fwu op o f).2)
  unfolding run_op
  run_op-Settled op_idle o f c b w = (inr (inr refl), λ e. cc e)
  run_op-Settled op_flush o f c b w = (
    flush-Ends manifest fwu false o f,
    λ ok.
        let st : o.state ≡ ota_writing = elim w [
          | inl x ↦ cc x
          | inr (inl x) ↦ cc x
          | inr (inr x) ↦ x
        ] in
        let (c', started, same) = flush-Open manifest fwu stored flash image false o f (c st) ok in
        inl (same ∙ st, c'),
  )
  run_op-Settled op_finish o f c b w = (
    do_finish-Ends manifest fwu o f,
    λ ok.
        let st : o.state ≡ ota_writing = elim w [
          | inl x ↦ cc x
          | inr (inl x) ↦ cc x
          | inr (inr x) ↦ x
        ] in
        let (e, all, staged) = do_finish-image manifest fwu stored flash image o f (c st) ok in
        inr (inl (staged, e)),
  )
  run_op-Settled op_begin o f c b w = elim (do_begin-Begins manifest fwu o f) [
    | inr io ↦ (inr (inl io), λ ok. let x = sym io ∙ ok in cc x)
    | inl (target, ok, e) ↦ (
      inl ok,
      λ k.
          subst (λ x. Settled stored image x (do_begin manifest fwu o f).2) (sym e)
            (inl (
              opened_state o target,
              opened-Carries o (do_begin manifest fwu o f).2 target (b refl),
            )),
    )
  ]

  pump_job-Updates :
      (o : Ota) (f : F)
      → in_flight o ≡ true
      → Updates stored image o f
      → let r = pump_job manifest fwu link o f in Updates stored image r.0 r.1
  unfolding pump_job
  pump_job-Updates o f i u =
      let f1 = park manifest fwu link (link.polled f) (link.busy f) in
      let e =
        park-stored manifest fwu link stored flash quiet image (link.polled f) (link.busy f)
        ∙ quiet.busies f in
      let (ends, settled) =
        run_op-Settled o.op o f1
          (λ st.
            SameSession-Carries stored image o o f f1 (refl, refl, refl, refl, refl, refl) e
              (u.held st))
          (λ x. u.begins i x) (u.works i) in
      pump_end-Updates manifest fwu link stored flash quiet image (link.polled f) o.op
        (run_op manifest fwu o.op o f1) ends settled

  pub ota_pump-Updates :
      (o : Ota) (f : F)
      → Updates stored image o f
      → let r = ota_pump manifest fwu link o f in Updates stored image r.0 r.1
  unfolding ota_pump prime
  ota_pump-Updates o f u =
      let r = prime_by manifest fwu link o.pending_primed o f in
      let v = prime_by-Updates manifest fwu link stored flash quiet image o.pending_primed o f u in
      elim (Bool-cases (in_flight r.0)) [
        | inl y ↦ rw y (pump_job-Updates r.0 r.1 y v)
        | inr n ↦ rw n v
      ]
