-- ===== src/Ota/Pump.antt =====
-- The pump round a job: what it leaves of an update.
use cc3501e_bridge_firmware.Base.{
  ℕ, ◌≡◌, ◌⊎◌, inl, inr, refl, sym, subst, ◌∙◌, Bool, true, false, Option, none, some, List, length,
}
use cc3501e_bridge_firmware.Wire.{
  HwRv, hw_ok, hw_busy, hw_notimpl, hw_io, hw_inval, hw_state, hw_no_mem,
}
use cc3501e_bridge_firmware.Ota.{
  ota_writing, ota_staged, ota_error, Op, op_idle, op_begin, Pending, Ota, Component, Link, Fwu,
  in_flight,
}
use cc3501e_bridge_firmware.Ota.Job.{
  refresh_first, pending_refresh, judged, staged_now, back, prime_by, park, unpark, clear_if,
  pump_end,
}
use cc3501e_bridge_firmware.Ota.Image.{IsFlash, Carries}
use cc3501e_bridge_firmware.Ota.Chunk.{SameSession-Carries}
use cc3501e_bridge_firmware.Ota.Outcome.{Ends}

-- The calls round a job leave the update's bytes alone: the queries of the library, and what the pump
-- asks of the transport.
pub record IsQuiet {F : Type 0} (fwu : Fwu F) (link : Link F) (stored : F → List ℕ) : Type 0 where
  pub inits : (f : F) → stored (fwu.init f) ≡ stored f
  pub queries : (f : F) (n : ℕ) → stored (fwu.query f n).1 ≡ stored f
  pub busies : (f : F) → stored (link.busy f) ≡ stored f
  pub readies : (f : F) → stored (link.ready f) ≡ stored f
  pub quiesces : (f : F) (on : Bool) → stored (link.quiesce f on) ≡ stored f
  pub sleeps : (f : F) (us : ℕ) → stored (link.usleep f us) ≡ stored f
  pub releases : (f : F) → stored (link.hw_release f) ≡ stored f
  pub reinits : (f : F) → stored (link.hw_reinit f) ≡ stored f
  pub clears : (f : F) → stored (link.clear_polled_boot f) ≡ stored f

-- Where an update of `image` stands: while chunks are taken the session carries a part of it, and
-- once staged it is in the flash; a job in flight is a begin of this image, or serves the session.
pub record Updates {F : Type 0} (stored : F → List ℕ) (image : List ℕ) (o : Ota) (f : F)
    : Type 0 where
  pub held : o.state ≡ ota_writing → Carries stored image o f
  pub done : o.state ≡ ota_staged → stored f ≡ image
  pub begins : in_flight o ≡ true → o.op ≡ op_begin → o.op_total ≡ length image
  pub works : in_flight o ≡ true → (o.op ≡ op_begin) ⊎ (o.op ≡ op_idle) ⊎ (o.state ≡ ota_writing)

module _ {F : Type 0} (stored : F → List ℕ) (image : List ℕ) where
  -- What a job leaves: a session that goes on, or an image that is staged, or an error.
  abbrev pub Settled : Ota → F → Type 0
  Settled o f =
      ((o.state ≡ ota_writing) × Carries stored image o f)
      ⊎ ((o.state ≡ ota_staged) × (stored f ≡ image))
      ⊎ (o.state ≡ ota_error)

  -- The end of the pump: no job is in flight.
  ended-Updates :
      (o : Ota) (f f' : F) (rv : HwRv) (p : Pending)
      → Settled o f
      → stored f' ≡ stored f
      → Updates stored image (record o { pending = p; op = op_idle; rc = some rv }) f'
  unfolding in_flight
  ended-Updates o f f' rv p s e = record {
    held = λ w.
        SameSession-Carries stored image o (record o { pending = p; op = op_idle; rc = some rv }) f
          f' (refl, refl, refl, refl, refl, refl) e
          (elim s [
            | inl (st, c) ↦ c
            | inr (inl (st, x)) ↦ let y = sym st ∙ w in cc y
            | inr (inr st) ↦ let y = sym st ∙ w in cc y
          ]);
    done = λ w. e ∙ elim s [
      | inl (st, c) ↦ let y = sym st ∙ w in cc y
      | inr (inl (st, x)) ↦ x
      | inr (inr st) ↦ let y = sym st ∙ w in cc y
    ];
    begins = λ y. cc y;
    works = λ y. cc y;
  }

  -- The first pass of the pump changes what is pending and no more.
  primed-Updates :
      (o : Ota) (f f' : F) (b : Bool) (p : Pending)
      → Updates stored image o f
      → stored f' ≡ stored f
      → Updates stored image (record o { pending_primed = b; pending = p }) f'
  unfolding in_flight
  primed-Updates o f f' b p u e = record {
    held = λ w.
        SameSession-Carries stored image o (record o { pending_primed = b; pending = p }) f f'
          (refl, refl, refl, refl, refl, refl) e (u.held w);
    done = λ w. e ∙ u.done w;
    begins = u.begins;
    works = u.works;
  }

module _ (manifest : ℕ) {F : Type 0} (fwu : Fwu F) (link : Link F) (stored : F → List ℕ)
    (flash : IsFlash fwu stored) (quiet : IsQuiet fwu link stored) (image : List ℕ) where
  refresh_first-kept :
      (i1 : Option Component × F) (o : Ota)
      → ((p : Pending) × ((refresh_first manifest fwu i1 o).0 ≡ record o { pending = p }))
        × (stored (refresh_first manifest fwu i1 o).1 ≡ stored i1.1)
  unfolding refresh_first
  refresh_first-kept (none, f) o = ((_, refl), refl)
  refresh_first-kept (some i1, f) o = ((_, refl), quiet.queries f fwu.slot_2)

  pending_refresh-kept :
      (o : Ota) (f : F)
      → ((p : Pending) × ((pending_refresh manifest fwu o f).0 ≡ record o { pending = p }))
        × (stored (pending_refresh manifest fwu o f).1 ≡ stored f)
  unfolding pending_refresh
  pending_refresh-kept o f =
      let (x, e) = refresh_first-kept (fwu.query (fwu.init f) fwu.slot_1) o in
      (x, e ∙ quiet.queries (fwu.init f) fwu.slot_1 ∙ quiet.inits f)

  back-stored : (b : Bool) (f : F) → stored (back manifest fwu link b f) ≡ stored f
  unfolding back
  back-stored true f = refl
  back-stored false f = quiet.readies f

  pub park-stored : (b : Bool) (f : F) → stored (park manifest fwu link b f) ≡ stored f
  unfolding park
  park-stored true f = refl
  park-stored false f =
      quiet.releases (link.usleep (link.quiesce f true) 20000)
      ∙ quiet.sleeps (link.quiesce f true) 20000
      ∙ quiet.quiesces f true

  unpark-stored : (b : Bool) (f : F) → stored (unpark manifest fwu link b f) ≡ stored f
  unfolding unpark
  unpark-stored true f = refl
  unpark-stored false f = quiet.reinits (link.quiesce f false) ∙ quiet.quiesces f false

  clear_if-stored : (b : Bool) (f : F) → stored (clear_if manifest fwu link b f) ≡ stored f
  unfolding clear_if
  clear_if-stored true f = quiet.clears f
  clear_if-stored false f = refl

  pub prime_by-Updates :
      (b : Bool) (o : Ota) (f : F)
      → Updates stored image o f
      → let r = prime_by manifest fwu link b o f in Updates stored image r.0 r.1
  unfolding prime_by
  prime_by-Updates true o f u = u
  prime_by-Updates false o f u =
      let o' = record o { pending_primed = true } in
      let ((p, e-o), e-f) = pending_refresh-kept o' (link.busy f) in
      let f1 = (pending_refresh manifest fwu o' (link.busy f)).1 in
      let f2 = back manifest fwu link (link.polled f1) f1 in
      subst (λ x. Updates stored image x f2) (sym e-o)
        (primed-Updates stored image o f f2 true p u
          (back-stored (link.polled f1) f1 ∙ e-f ∙ quiet.busies f))

  -- What a job that ended is judged by.
  judged-Settled :
      (rc : HwRv) (o : Ota) (f : F)
      → (rc ≡ hw_ok) ⊎ (rc ≡ hw_io) ⊎ (rc ≡ hw_inval)
      → (rc ≡ hw_ok → Settled stored image o f)
      → Settled stored image (judged manifest fwu rc o) f
  unfolding judged
  judged-Settled hw_ok o f e s = s refl
  judged-Settled hw_busy o f e s = elim e [ inl x ↦ cc x | inr (inl x) ↦ cc x | inr (inr x) ↦ cc x ]
  judged-Settled hw_notimpl o f e s = inr (inr refl)
  judged-Settled hw_io o f e s = inr (inr refl)
  judged-Settled hw_inval o f e s = inr (inr refl)
  judged-Settled hw_state o f e s = inr (inr refl)
  judged-Settled hw_no_mem o f e s = inr (inr refl)

  Settled-stored :
      (o : Ota) (f f' : F)
      → stored f' ≡ stored f
      → Settled stored image o f
      → Settled stored image o f'
  Settled-stored o f f' e (inl (st, c)) =
      inl (st, SameSession-Carries stored image o o f f' (refl, refl, refl, refl, refl, refl) e c)
  Settled-stored o f f' e (inr (inl (st, x))) = inr (inl (st, e ∙ x))
  Settled-stored o f f' e (inr (inr st)) = inr (inr st)

  pub pump_end-Updates :
      (polled : Bool) (op : Op) (r : HwRv × Ota × F)
      → Ends r
      → (r.0 ≡ hw_ok → Settled stored image r.1 r.2)
      → let x = pump_end manifest fwu link polled op r in Updates stored image x.0 x.1
  unfolding pump_end
  pump_end-Updates polled op (rc, o, f) e s =
      let f1 = clear_if manifest fwu link (staged_now manifest fwu op rc) f in
      let f2 = unpark manifest fwu link polled f1 in
      let o1 = judged manifest fwu rc o in
      let ((p, e-o), e-f) = pending_refresh-kept o1 f2 in
      let f3 = (pending_refresh manifest fwu o1 f2).1 in
      let f4 = back manifest fwu link polled f3 in
      let kept : stored f4 ≡ stored f =
        back-stored polled f3
        ∙ e-f
        ∙ unpark-stored polled f1
        ∙ clear_if-stored (staged_now manifest fwu op rc) f in
      subst (λ (x : Ota). Updates stored image (record x { op = op_idle; rc = some rc }) f4)
        (sym e-o) (ended-Updates stored image o1 f f4 rc p (judged-Settled rc o f e s) kept)
