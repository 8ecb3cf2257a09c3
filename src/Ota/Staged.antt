-- ===== src/Ota/Staged.antt =====
-- What the calls of the host leave of an update.
use cc3501e_bridge_firmware.Base.{
  ℕ, ◌+◌, ◌≡◌, inl, inr, refl, sym, subst, ◌∙◌, true, false, not, ◌&&◌, ◌||◌, none, some, List,
  ◌++◌, ltb, leb, ◌==◌, length, Bool-cases,
}
use cc3501e_bridge_firmware.Wire.{HwRv, hw_ok, hw_busy, Layout}
use cc3501e_bridge_firmware.Ota.{
  OtaState, ota_idle, ota_writing, ota_staged, ota_error, Op, op_begin, op_finish, op_flush, Ota,
  in_flight, submit, window_used, image_max,
}
use cc3501e_bridge_firmware.Ota.Chunk.{SameSession-Carries, write_chunk_cases}
use cc3501e_bridge_firmware.Ota.Calls.{
  begin_in, ota_begin, appended, write_chunk, write_in, finish_in, ota_abort,
}
use cc3501e_bridge_firmware.Ota.Pump.{Updates}

-- A begin that is in flight is one of this image.
abbrev pub BeginsOk : List ℕ → Ota → Type 0
BeginsOk image o = in_flight o ≡ true → o.op ≡ op_begin → o.op_total ≡ length image

-- The state is kept, and so is the begin.
abbrev pub Kept : List ℕ → OtaState → Ota → Type 0
Kept image st o = (o.state ≡ st) × BeginsOk image o

module _ (image : List ℕ) (st : OtaState) where
  submit-Kept :
      (o : Ota) (op : Op) → (op ≡ op_begin → ⊥) → Kept image st o → Kept image st (submit o op).1
  unfolding submit
  submit-Kept o op ne k = elim (Bool-cases (in_flight o)) [
    | inl y ↦ rw y k
    | inr n ↦ rw n (k.0, λ i e. absurd (ne e))
  ]

  appended-Kept : (manifest : ℕ) (o : Ota) → Kept image st o → Kept image st (appended manifest o).1
  unfolding appended
  appended-Kept manifest o k = elim (Bool-cases (not o.started && leb manifest (window_used o))) [
    | inl y ↦ rw y (submit-Kept o op_flush (λ e. cc e) k)
    | inr n ↦ rw n k
  ]

  write_chunk-Kept :
      (manifest : ℕ) (o : Ota) (offset : ℕ) (payload : List ℕ)
      → Kept image st o
      → Kept image st (write_chunk manifest o offset payload).1
  unfolding in_flight
  write_chunk-Kept manifest o offset payload k =
      write_chunk_cases (λ x. Kept image st x) manifest o offset payload k
        (submit-Kept o op_flush (λ e. cc e) k)
        (λ at h fits.
          appended-Kept manifest
            (record o { window = o.window ++ payload; cursor = o.cursor + length payload })
            (k.0, k.1))

  pub write_in-Kept :
      (s : OtaState) (w : Layout) (manifest : ℕ) (o : Ota) (offset : ℕ) (payload : List ℕ)
      → Kept image st o
      → Kept image st (write_in s w manifest o offset payload).1
  unfolding write_in
  write_in-Kept ota_writing w manifest o offset payload k =
      elim (Bool-cases (length payload == 0 || ltb w.ota_max_chunk (length payload))) [
        | inl y ↦ rw y k
        | inr n ↦ rw n (write_chunk-Kept manifest o offset payload k)
      ]
  write_in-Kept ota_idle w manifest o offset payload k = k
  write_in-Kept ota_staged w manifest o offset payload k = k
  write_in-Kept ota_error w manifest o offset payload k = k

submit_free :
    (o : Ota) (op : Op)
    → in_flight o ≡ false
    → submit o op ≡ (hw_busy, record o { op = op; rc = none })
unfolding submit
submit_free o op n = rw n

module _ {F : Type 0} (stored : F → List ℕ) (image : List ℕ) where
  -- A begin of this image that is put in flight outside of a session.
  queued-Updates :
      (o : Ota) (f : F)
      → (o.state ≡ ota_writing → ⊥)
      → Updates stored image o f
      → Updates stored image (record o { op_total = length image; op = op_begin; rc = none }) f
  queued-Updates o f ne u = record {
    held = λ w. absurd (ne w);
    done = u.done;
    begins = λ i e. refl;
    works = λ i. inl refl;
  }

  begin_in-Updates :
      (st : OtaState) (o : Ota) (f : F)
      → o.state ≡ st
      → in_flight o ≡ false
      → Updates stored image o f
      → Updates stored image (begin_in st o (length image)).1 f
  unfolding begin_in in_flight
  begin_in-Updates ota_writing o f e n u =
      elim (Bool-cases (length image == o.total_len && o.cursor == 0)) [
        | inl y ↦ rw y u
        | inr y ↦ rw y u
      ]
  begin_in-Updates ota_error o f e n u =
      let o' = record o { state = ota_idle; rc = some hw_ok; op_total = length image } in
      subst (λ (x : HwRv × Ota). Updates stored image x.1 f) (sym (submit_free o' op_begin refl))
        (record { held = λ w. cc w; done = λ w. cc w; begins = λ i x. refl; works = λ i. inl refl })
  begin_in-Updates ota_idle o f e n u =
      let o' = record o { op_total = length image } in
      subst (λ (x : HwRv × Ota). Updates stored image x.1 f) (sym (submit_free o' op_begin n))
        (queued-Updates o f (λ w. let x = sym e ∙ w in cc x) u)
  begin_in-Updates ota_staged o f e n u =
      let o' = record o { op_total = length image } in
      subst (λ (x : HwRv × Ota). Updates stored image x.1 f) (sym (submit_free o' op_begin n))
        (queued-Updates o f (λ w. let x = sym e ∙ w in cc x) u)

  pub ota_begin-Updates :
      (manifest : ℕ) (o : Ota) (f : F)
      → Updates stored image o f
      → Updates stored image (ota_begin manifest o (length image)).1 f
  unfolding ota_begin
  ota_begin-Updates manifest o f u =
      elim (Bool-cases (leb (length image) manifest || ltb image_max (length image))) [
        | inl y ↦ rw y u
        | inr n ↦ elim (Bool-cases (in_flight o)) [
          | inl y ↦ rw (n, y) u
          | inr n2 ↦ rw (n, n2) (begin_in-Updates o.state o f refl n2 u)
        ]
      ]

  -- A finish that is put in flight serves the session.
  pub finish_in-Updates :
      (st : OtaState) (o : Ota) (f : F)
      → o.state ≡ st
      → Updates stored image o f
      → Updates stored image (finish_in st o).1 f
  unfolding finish_in submit
  finish_in-Updates ota_writing o f e u = elim (Bool-cases (in_flight o)) [
    | inl y ↦ rw y u
    | inr n ↦ rw n (record {
      held = λ w.
          SameSession-Carries stored image o (record o { op = op_finish; rc = none }) f f
            (refl, refl, refl, refl, refl, refl) refl (u.held e);
      done = λ w. let x = sym e ∙ w in cc x;
      begins = λ i x. cc x;
      works = λ i. inr (inr e);
    })
  ]
  finish_in-Updates ota_idle o f e u = u
  finish_in-Updates ota_staged o f e u = u
  finish_in-Updates ota_error o f e u = u

  pub ota_abort-Updates : (o : Ota) (f : F) → Updates stored image (ota_abort o).1 f
  unfolding ota_abort in_flight
  ota_abort-Updates o f = record {
    held = λ w. cc w;
    done = λ w. cc w;
    begins = λ i. cc i;
    works = λ i. cc i;
  }
