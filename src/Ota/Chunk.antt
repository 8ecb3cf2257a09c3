-- ===== src/Ota/Chunk.antt =====
-- A chunk of the image that the host sends: accepted once, whatever is repeated.
use cc3501e_bridge_firmware.Base.{
  ℕ, ◌+◌, ◌-◌, ◌≤◌, ◌≡◌, inl, inr, refl, ap, ap₂, sym, ◌∙◌, not, ◌&&◌, ◌||◌, none, List, ◌++◌, ltb,
  leb, ◌==◌, length, take, slice, slice-append, length-append, Bool-cases, arith,
}
use cc3501e_bridge_firmware.Wire.{Layout}
use cc3501e_bridge_firmware.Ota.{
  ota_window, OtaState, ota_idle, ota_writing, ota_staged, ota_error, Op, op_flush, Ota,
  window_used, Fwu, in_flight, submit,
}
use cc3501e_bridge_firmware.Ota.Calls.{appended, write_chunk, write_in, ota_write}
use cc3501e_bridge_firmware.Ota.Image.{IsFlash, Carries, length-window}

-- The ways that a chunk goes: the session stays, a flush is asked for, or the chunk is taken.
pub write_chunk_cases :
    (P : Ota → Type 0) (manifest : ℕ) (o : Ota) (offset : ℕ) (payload : List ℕ)
    → P o
    → P (submit o op_flush).1
    → (offset ≡ o.cursor
        → offset + length payload ≤ o.total_len
        → length payload ≤ ota_window - window_used o
        → P
            (appended manifest
              (record o { window = o.window ++ payload; cursor = o.cursor + length payload })).1)
    → P (write_chunk manifest o offset payload).1
unfolding write_chunk
write_chunk_cases P manifest o offset payload stays asks takes =
    let n = length payload in
    elim (Bool-cases (in_flight o)) [
      | inl y1 ↦ rw y1 stays
      | inr n1 ↦ elim (Bool-cases (leb (offset + n) o.cursor)) [
        | inl y2 ↦ rw (n1, y2) stays
        | inr n2 ↦ elim (Bool-cases (offset == o.cursor)) [
          | inr n3 ↦ rw (n1, n2, n3) stays
          | inl y3 ↦ elim (Bool-cases (ltb o.total_len (offset + n))) [
            | inl y4 ↦ rw (n1, n2, y3, y4) stays
            | inr n4 ↦ elim (Bool-cases (ltb (ota_window - window_used o) n)) [
              | inl y5 ↦ rw (n1, n2, y3, n4, y5) asks
              | inr n5 ↦
                  rw (n1, n2, y3, n4, n5) (takes (ground arith) (ground arith) (ground arith))
            ]
          ]
        ]
      ]
    ]

module _ {F : Type 0} (stored : F → List ℕ) (image : List ℕ) where
  -- The session is the same but for the job in flight.
  abbrev pub SameSession : Ota → Ota → Type 0
  SameSession o o' =
      (o'.total_len ≡ o.total_len)
      × (o'.cursor ≡ o.cursor)
      × (o'.window_base ≡ o.window_base)
      × (o'.flushed ≡ o.flushed)
      × (o'.window ≡ o.window)
      × (o'.started ≡ o.started)

  pub SameSession-Carries :
      (o o' : Ota) (f f' : F)
      → SameSession o o'
      → stored f' ≡ stored f
      → Carries stored image o f
      → Carries stored image o' f'
  SameSession-Carries o o' f f' (t, k, b, l, w, s) e c =
      let n = c.cursor_in in
      let m = c.base_in in
      let i = c.flushed_in in
      record {
        total = t ∙ c.total;
        cursor_in = omega (arith, t, k);
        base_in = omega (arith, b, l);
        flushed_in = omega (arith, k, l);
        window_is = w ∙ c.window_is ∙ ap₂ (λ x y. slice image x (y - x)) (sym b) (sym k);
        room = omega (arith, ap length w, c.room);
        kept = λ z. e ∙ c.kept (sym s ∙ z) ∙ ap (λ n. take n image) (sym l);
        fresh = λ z. let (x, y) = c.fresh (sym s ∙ z) in (b ∙ x, l ∙ y);
      }

  submit-Carries :
      (o : Ota) (op : Op) (f : F)
      → Carries stored image o f
      → Carries stored image (submit o op).1 f
  unfolding submit
  submit-Carries o op f c = elim (Bool-cases (in_flight o)) [
    | inl y ↦ rw y c
    | inr n ↦ rw n (
        SameSession-Carries o (record o { op = op; rc = none }) f f
          (refl, refl, refl, refl, refl, refl) refl c)
  ]

  appended-Carries :
      (manifest : ℕ) (o : Ota) (f : F)
      → Carries stored image o f
      → Carries stored image (appended manifest o).1 f
  unfolding appended
  appended-Carries manifest o f c =
      elim (Bool-cases (not o.started && leb manifest (window_used o))) [
        | inl y ↦ rw y (submit-Carries o op_flush f c)
        | inr n ↦ rw n c
      ]

  -- The chunk of `n` bytes at `offset`.
  abbrev pub chunk : ℕ → ℕ → List ℕ
  chunk offset n = slice image offset n

  taken-Carries :
      (o : Ota) (f : F) (offset : ℕ) (payload : List ℕ)
      → Carries stored image o f
      → o.window_base + length o.window ≡ o.cursor
      → payload ≡ chunk offset (length payload)
      → offset ≡ o.cursor
      → offset + length payload ≤ o.total_len
      → length payload ≤ ota_window - window_used o
      → Carries stored image
          (record o { window = o.window ++ payload; cursor = o.cursor + length payload })
          f
  taken-Carries o f offset payload c l e at h fits =
      let m = c.base_in in
      let i = c.flushed_in in
      let k = c.room in
      let n = length payload in
      let from : o.window_base + (o.cursor - o.window_base) ≡ o.cursor = omega arith in
      let all : o.cursor - o.window_base + n ≡ o.cursor + n - o.window_base = omega arith in
      record {
        total = c.total;
        cursor_in = omega arith;
        base_in = c.base_in;
        flushed_in = omega arith;
        window_is =
            ap₂ (λ x y. x ++ y) c.window_is
              (e ∙ ap (λ x. chunk x n) at ∙ ap (λ x. chunk x n) (sym from))
            ∙ sym (slice-append o.window_base (o.cursor - o.window_base) n image)
            ∙ ap (λ x. slice image o.window_base x) all;
        room = omega (arith, length-append o.window payload);
        kept = c.kept;
        fresh = c.fresh;
      }

  write_chunk-Carries :
      (manifest : ℕ) (o : Ota) (f : F) (offset : ℕ) (payload : List ℕ)
      → Carries stored image o f
      → o.window_base + length o.window ≡ o.cursor
      → payload ≡ chunk offset (length payload)
      → Carries stored image (write_chunk manifest o offset payload).1 f
  write_chunk-Carries manifest o f offset payload c l e =
      write_chunk_cases (λ x. Carries stored image x f) manifest o offset payload c
        (submit-Carries o op_flush f c)
        (λ at h fits.
          appended-Carries manifest
            (record o { window = o.window ++ payload; cursor = o.cursor + length payload }) f
            (taken-Carries o f offset payload c l e at h fits))

  pub write_in-Carries :
      (st : OtaState) (w : Layout) (manifest : ℕ) (o : Ota) (f : F) (offset : ℕ) (payload : List ℕ)
      → Carries stored image o f
      → o.window_base + length o.window ≡ o.cursor
      → payload ≡ chunk offset (length payload)
      → Carries stored image (write_in st w manifest o offset payload).1 f
  unfolding write_in
  write_in-Carries ota_writing w manifest o f offset payload c l e =
      elim (Bool-cases (length payload == 0 || ltb w.ota_max_chunk (length payload))) [
        | inl y ↦ rw y c
        | inr n ↦ rw n (write_chunk-Carries manifest o f offset payload c l e)
      ]
  write_in-Carries ota_idle w manifest o f offset payload c l e = c
  write_in-Carries ota_staged w manifest o f offset payload c l e = c
  write_in-Carries ota_error w manifest o f offset payload c l e = c

module _ (manifest : ℕ) {F : Type 0} (fwu : Fwu F) (stored : F → List ℕ)
    (flash : IsFlash fwu stored) (image : List ℕ) where
  -- A chunk of the image keeps the session a part of the image, whatever its offset: it is taken
  -- once, at the cursor, and refused or passed over otherwise.
  pub ota_write-Carries :
      (w : Layout) (o : Ota) (f : F) (offset : ℕ) (payload : List ℕ)
      → Carries stored image o f
      → payload ≡ chunk stored image offset (length payload)
      → Carries stored image (ota_write w manifest o offset payload).1 f
  unfolding ota_write
  ota_write-Carries w o f offset payload c e =
      write_in-Carries stored image o.state w manifest o f offset payload c
        (length-window manifest fwu stored flash image o f c) e
