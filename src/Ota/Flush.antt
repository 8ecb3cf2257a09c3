-- ===== src/Ota/Flush.antt =====
-- A flush and a finish that succeed leave a part of the image, or all of it, in the flash.
use cc3501e_bridge_firmware.Base.{
  ℕ, ◌+◌, ◌-◌, ◌≤◌, ◌≡◌, inl, inr, refl, ap, ap₂, ◌∙◌, Bool, true, false, Option, none, some, List,
  ◌++◌, ltb, leb, ◌==◌, length, take, slice, take_all, take-take, length-take, length-slice,
  Bool-cases, arith,
}
use cc3501e_bridge_firmware.Wire.{
  HwRv, hw_ok, hw_busy, hw_notimpl, hw_io, hw_inval, hw_state, hw_no_mem,
}
use cc3501e_bridge_firmware.Ota.{
  OtaState, ota_staged, Ota, window_used, Fwu, passes, ready_bytes, write_blocks, committed, commit,
  begun, flush_by, flush,
}
use cc3501e_bridge_firmware.Ota.Job.{installed, finished, close, do_finish}
use cc3501e_bridge_firmware.Ota.Image.{
  IsFlash, Carries, ready_bytes_le, committed_ok, write_blocks-stored, window-ready, length-window,
  moved-Carries,
}

-- A session that carries the image, and whose flash is open; the state is `st`.
abbrev pub Open : {F : Type 0} → (F → List ℕ) → List ℕ → OtaState → HwRv × Ota × F → Type 0
Open stored image st r = Carries stored image r.1 r.2 × (r.1.started ≡ true) × (r.1.state ≡ st)

module _ (manifest : ℕ) {F : Type 0} (fwu : Fwu F) (stored : F → List ℕ)
    (flash : IsFlash fwu stored) (image : List ℕ) where
  committed-Open :
      (o : Ota) (f : F) (n : ℕ)
      → Carries stored image o f
      → o.started ≡ true
      → n ≤ o.cursor - o.flushed
      → let bytes = slice o.window (o.flushed - o.window_base) n in
        let r =
          committed manifest fwu (write_blocks manifest fwu n f o.target o.flushed bytes) o n in
        r.0 ≡ hw_ok → Open stored image o.state r
  committed-Open o f n c st h ok =
      let b = c.base_in in
      let i = c.flushed_in in
      let t = c.total in
      let k = c.cursor_in in
      let bytes = slice o.window (o.flushed - o.window_base) n in
      let w = write_blocks manifest fwu n f o.target o.flushed bytes in
      let (written, e-o, e-f) = committed_ok manifest fwu w o n ok in
      let ready = window-ready manifest fwu stored flash image o f n c h in
      let l = length-slice image o.flushed n (omega arith) in
      let l-bytes = ap length ready in
      let l-take = length-take o.flushed image in
      let l-stored = ap length (c.kept st) in
      let now =
        write_blocks-stored manifest fwu stored flash n f o.target o.flushed bytes
          (omega (arith, l, l-bytes)) (omega (arith, l-stored, l-take)) written
        ∙ ap (λ xs. stored f ++ xs) ready in
      let next = moved-Carries manifest fwu stored flash image o f w.1 n c st h now in
      rw (e-o, e-f) (next, st, refl)

  commit-Open :
      (final : Bool) (o : Ota) (f : F)
      → Carries stored image o f
      → o.started ≡ true
      → (commit manifest fwu final o f).0 ≡ hw_ok
      → Open stored image o.state (commit manifest fwu final o f)
  unfolding commit
  commit-Open final o f c st ok =
      let n = ready_bytes final (window_used o) (o.window_base + window_used o - o.flushed) in
      let le = ready_bytes_le final (window_used o) (o.window_base + window_used o - o.flushed) in
      let l = length-window manifest fwu stored flash image o f c in
      elim (Bool-cases (n == 0)) [
        | inl z ↦ rw z (c, st, refl)
        | inr z ↦ rw z (committed-Open o f n c st (omega (arith, le, l)) (rw z at ok))
      ]

  -- The start of the flash with the manifest.
  started-Carries :
      (o : Ota) (f f' : F)
      → Carries stored image o f
      → o.started ≡ false
      → manifest ≤ window_used o
      → stored f' ≡ take manifest o.window
      → Carries stored image (record o { started = true; flushed = manifest }) f'
  started-Carries o f f' c st h e =
      let (base, none_yet) = c.fresh st in
      let l = length-window manifest fwu stored flash image o f c in
      let whole : o.cursor - o.window_base ≡ o.cursor = omega (arith, base) in
      record {
        total = c.total;
        cursor_in = c.cursor_in;
        base_in = omega (arith, base);
        flushed_in = omega (arith, base, l);
        window_is = c.window_is;
        room = c.room;
        kept = λ t.
            e
            ∙ ap (take manifest) c.window_is
            ∙ ap₂ (λ a m. take manifest (slice image a m)) base whole
            ∙ take-take manifest o.cursor image (omega (arith, base, l));
        fresh = λ t. cc t;
      }

  begun-Open :
      (started : Option ℕ × F) (final : Bool) (o : Ota) (f : F)
      → Carries stored image o f
      → o.started ≡ false
      → manifest ≤ window_used o
      → (started.0 ≡ none → stored started.1 ≡ take manifest o.window)
      → (begun manifest fwu started final o).0 ≡ hw_ok
      → Open stored image o.state (begun manifest fwu started final o)
  unfolding begun
  begun-Open (some e, f') final o f c st h s ok = cc
  begun-Open (none, f') final o f c st h s ok =
      commit-Open final (record o { started = true; flushed = manifest }) f'
        (started-Carries o f f' c st h (s refl)) refl ok

  flush_by-Open :
      (started final : Bool) (o : Ota) (f : F)
      → o.started ≡ started
      → Carries stored image o f
      → (flush_by manifest fwu started final o f).0 ≡ hw_ok
      → Open stored image o.state (flush_by manifest fwu started final o f)
  unfolding flush_by
  flush_by-Open true final o f e c ok = commit-Open final o f c e ok
  flush_by-Open false final o f e c ok = elim (Bool-cases (ltb (window_used o) manifest)) [
    | inl s ↦ let x = rw s at ok in cc x
    | inr s ↦ rw s (
        begun-Open (fwu.start f o.target (take manifest o.window)) final o f c e (ground arith)
          (λ e. flash.starts f o.target (take manifest o.window) e) (rw s at ok))
  ]

  -- A flush that succeeds writes bytes of the image behind those that are stored, and keeps the rest
  -- of what was accepted in the window; none is lost, doubled or reordered.
  pub flush-Open :
      (final : Bool) (o : Ota) (f : F)
      → Carries stored image o f
      → (flush manifest fwu final o f).0 ≡ hw_ok
      → Open stored image o.state (flush manifest fwu final o f)
  unfolding flush
  flush-Open final o f c ok = flush_by-Open o.started final o f refl c ok

  finished_ok :
      (s : Option ℕ × F) (o : Ota)
      → (finished manifest fwu s o).0 ≡ hw_ok
      → ((finished manifest fwu s o).1.state ≡ ota_staged)
        × (stored (finished manifest fwu s o).2 ≡ stored s.1)
  unfolding finished installed
  finished_ok (status, f) o ok = elim (Bool-cases (passes status fwu.success_reboot)) [
    | inr n ↦ let x = rw n at ok in cc x
    | inl y ↦ elim (Bool-cases (passes (fwu.install f).0 fwu.success_reboot)) [
      | inr n ↦ let x = rw (y, n) at ok in cc x
      | inl y2 ↦ rw (y, y2) (refl, flash.installs f)
    ]
  ]

  close_ok :
      (r : HwRv × Ota × F)
      → (close manifest fwu r).0 ≡ hw_ok
      → (r.0 ≡ hw_ok)
        × (r.1.flushed ≡ r.1.total_len)
        × ((close manifest fwu r).1.state ≡ ota_staged)
        × (stored (close manifest fwu r).2 ≡ stored r.2)
  unfolding close
  close_ok (hw_ok, o, f) ok = elim (Bool-cases (o.flushed == o.total_len)) [
    | inr n ↦ let x = rw n at ok in cc x
    | inl y ↦
        let (st, e) = finished_ok (fwu.finish f o.target) o (rw y at ok) in
        rw y (refl, ground arith, st, e ∙ flash.finishes f o.target)
  ]
  close_ok (hw_busy, o, f) ok = cc
  close_ok (hw_notimpl, o, f) ok = cc
  close_ok (hw_io, o, f) ok = cc
  close_ok (hw_inval, o, f) ok = cc
  close_ok (hw_state, o, f) ok = cc
  close_ok (hw_no_mem, o, f) ok = cc

  -- A finish that succeeds has the whole image in the flash, byte for byte, and stages it; the
  -- session had accepted all of it. The library stores what it is given.
  pub do_finish-image :
      (o : Ota) (f : F)
      → Carries stored image o f
      → (do_finish manifest fwu o f).0 ≡ hw_ok
      → (stored (do_finish manifest fwu o f).2 ≡ image)
        × (o.cursor ≡ length image)
        × ((do_finish manifest fwu o f).1.state ≡ ota_staged)
  unfolding do_finish
  do_finish-image o f c ok =
      let r = flush manifest fwu true o f in
      elim (Bool-cases (o.cursor == o.total_len)) [
        | inr n ↦ let x = rw n at ok in cc x
        | inl y ↦ elim (Bool-cases (leb o.total_len manifest)) [
          | inl s ↦ let x = rw (y, s) at ok in cc x
          | inr s ↦
              let (ok2, all, st, e) = close_ok r (rw (y, s) at ok) in
              let (c2, started, same) = flush-Open true o f c ok2 in
              let t = c.total in
              let t2 = c2.total in
              rw (y, s)
                (
                  e ∙ c2.kept started ∙ take_all r.1.flushed image (omega (arith, all, t2)),
                  ground (arith, t),
                  st,
                )
        ]
      ]
