-- ===== src/Ota/Outcome.antt =====
-- How the jobs of an update end.
use cc3501e_bridge_firmware.Base.{
  ℕ, ◌+◌, ◌-◌, ◌≡◌, ◌⊎◌, inl, inr, refl, Bool, true, false, not, ◌||◌, Option, none, some, ltb, leb,
  ◌==◌, take, slice, Bool-cases,
}
use cc3501e_bridge_firmware.Wire.{
  HwRv, hw_ok, hw_busy, hw_notimpl, hw_io, hw_inval, hw_state, hw_no_mem,
}
use cc3501e_bridge_firmware.Ota.{
  Ota, window_used, Component, Fwu, passes, write_blocks, committed, commit, begun, flush_by, flush,
  ready_bytes,
}
use cc3501e_bridge_firmware.Ota.Job.{
  opened, begin_on, begin_with, begin_first, do_begin, installed, finished, close, do_finish,
}

-- A job of an update ends well, or with an error that is not BUSY.
abbrev pub Ends : {F : Type 0} → HwRv × Ota × F → Type 0
Ends r = (r.0 ≡ hw_ok) ⊎ (r.0 ≡ hw_io) ⊎ (r.0 ≡ hw_inval)

module _ (manifest : ℕ) {F : Type 0} (fwu : Fwu F) where
  committed-Ends : (w : Option ℕ × F) (o : Ota) (n : ℕ) → Ends (committed manifest fwu w o n)
  unfolding committed
  committed-Ends (none, f) o n = inl refl
  committed-Ends (some e, f) o n = inr (inl refl)

  commit-Ends : (final : Bool) (o : Ota) (f : F) → Ends (commit manifest fwu final o f)
  unfolding commit
  commit-Ends final o f =
      let n = ready_bytes final (window_used o) (o.window_base + window_used o - o.flushed) in
      let bytes = slice o.window (o.flushed - o.window_base) n in
      elim (Bool-cases (n == 0)) [
        | inl z ↦ rw z (inl refl)
        | inr z ↦ rw z (committed-Ends (write_blocks manifest fwu n f o.target o.flushed bytes) o n)
      ]

  begun-Ends : (s : Option ℕ × F) (final : Bool) (o : Ota) → Ends (begun manifest fwu s final o)
  unfolding begun
  begun-Ends (none, f) final o = commit-Ends final _ f
  begun-Ends (some e, f) final o = inr (inl refl)

  flush_by-Ends : (s final : Bool) (o : Ota) (f : F) → Ends (flush_by manifest fwu s final o f)
  unfolding flush_by
  flush_by-Ends true final o f = commit-Ends final o f
  flush_by-Ends false final o f = elim (Bool-cases (ltb (window_used o) manifest)) [
    | inl s ↦ rw s (inr (inr refl))
    | inr s ↦ rw s (begun-Ends (fwu.start f o.target (take manifest o.window)) final o)
  ]

  pub flush-Ends : (final : Bool) (o : Ota) (f : F) → Ends (flush manifest fwu final o f)
  unfolding flush
  flush-Ends final o f = flush_by-Ends o.started final o f

  installed-Ends : (s : Option ℕ × F) (o : Ota) → Ends (installed manifest fwu s o)
  unfolding installed
  installed-Ends (status, f) o = elim (Bool-cases (passes status fwu.success_reboot)) [
    | inl y ↦ rw y (inl refl)
    | inr n ↦ rw n (inr (inl refl))
  ]

  finished-Ends : (s : Option ℕ × F) (o : Ota) → Ends (finished manifest fwu s o)
  unfolding finished
  finished-Ends (status, f) o = elim (Bool-cases (passes status fwu.success_reboot)) [
    | inl y ↦ rw y (installed-Ends (fwu.install f) o)
    | inr n ↦ rw n (inr (inl refl))
  ]

  close-Ends : (r : HwRv × Ota × F) → Ends r → Ends (close manifest fwu r)
  unfolding close
  close-Ends (hw_ok, o, f) e = elim (Bool-cases (o.flushed == o.total_len)) [
    | inl y ↦ rw y (finished-Ends (fwu.finish f o.target) o)
    | inr n ↦ rw n (inr (inl refl))
  ]
  close-Ends (hw_busy, o, f) e = e
  close-Ends (hw_notimpl, o, f) e = e
  close-Ends (hw_io, o, f) e = e
  close-Ends (hw_inval, o, f) e = e
  close-Ends (hw_state, o, f) e = e
  close-Ends (hw_no_mem, o, f) e = e

  pub do_finish-Ends : (o : Ota) (f : F) → Ends (do_finish manifest fwu o f)
  unfolding do_finish
  do_finish-Ends o f =
      elim (Bool-cases (not (o.cursor == o.total_len) || leb o.total_len manifest)) [
        | inl y ↦ rw y (inr (inr refl))
        | inr n ↦ rw n (close-Ends (flush manifest fwu true o f) (flush-Ends true o f))
      ]

  -- A begin opens the session with the length that was asked for, or fails.
  abbrev pub Begins : Ota → HwRv × Ota × F → Type 0
  Begins o r = ((target : ℕ) × (r.0 ≡ hw_ok) × (r.1 ≡ opened manifest fwu o target)) ⊎ (r.0 ≡ hw_io)

  begin_on-Begins :
      (c : Option Component) (o : Ota) (target : ℕ) (f : F)
      → Begins o (begin_on manifest fwu c o target f)
  unfolding begin_on
  begin_on-Begins none o target f = inr refl
  begin_on-Begins (some c) o target f = inl (target, refl, refl)

  begin_with-Begins :
      (i1 : Component) (i2 : Option Component × F) (o : Ota)
      → Begins o (begin_with manifest fwu i1 i2 o)
  unfolding begin_with
  begin_with-Begins i1 (none, f) o = inr refl
  begin_with-Begins i1 (some i2, f) o = begin_on-Begins _ o _ _

  begin_first-Begins :
      (i1 : Option Component × F) (o : Ota) → Begins o (begin_first manifest fwu i1 o)
  unfolding begin_first
  begin_first-Begins (none, f) o = inr refl
  begin_first-Begins (some i1, f) o = begin_with-Begins i1 (fwu.query f fwu.slot_2) o

  pub do_begin-Begins : (o : Ota) (f : F) → Begins o (do_begin manifest fwu o f)
  unfolding do_begin
  do_begin-Begins o f = begin_first-Begins (fwu.query (fwu.init f) fwu.slot_1) o
