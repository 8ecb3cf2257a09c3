-- ===== src/Ota/Room.antt =====
-- A flush makes room for a chunk that the window had none for.
use cc3501e_bridge_firmware.Base.{
  ℕ, ◌+◌, ◌-◌, ◌≤◌, ◌<◌, ◌≡◌, inl, inr, refl, Bool, true, false, Option, none, some, List, ltb,
  ◌==◌, length, take, slice, length-drop, Bool-cases, arith,
}
use cc3501e_bridge_firmware.Wire.{HwRv, hw_ok}
use cc3501e_bridge_firmware.Ota.{
  flash_block, ota_window, Ota, window_used, Fwu, ready_bytes, write_blocks, committed, commit,
  begun, flush_by, flush,
}
use cc3501e_bridge_firmware.Ota.Image.{committed_ok}

-- What a flush that is not the last leaves of the bytes that are ready is less than a block.
ready_bytes_left : (used n : ℕ) → n - ready_bytes false used n < flash_block
unfolding ready_bytes
ready_bytes_left used n = ground arith

-- The window holds the manifest at most in front of what is not written yet.
abbrev pub HasRoom : ℕ → Ota → Type 0
HasRoom manifest o =
    (o.window_base ≤ o.flushed)
    × (o.flushed ≤ o.window_base + manifest)
    × (o.flushed ≤ o.window_base + window_used o)

module _ (manifest : ℕ) {F : Type 0} (fwu : Fwu F) where
  -- Less than the manifest and a block are left.
  abbrev Emptied : HwRv × Ota × F → Type 0
  Emptied r = HasRoom manifest r.1 × (window_used r.1 < manifest + flash_block)

  committed-Emptied :
      (w : Option ℕ × F) (o : Ota)
      → HasRoom manifest o
      → let n = ready_bytes false (window_used o) (o.window_base + window_used o - o.flushed) in
        (committed manifest fwu w o n).0 ≡ hw_ok → Emptied (committed manifest fwu w o n)
  committed-Emptied w o (base, gap, inside) ok =
      let m = o.window_base + window_used o - o.flushed in
      let n = ready_bytes false (window_used o) m in
      let (written, e-o, e-f) = committed_ok manifest fwu w o n ok in
      let left = ready_bytes_left (window_used o) m in
      let l = length-drop (o.flushed + n - o.window_base) o.window in
      rw e-o ((omega arith, omega arith, omega arith), omega (arith, l, left))

  commit-Emptied :
      (o : Ota) (f : F)
      → HasRoom manifest o
      → (commit manifest fwu false o f).0 ≡ hw_ok
      → Emptied (commit manifest fwu false o f)
  unfolding commit
  commit-Emptied o f r ok =
      let m = o.window_base + window_used o - o.flushed in
      let n = ready_bytes false (window_used o) m in
      let bytes = slice o.window (o.flushed - o.window_base) n in
      let left = ready_bytes_left (window_used o) m in
      elim (Bool-cases (n == 0)) [
        | inl z ↦ let z' : n ≡ 0 = ground arith in rw z (r, omega (arith, r.0, r.1, r.2, left, z'))
        | inr z ↦ rw z (
            committed-Emptied (write_blocks manifest fwu n f o.target o.flushed bytes) o r
              (rw z at ok))
      ]

  begun-Emptied :
      (s : Option ℕ × F) (o : Ota)
      → o.window_base ≡ 0
      → manifest ≤ window_used o
      → (begun manifest fwu s false o).0 ≡ hw_ok
      → Emptied (begun manifest fwu s false o)
  unfolding begun
  begun-Emptied (some e, f) o b h ok = cc
  begun-Emptied (none, f) o b h ok =
      commit-Emptied (record o { started = true; flushed = manifest }) f
        (omega (arith, b), omega (arith, b), omega (arith, b, h)) ok

  flush_by-Emptied :
      (started : Bool) (o : Ota) (f : F)
      → HasRoom manifest o
      → (started ≡ false → o.window_base ≡ 0)
      → (flush_by manifest fwu started false o f).0 ≡ hw_ok
      → Emptied (flush_by manifest fwu started false o f)
  unfolding flush_by
  flush_by-Emptied true o f r b ok = commit-Emptied o f r ok
  flush_by-Emptied false o f r b ok = elim (Bool-cases (ltb (window_used o) manifest)) [
    | inl s ↦ let x = rw s at ok in cc x
    | inr s ↦ rw s (
        begun-Emptied (fwu.start f o.target (take manifest o.window)) o (b refl) (ground arith)
          (rw s at ok))
  ]

  -- After a flush that succeeds the window has room for a chunk, so a chunk that was put off is taken
  -- when it comes again: the chunk, the manifest and a block of the flash fit the window together.
  -- The window has the manifest at most in front of what is not written, and keeps it so.
  pub flush_makes_room :
      (o : Ota) (f : F) (payload : List ℕ)
      → HasRoom manifest o
      → (o.started ≡ false → o.window_base ≡ 0)
      → length payload + manifest + flash_block ≤ ota_window
      → (flush manifest fwu false o f).0 ≡ hw_ok
      → (length payload ≤ ota_window - window_used (flush manifest fwu false o f).1)
        × HasRoom manifest (flush manifest fwu false o f).1
  unfolding flush
  flush_makes_room o f payload r b h ok =
      let (kept, few) = flush_by-Emptied o.started o f r b ok in (omega (arith, few), kept)
