-- ===== src/Ota/Update.antt =====
-- An update as the host drives it: begins, chunks, finishes, aborts and runs of the pump, in any order.
use cc3501e_bridge_firmware.Base.{
  ℕ, zero, suc, ◌≡◌, inr, refl, ap, sym, ◌∙◌, false, List, [], ◌∷◌, length, take, drop, slice,
}
use cc3501e_bridge_firmware.Wire.{Layout}
use cc3501e_bridge_firmware.Ota.{
  OtaState, ota_idle, ota_writing, ota_staged, ota_error, Ota, Link, Fwu, in_flight,
}
use cc3501e_bridge_firmware.Ota.Job.{ota_pump}
use cc3501e_bridge_firmware.Ota.Image.{IsFlash, length-window}
use cc3501e_bridge_firmware.Ota.Chunk.{write_in-Carries}
use cc3501e_bridge_firmware.Ota.Calls.{ota_begin, write_in, ota_write, ota_finish, ota_abort}
use cc3501e_bridge_firmware.Ota.Pump.{IsQuiet, Updates}
use cc3501e_bridge_firmware.Ota.Upload.{ota_pump-Updates}
use cc3501e_bridge_firmware.Ota.Staged.{
  write_in-Kept, ota_begin-Updates, finish_in-Updates, ota_abort-Updates,
}

take_self {ℓ} : {A : Type ℓ} (n : ℕ) (xs : List A) → take n xs ≡ take (length (take n xs)) xs
take_self zero xs = refl
take_self (suc n) [] = refl
take_self (suc n) (x ∷ xs) = ap (λ t. x ∷ t) (take_self n xs)

-- What the host and the main loop do in an update of one image: the host writes slices of it.
pub data Act : Type 0 where
  begin finish abort pump : Act
  write : ℕ → ℕ → Act

module _ (manifest : ℕ) {F : Type 0} (fwu : Fwu F) (link : Link F) (w : Layout)
    (image : List ℕ) where
  -- One of them, as the calls of the firmware.
  abbrev pub act : Act → Ota × F → Ota × F
  act begin (o, f) = ((ota_begin manifest o (length image)).1, f)
  act (write offset n) (o, f) = ((ota_write w manifest o offset (slice image offset n)).1, f)
  act finish (o, f) = ((ota_finish o).1, f)
  act abort (o, f) = ((ota_abort o).1, f)
  act pump (o, f) = ota_pump manifest fwu link o f

  abbrev pub run : List Act → Ota × F → Ota × F
  run [] s = s
  run (a ∷ more) s = run more (act a s)

module _ (manifest : ℕ) {F : Type 0} (fwu : Fwu F) (link : Link F) (stored : F → List ℕ)
    (flash : IsFlash fwu stored) (quiet : IsQuiet fwu link stored) (image : List ℕ) where
  written-Updates :
      (st : OtaState) (w : Layout) (o : Ota) (f : F) (offset : ℕ) (payload : List ℕ)
      → o.state ≡ st
      → payload ≡ slice image offset (length payload)
      → Updates stored image o f
      → Updates stored image (write_in st w manifest o offset payload).1 f
  unfolding write_in ota_write
  written-Updates ota_writing w o f offset payload e p u =
      let c = u.held e in
      let k =
        write_in-Kept image ota_writing ota_writing w manifest o offset payload (e, u.begins) in
      let next =
        write_in-Carries stored image ota_writing w manifest o f offset payload c
          (length-window manifest fwu stored flash image o f c) p in
      record {
        held = λ x. next;
        done = λ x. let y = sym k.0 ∙ x in cc y;
        begins = k.1;
        works = λ i. inr (inr k.0);
      }
  written-Updates ota_idle w o f offset payload e p u = u
  written-Updates ota_staged w o f offset payload e p u = u
  written-Updates ota_error w o f offset payload e p u = u

  act-Updates :
      (w : Layout) (a : Act) (o : Ota) (f : F)
      → Updates stored image o f
      → let r = act manifest fwu link w image a (o, f) in Updates stored image r.0 r.1
  unfolding ota_write ota_finish
  act-Updates w begin o f u = ota_begin-Updates stored image manifest o f u
  act-Updates w finish o f u = finish_in-Updates stored image o.state o f refl u
  act-Updates w abort o f u = ota_abort-Updates stored image o f
  act-Updates w pump o f u = ota_pump-Updates manifest fwu link stored flash quiet image o f u
  act-Updates w (write offset n) o f u =
      written-Updates o.state w o f offset (slice image offset n) refl
        (take_self n (drop offset image)) u

  run-Updates :
      (w : Layout) (acts : List Act) (o : Ota) (f : F)
      → Updates stored image o f
      → let r = run manifest fwu link w image acts (o, f) in Updates stored image r.0 r.1
  run-Updates w [] o f u = u
  run-Updates w (a ∷ more) o f u =
      let r = act manifest fwu link w image a (o, f) in
      run-Updates w more r.0 r.1 (act-Updates w a o f u)

  -- Whatever the host does in an update of one image, in whatever order and however often it begins,
  -- writes slices of it at any offset, finishes or aborts, and whenever the pump runs and the library
  -- fails: if the update ends up staged, the image is in the flash, whole and byte for byte. The
  -- update starts idle, with no job in flight; the library stores what it is given.
  pub ota_run-image :
      (w : Layout) (acts : List Act) (o : Ota) (f : F)
      → o.state ≡ ota_idle
      → in_flight o ≡ false
      → (run manifest fwu link w image acts (o, f)).0.state ≡ ota_staged
      → stored (run manifest fwu link w image acts (o, f)).1 ≡ image
  ota_run-image w acts o f i n s =
      (run-Updates w acts o f (record {
        held = λ x. let y = sym i ∙ x in cc y;
        done = λ x. let y = sym i ∙ x in cc y;
        begins = λ x e. let y = sym n ∙ x in cc y;
        works = λ x. let y = sym n ∙ x in cc y;
      })).done
        s
