-- ===== src/Ota/Image.antt =====
-- What is in the flash: the blocks that a flush writes are the image's, in order and whole.
use cc3501e_bridge_firmware.Base.{
  ℕ, zero, suc, ◌+◌, ◌-◌, ◌≤◌, ◌≡◌, inl, inr, refl, ap, ap₂, sym, ◌∙◌, Bool, true, false, Option,
  none, some, List, [], ◌∷◌, ◌++◌, append-nil, append_assoc, ◌==◌, length, take, drop, slice,
  take-append-drop, take-append_take, length-drop, length-slice, length-append, slice-slice,
  drop-slice, Bool-cases, arith,
}
use cc3501e_bridge_firmware.Wire.{hw_ok}
use cc3501e_bridge_firmware.Ota.{
  flash_block, ota_window, Ota, Fwu, ready_bytes, after_block, write_blocks, committed,
}

-- The library as the update relies on it. `stored` is what an update has put into its slot: a start
-- stores the manifest, and a write behind the bytes that are there appends to them. To finish
-- and to install change nothing of it.
pub record IsFlash {F : Type 0} (fwu : Fwu F) (stored : F → List ℕ) : Type 0 where
  pub starts :
      (f : F) (target : ℕ) (bytes : List ℕ)
      → (fwu.start f target bytes).0 ≡ none
      → stored (fwu.start f target bytes).1 ≡ bytes
  pub writes :
      (f : F) (target off : ℕ) (bytes : List ℕ)
      → (fwu.write f target off bytes).0 ≡ none
      → off ≡ length (stored f)
      → stored (fwu.write f target off bytes).1 ≡ stored f ++ bytes
  pub finishes : (f : F) (target : ℕ) → stored (fwu.finish f target).1 ≡ stored f
  pub installs : (f : F) → stored (fwu.install f).1 ≡ stored f

-- The session holds a part of the image: what is stored, what waits in the window, and no more.
pub record Carries {F : Type 0} (stored : F → List ℕ) (image : List ℕ) (o : Ota) (f : F)
    : Type 0 where
  pub total : o.total_len ≡ length image
  pub cursor_in : o.cursor ≤ o.total_len
  pub base_in : o.window_base ≤ o.flushed
  pub flushed_in : o.flushed ≤ o.cursor
  pub window_is : o.window ≡ slice image o.window_base (o.cursor - o.window_base)
  pub room : length o.window ≤ ota_window
  pub kept : o.started ≡ true → stored f ≡ take o.flushed image
  pub fresh : o.started ≡ false → (o.window_base ≡ 0) × (o.flushed ≡ 0)

pub ready_bytes_le : (final : Bool) (used n : ℕ) → ready_bytes final used n ≤ n
unfolding ready_bytes
ready_bytes_le final used n = ground arith

nothing_left : (xs bytes : List ℕ) → length bytes ≤ 0 → xs ≡ xs ++ bytes
nothing_left xs [] h = sym (append-nil xs)
nothing_left xs (b ∷ bs) h = absurd (omega arith)

module _ (manifest : ℕ) {F : Type 0} (fwu : Fwu F) where
  after_block-none :
      (w rest : Option ℕ × F)
      → (after_block manifest fwu w rest).0 ≡ none
      → (w.0 ≡ none) × (after_block manifest fwu w rest ≡ rest)
  unfolding after_block
  after_block-none (none, f) rest h = (refl, refl)
  after_block-none (some e, f) rest h = cc

  pub committed_ok :
      (w : Option ℕ × F) (o : Ota) (n : ℕ)
      → (committed manifest fwu w o n).0 ≡ hw_ok
      → (w.0 ≡ none)
        × ((committed manifest fwu w o n).1 ≡ record o {
          flushed = o.flushed + n;
          window = drop (o.flushed + n - o.window_base) o.window;
          window_base = o.flushed + n;
        })
        × ((committed manifest fwu w o n).2 ≡ w.1)
  unfolding committed
  committed_ok (none, f) o n h = (refl, refl, refl)
  committed_ok (some e, f) o n h = cc

  module _ (stored : F → List ℕ) (flash : IsFlash fwu stored) where
    pub write_blocks-stored :
        (fuel : ℕ) (f : F) (target off : ℕ) (bytes : List ℕ)
        → length bytes ≤ fuel
        → off ≡ length (stored f)
        → (write_blocks manifest fwu fuel f target off bytes).0 ≡ none
        → stored (write_blocks manifest fwu fuel f target off bytes).1 ≡ stored f ++ bytes
    unfolding write_blocks
    write_blocks-stored zero f target off bytes h e r = nothing_left (stored f) bytes (omega arith)
    write_blocks-stored (suc fuel) f target off bytes h e r =
        let block = take flash_block bytes in
        let left = drop flash_block bytes in
        let w = fwu.write f target off block in
        let rest = write_blocks manifest fwu fuel w.1 target (off + length block) left in
        elim (Bool-cases (length bytes == 0)) [
          | inl z ↦ rw z (nothing_left (stored f) bytes (ground arith))
          | inr z ↦
              let (written, same) = after_block-none w rest (rw z at r) in
              let now = flash.writes f target off block written e in
              let rest-none : rest.0 ≡ none =
                ap (λ (x : Option ℕ × F). x.0) (sym same) ∙ (rw z at r) in
              let rec =
                write_blocks-stored fuel w.1 target (off + length block) left
                  (ground (arith, length-drop flash_block bytes))
                  (sym (
                    ap length now
                    ∙ length-append (stored f) block
                    ∙ ap (λ n. n + length block) (sym e)))
                  rest-none in
              rw z (
                ap (λ (x : Option ℕ × F). stored x.1) same
                ∙ rec
                ∙ ap (λ xs. xs ++ left) now
                ∙ append_assoc (stored f) block left
                ∙ ap (λ xs. stored f ++ xs) (take-append-drop flash_block bytes))
        ]

    -- The bytes that are ready in the window are the image's from `flushed` on.
    pub window-ready :
        (image : List ℕ) (o : Ota) (f : F) (n : ℕ)
        → Carries stored image o f
        → n ≤ o.cursor - o.flushed
        → slice o.window (o.flushed - o.window_base) n ≡ slice image o.flushed n
    window-ready image o f n c h =
        let b = c.base_in in
        let i = c.flushed_in in
        let at : o.window_base + (o.flushed - o.window_base) ≡ o.flushed = omega arith in
        ap (λ xs. slice xs (o.flushed - o.window_base) n) c.window_is
        ∙ slice-slice o.window_base (o.cursor - o.window_base) (o.flushed - o.window_base) n image
            (omega arith)
        ∙ ap (λ a. slice image a n) at

    pub length-window :
        (image : List ℕ) (o : Ota) (f : F)
        → Carries stored image o f
        → o.window_base + length o.window ≡ o.cursor
    length-window image o f c =
        let b = c.base_in in
        let i = c.flushed_in in
        let t = c.total in
        let k = c.cursor_in in
        let l = length-slice image o.window_base (o.cursor - o.window_base) (omega arith) in
        let w = ap length c.window_is in omega (arith, w, l)

    -- What a commit of `n` bytes leaves.
    abbrev pub moved : Ota → ℕ → Ota
    moved o n = record o {
      flushed = o.flushed + n;
      window = drop (o.flushed + n - o.window_base) o.window;
      window_base = o.flushed + n;
    }

    pub moved-Carries :
        (image : List ℕ) (o : Ota) (f f' : F) (n : ℕ)
        → Carries stored image o f
        → o.started ≡ true
        → n ≤ o.cursor - o.flushed
        → stored f' ≡ stored f ++ slice image o.flushed n
        → Carries stored image (moved o n) f'
    moved-Carries image o f f' n c st h e =
        let b = c.base_in in
        let i = c.flushed_in in
        let k = c.room in
        let gone = o.flushed + n - o.window_base in
        let at : o.window_base + gone ≡ o.flushed + n = omega arith in
        let left : o.cursor - o.window_base - gone ≡ o.cursor - (o.flushed + n) = omega arith in
        record {
          total = c.total;
          cursor_in = c.cursor_in;
          base_in = omega arith;
          flushed_in = omega arith;
          window_is =
              ap (drop gone) c.window_is
              ∙ drop-slice o.window_base (o.cursor - o.window_base) gone image
              ∙ ap₂ (λ a m. slice image a m) at left;
          room = omega (arith, length-drop gone o.window);
          kept = λ t.
              e
              ∙ ap (λ xs. xs ++ slice image o.flushed n) (c.kept st)
              ∙ sym (take-append_take o.flushed n image);
          fresh = λ t. let x = sym st ∙ t in cc x;
        }
