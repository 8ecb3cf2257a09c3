-- ===== src/Ota.antt =====
-- hal/ti/cc3501e_hw_ti_ota.c: the window of an update, the jobs that empty it into the flash, and
-- the calls that the handlers of src/protocol_ota.c make.
pub mod Job
pub mod Calls
pub mod Image
pub mod Flush
pub mod Chunk
pub mod Outcome
pub mod Pump
pub mod Upload
pub mod Staged
pub mod Update
pub mod Room
mod Tests
use cc3501e_bridge_firmware.Base.{
  ℕ, zero, suc, ◌+◌, ◌-◌, ◌*◌, ◌/◌, ◌%◌, ◌^◌, Bool, true, false, not, ◌&&◌, ◌||◌, Option, none,
  some, List, [], ◌∷◌, ◌++◌, ltb, leb, ◌==◌, if◌then◌else◌, length, take, drop, slice, overwrite,
}
use cc3501e_bridge_firmware.Wire.{HwRv, hw_ok, hw_busy, hw_io, hw_inval, Layout}

-- CC3501E_OTA_IMAGE_MAX, CC3501E_OTA_FINISH_FLASH_BLOCK and CC3501E_OTA_WINDOW.
abbrev pub image_max : ℕ
image_max = 2097152

abbrev pub flash_block : ℕ
flash_block = 4096

abbrev pub ota_window : ℕ
ota_window = 16384

-- ALP_CC3501E_OTA_STATE_*, and OTA_OP_*.
pub data OtaState : Type 0 where
  ota_idle ota_writing ota_staged ota_error : OtaState

pub data Op : Type 0 where
  op_idle op_begin op_finish op_flush : Op

-- ALP_CC3501E_OTA_PENDING_*.
pub data Pending : Type 0 where
  pending_none pending_candidate pending_staged pending_trial pending_failed : Pending
  pending_unknown : Pending

-- The record `ota`, and the variables beside it from `pending_primed` on. `rc` is op_rc, with none for OTA_OP_INFLIGHT; `window` holds the bytes
-- window[0 .. window_used).
pub record Ota : Type 0 where
  pub state : OtaState
  pub target : ℕ
  pub total_len : ℕ
  pub cursor : ℕ
  pub op : Op
  pub rc : Option HwRv
  pub op_total : ℕ
  pub fail_stage : ℕ
  pub fail_psa : ℕ
  pub window_base : ℕ
  pub flushed : ℕ
  pub started : Bool
  pub window : List ℕ
  pub pending_primed : Bool
  pub pending : Pending
  pub reply_drained : Bool
  pub reboot_pending : Bool

abbrev pub window_used : Ota → ℕ
window_used o = length o.window

-- psa_fwu_state, the states that the file names, and a component as psa_fwu_query() describes it.
pub data FwuState : Type 0 where
  ready writing candidate staged trial updated failed undefined : FwuState

pub record Component : Type 0 where
  pub primary : Bool
  pub state : FwuState

-- What the pump asks of the transport and of the bridge.
pub record Link (F : Type 0) : Type 0 where
  pub busy : F → F
  pub ready : F → F
  pub polled : F → Bool
  pub quiesce : F → Bool → F
  pub usleep : F → ℕ → F
  pub hw_release : F → F
  pub hw_reinit : F → F
  pub clear_polled_boot : F → F

-- The PSA firmware-update library of TI's SDK. A call of it returns none for PSA_SUCCESS, or the
-- status; psa_fwu_finish() and psa_fwu_install() may also return PSA_SUCCESS_REBOOT. The slots are
-- Vendor_Image_Slot_1 and Vendor_Image_Slot_2.
pub record Fwu (F : Type 0) : Type 0 where
  pub slot_1 : ℕ
  pub slot_2 : ℕ
  pub success_reboot : ℕ
  pub init : F → F
  pub query : F → ℕ → Option Component × F
  pub reject : F → F
  pub cancel : F → ℕ → F
  pub clean : F → ℕ → F
  pub start : F → ℕ → List ℕ → Option ℕ × F
  pub write : F → ℕ → ℕ → List ℕ → Option ℕ × F
  pub finish : F → ℕ → Option ℕ × F
  pub install : F → Option ℕ × F

-- ota_submit().
unfoldable pub in_flight : Ota → Bool
in_flight o = elim o.rc [ none ↦ true | some rv ↦ false ]

unfoldable pub submit : Ota → Op → HwRv × Ota
submit o op = if in_flight o then (hw_busy, o) else (hw_busy, record o { op = op; rc = none })

-- A status of the library, with PSA_SUCCESS_REBOOT as a success.
abbrev pub passes : Option ℕ → ℕ → Bool
passes none reboot = true
passes (some status) reboot = status == reboot

-- The bytes that a flush commits: all that are ready, or whole blocks of them; where none is whole
-- and the window is full, all of them.
unfoldable pub ready_bytes : Bool → ℕ → ℕ → ℕ
ready_bytes final used n =
    let whole = n / flash_block * flash_block in
    if final then n else if whole == 0 && leb ota_window used then n else whole

-- TI_FWU_MANIFEST_SIZE is a parameter.
module _ (manifest : ℕ) {F : Type 0} (fwu : Fwu F) where
  -- The loop of ota_flush(), by blocks from `off` on, on fuel: none where all of them were written,
  -- or the status of the first write that was not.
  unfoldable pub after_block : Option ℕ × F → Option ℕ × F → Option ℕ × F
  after_block (none, f) rest = rest
  after_block (some e, f) rest = (some e, f)

  unfoldable pub write_blocks : ℕ → F → ℕ → ℕ → List ℕ → Option ℕ × F
  unfolding after_block
  write_blocks zero f target off bytes = (none, f)
  write_blocks (suc fuel) f target off bytes =
      let block = take flash_block bytes in
      let written = fwu.write f target off block in
      let rest = write_blocks fuel written.1 target (off + length block) (drop flash_block bytes) in
      if length bytes == 0 then (none, f) else after_block written rest

  -- ota_flush() behind the loop: the `n` bytes are committed, or the write that failed is noted.
  unfoldable pub committed : Option ℕ × F → Ota → ℕ → HwRv × Ota × F
  committed (some e, f) o n = (hw_io, record o { fail_stage = 2; fail_psa = e % 256 }, f)
  committed (none, f) o n = (
    hw_ok,
    record o {
      flushed = o.flushed + n;
      window = drop (o.flushed + n - o.window_base) o.window;
      window_base = o.flushed + n;
    },
    f,
  )

  -- ota_flush() behind psa_fwu_start(). A round of the loop writes a byte at least, so `n` rounds are
  -- enough.
  unfoldable pub commit : Bool → Ota → F → HwRv × Ota × F
  unfolding write_blocks committed
  commit final o f =
      let end = o.window_base + window_used o in
      let n = ready_bytes final (window_used o) (end - o.flushed) in
      let bytes = slice o.window (o.flushed - o.window_base) n in
      if n == 0 then (hw_ok, o, f) else committed (write_blocks n f o.target o.flushed bytes) o n

  unfoldable pub begun : Option ℕ × F → Bool → Ota → HwRv × Ota × F
  unfolding commit
  begun (some e, f) final o = (hw_io, record o { fail_stage = 1; fail_psa = e % 256 }, f)
  begun (none, f) final o = commit final (record o { started = true; flushed = manifest }) f

  -- ota_flush(), by whether the flash is open.
  unfoldable pub flush_by : Bool → Bool → Ota → F → HwRv × Ota × F
  unfolding commit begun
  flush_by true final o f = commit final o f
  flush_by false final o f =
      if ltb (window_used o) manifest
      then (hw_inval, record o { fail_stage = 5 }, f)
      else begun (fwu.start f o.target (take manifest o.window)) final o

  -- ota_flush().
  unfoldable pub flush : Bool → Ota → F → HwRv × Ota × F
  unfolding flush_by
  flush final o f = flush_by o.started final o f
