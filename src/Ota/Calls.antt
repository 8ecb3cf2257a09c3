-- ===== src/Ota/Calls.antt =====
-- The calls of hal/ti/cc3501e_hw_ti_ota.c that the handlers of src/protocol_ota.c make.
use cc3501e_bridge_firmware.Base.{
  ℕ, ◌+◌, ◌-◌, Bool, true, false, not, ◌&&◌, ◌||◌, some, List, [], ◌++◌, ltb, leb, ◌==◌,
  if◌then◌else◌, length,
}
use cc3501e_bridge_firmware.Wire.{HwRv, hw_ok, hw_busy, hw_inval, Layout}
use cc3501e_bridge_firmware.Ota.{
  image_max, ota_window, OtaState, ota_idle, ota_writing, ota_staged, ota_error, op_idle, op_begin,
  op_finish, op_flush, Ota, window_used, Link, in_flight, submit,
}

-- cc3501e_hw_ota_begin() behind its guards, by the state.
unfoldable pub begin_in : OtaState → Ota → ℕ → HwRv × Ota
begin_in ota_writing o total_len =
    if total_len == o.total_len && o.cursor == 0 then (hw_ok, o) else (hw_inval, o)
begin_in ota_error o total_len =
    submit (record o { state = ota_idle; rc = some hw_ok; op_total = total_len }) op_begin
begin_in _ o total_len = submit (record o { op_total = total_len }) op_begin

-- cc3501e_hw_ota_begin(). `manifest` is TI_FWU_MANIFEST_SIZE.
unfoldable pub ota_begin : ℕ → Ota → ℕ → HwRv × Ota
ota_begin manifest o total_len =
    if leb total_len manifest || ltb image_max total_len
    then (hw_inval, o)
    else if in_flight o
    then (hw_busy, o)
    else begin_in o.state o total_len

-- The end of cc3501e_hw_ota_write(): the first bytes open the flash as soon as the manifest is in.
unfoldable pub appended : ℕ → Ota → HwRv × Ota
appended manifest o =
    if not o.started && leb manifest (window_used o) then submit o op_flush else (hw_ok, o)

-- The guards of cc3501e_hw_ota_write() in the state WRITING.
unfoldable pub write_chunk : ℕ → Ota → ℕ → List ℕ → HwRv × Ota
unfolding appended
write_chunk manifest o offset payload =
    let len = length payload in
    if in_flight o
    then (hw_busy, o)
    else if leb (offset + len) o.cursor
    then (hw_ok, o)
    else if not (offset == o.cursor)
    then (hw_inval, o)
    else if ltb o.total_len (offset + len)
    then (hw_inval, o)
    else if ltb (ota_window - window_used o) len
    then submit o op_flush
    else appended manifest (record o { window = o.window ++ payload; cursor = o.cursor + len })

unfoldable pub write_in : OtaState → Layout → ℕ → Ota → ℕ → List ℕ → HwRv × Ota
unfolding write_chunk
write_in ota_writing w manifest o offset payload =
    if length payload == 0 || ltb w.ota_max_chunk (length payload)
    then (hw_inval, o)
    else write_chunk manifest o offset payload
write_in _ w manifest o offset payload = (hw_inval, o)

-- cc3501e_hw_ota_write() of data that are not NULL.
unfoldable pub ota_write : Layout → ℕ → Ota → ℕ → List ℕ → HwRv × Ota
unfolding write_in
ota_write w manifest o offset payload = write_in o.state w manifest o offset payload

-- cc3501e_hw_ota_finish(), by the state.
unfoldable pub finish_in : OtaState → Ota → HwRv × Ota
finish_in ota_staged o = (hw_ok, o)
finish_in ota_writing o = submit o op_finish
finish_in _ o = (hw_inval, o)

unfoldable pub ota_finish : Ota → HwRv × Ota
ota_finish o = finish_in o.state o

-- cc3501e_hw_ota_abort().
unfoldable pub ota_abort : Ota → HwRv × Ota
ota_abort o = (
  hw_ok,
  record o {
    state = ota_idle;
    cursor = 0;
    total_len = 0;
    window_base = 0;
    window = [];
    flushed = 0;
    started = false;
    fail_stage = 0;
    fail_psa = 0;
    op = op_idle;
    rc = some hw_ok;
  },
)

-- cc3501e_hw_ota_promote().
pub ota_promote : {F : Type 0} → Link F → Ota → F → HwRv × Ota × F
ota_promote link o f =
    (hw_ok, record o { reply_drained = false; reboot_pending = true }, link.clear_polled_boot f)

-- cc3501e_hw_ota_flush_pending(), cc3501e_hw_ota_status() and cc3501e_hw_ota_fault().
pub ota_flush_pending : Ota → Bool
ota_flush_pending o = in_flight o

pub ota_status : Ota → HwRv × OtaState × ℕ × ℕ
ota_status o = (hw_ok, o.state, o.cursor, o.total_len)

pub ota_fault : Ota → ℕ × ℕ
ota_fault o = (o.fail_stage, o.fail_psa)
