-- ===== src/Ota/Job.antt =====
-- The jobs of hal/ti/cc3501e_hw_ti_ota.c that run behind a reply: begin, finish, flush, and the pump.
use cc3501e_bridge_firmware.Base.{
  ℕ, ◌%◌, Bool, true, false, not, ◌&&◌, ◌||◌, Option, none, some, [], leb, ◌==◌, if◌then◌else◌,
}
use cc3501e_bridge_firmware.Wire.{HwRv, hw_ok, hw_busy, hw_io, hw_inval}
use cc3501e_bridge_firmware.Ota.{
  ota_writing, ota_staged, ota_error, Op, op_idle, op_begin, op_finish, op_flush, Pending,
  pending_none, pending_candidate, pending_staged, pending_trial, pending_failed, pending_unknown,
  Ota, FwuState, ready, writing, candidate, staged, trial, updated, failed, Component, Link, Fwu,
  passes, in_flight, flush,
}

-- ota_pending_from_psa().
unfoldable pub pending_from_psa : FwuState → Pending
pending_from_psa ready = pending_none
pending_from_psa updated = pending_none
pending_from_psa candidate = pending_candidate
pending_from_psa staged = pending_staged
pending_from_psa trial = pending_trial
pending_from_psa failed = pending_failed
pending_from_psa _ = pending_unknown

module _ (manifest : ℕ) {F : Type 0} (fwu : Fwu F) where
  -- The choice of the slot that is not the primary one, where it is clear which is.
  unfoldable pub other_slot : Bool → Bool → Option ℕ
  other_slot true false = some fwu.slot_2
  other_slot false true = some fwu.slot_1
  other_slot _ _ = none

  -- The recovery of an update that was left behind, and the choice after it.
  unfoldable pub recover : F → F
  recover f =
      let f1 = fwu.clean (fwu.cancel (fwu.reject f) fwu.slot_1) fwu.slot_1 in
      fwu.clean (fwu.cancel f1 fwu.slot_2) fwu.slot_2

  unfoldable pub recovered_slot : Option Component → ℕ
  recovered_slot none = fwu.slot_2
  recovered_slot (some c) = if c.primary then fwu.slot_1 else fwu.slot_2

  unfoldable pub pick : Option ℕ → F → ℕ × F
  pick (some target) f = (target, f)
  pick none f = let (c, f') = fwu.query (recover f) fwu.slot_2 in (recovered_slot c, f')

  -- The slot is made ready.
  unfoldable pub tidy : FwuState → ℕ → F → F
  tidy ready target f = f
  tidy writing target f = fwu.clean (fwu.cancel f target) target
  tidy candidate target f = fwu.clean (fwu.cancel f target) target
  tidy staged target f = fwu.clean (fwu.reject f) target
  tidy trial target f = fwu.clean (fwu.reject f) target
  tidy _ target f = fwu.clean f target

  -- The session that a begin opens.
  unfoldable pub opened : Ota → ℕ → Ota
  opened o target = record o {
    target = target;
    total_len = o.op_total;
    cursor = 0;
    window_base = 0;
    window = [];
    flushed = 0;
    started = false;
    fail_stage = 0;
    fail_psa = 0;
    state = ota_writing;
  }

  unfoldable pub begin_on : Option Component → Ota → ℕ → F → HwRv × Ota × F
  begin_on none o target f = (hw_io, o, f)
  begin_on (some c) o target f = (hw_ok, opened o target, tidy c.state target f)

  unfoldable pub begin_with : Component → Option Component × F → Ota → HwRv × Ota × F
  begin_with i1 (none, f) o = (hw_io, o, f)
  begin_with i1 (some i2, f) o =
      let (target, f1) = pick (other_slot i1.primary i2.primary) f in
      let (c, f2) = fwu.query f1 target in begin_on c o target f2

  -- The second query is made only where the first succeeds.
  unfoldable pub begin_first : Option Component × F → Ota → HwRv × Ota × F
  begin_first (none, f) o = (hw_io, o, f)
  begin_first (some i1, f) o = begin_with i1 (fwu.query f fwu.slot_2) o

  -- ota_do_begin().
  unfoldable pub do_begin : Ota → F → HwRv × Ota × F
  do_begin o f = begin_first (fwu.query (fwu.init f) fwu.slot_1) o

  -- ota_do_finish() behind psa_fwu_finish().
  unfoldable pub installed : Option ℕ × F → Ota → HwRv × Ota × F
  installed (status, f) o =
      if passes status fwu.success_reboot then (hw_ok, record o { state = ota_staged }, f) else (
        hw_io,
        record o { fail_stage = 4; fail_psa = elim status [ none ↦ 0 | some e ↦ e % 256 ] },
        f,
      )

  unfoldable pub finished : Option ℕ × F → Ota → HwRv × Ota × F
  unfolding installed
  finished (status, f) o =
      if passes status fwu.success_reboot then installed (fwu.install f) o else (
        hw_io,
        record o { fail_stage = 3; fail_psa = elim status [ none ↦ 0 | some e ↦ e % 256 ] },
        f,
      )

  -- ota_do_finish() behind the last flush.
  unfoldable pub close : HwRv × Ota × F → HwRv × Ota × F
  unfolding finished
  close (hw_ok, o, f) =
      if o.flushed == o.total_len then finished (fwu.finish f o.target) o else (hw_io, o, f)
  close (rv, o, f) = (rv, o, f)

  -- ota_do_finish().
  unfoldable pub do_finish : Ota → F → HwRv × Ota × F
  unfolding close
  do_finish o f =
      if not (o.cursor == o.total_len) || leb o.total_len manifest
      then (hw_inval, o, f)
      else close (flush manifest fwu true o f)

  -- The `switch (ota.op)` of the pump.
  unfoldable pub run_op : Op → Ota → F → HwRv × Ota × F
  run_op op_begin o f = do_begin o f
  run_op op_finish o f = do_finish o f
  run_op op_flush o f = flush manifest fwu false o f
  run_op op_idle o f = (hw_inval, o, f)

  -- ota_pending_refresh().
  unfoldable pub pending_of : Component → Option Component → Pending
  pending_of i1 none = pending_unknown
  pending_of i1 (some i2) =
      if i1.primary && not i2.primary
      then pending_from_psa i2.state
      else if i2.primary && not i1.primary
      then pending_from_psa i1.state
      else pending_unknown

  unfoldable pub refresh_first : Option Component × F → Ota → Ota × F
  refresh_first (none, f) o = (record o { pending = pending_unknown }, f)
  refresh_first (some i1, f) o =
      let (i2, f') = fwu.query f fwu.slot_2 in (record o { pending = pending_of i1 i2 }, f')

  unfoldable pub pending_refresh : Ota → F → Ota × F
  pending_refresh o f = refresh_first (fwu.query (fwu.init f) fwu.slot_1) o

  -- A result other than OK and BUSY is an error of the session.
  unfoldable pub judged : HwRv → Ota → Ota
  judged hw_ok o = o
  judged hw_busy o = o
  judged _ o = record o { state = ota_error }

  -- Whether a finish has staged the image.
  unfoldable pub staged_now : Op → HwRv → Bool
  staged_now op_finish hw_ok = true
  staged_now _ _ = false

  module _ (link : Link F) where
    -- The bridge is ready again, where the transport is not polled.
    unfoldable pub back : Bool → F → F
    back true f = f
    back false f = link.ready f

    -- The first pass of the pump reads what is pending.
    unfoldable pub prime_by : Bool → Ota → F → Ota × F
    prime_by true o f = (o, f)
    prime_by false o f =
        let (o1, f1) = pending_refresh (record o { pending_primed = true }) (link.busy f) in
        (o1, back (link.polled f1) f1)

    unfoldable pub prime : Ota → F → Ota × F
    prime o f = prime_by o.pending_primed o f

    -- The transport is parked for a job, and brought back after it, where it is not polled.
    unfoldable pub park : Bool → F → F
    park true f = f
    park false f = link.hw_release (link.usleep (link.quiesce f true) 20000)

    unfoldable pub unpark : Bool → F → F
    unpark true f = f
    unpark false f = link.hw_reinit (link.quiesce f false)

    unfoldable pub clear_if : Bool → F → F
    clear_if true f = link.clear_polled_boot f
    clear_if false f = f

    -- The pump behind a job that returned `rc`.
    unfoldable pub pump_end : Bool → Op → HwRv × Ota × F → Ota × F
    pump_end polled op (rc, o, f) =
        let (o', f') =
          pending_refresh (judged rc o) (unpark polled (clear_if (staged_now op rc) f)) in
        (record o' { op = op_idle; rc = some rc }, back polled f')

    -- A job in flight.
    unfoldable pub pump_job : Ota → F → Ota × F
    pump_job o f =
        let polled = link.polled f in
        pump_end polled o.op (run_op o.op o (park polled (link.busy f)))

    -- cc3501e_hw_ota_pump().
    unfoldable pub ota_pump : Ota → F → Ota × F
    ota_pump o f = let (o1, f1) = prime o f in if in_flight o1 then pump_job o1 f1 else (o1, f1)
