-- ===== src/Ota/Tests.antt =====
-- An update of five bytes behind a manifest of two.
use cc3501e_bridge_firmware.Base.{
  ℕ, ◌-◌, ◌≤◌, ◌≡◌, refl, false, none, some, List, [], ◌∷◌, ◌++◌, length, ◌==◌, arith,
}
use cc3501e_bridge_firmware.Wire.{hw_ok}
use cc3501e_bridge_firmware.Fixture.{layout}
use cc3501e_bridge_firmware.Ota.{
  ota_idle, ota_writing, ota_staged, op_idle, pending_none, Ota, ready, Link, Fwu, in_flight,
  submit, ready_bytes, after_block, write_blocks, committed, commit, begun, flush_by, flush,
}
use cc3501e_bridge_firmware.Ota.Job.{
  opened, begin_on, begin_with, begin_first, do_begin, installed, finished, close, do_finish,
  run_op, refresh_first, pending_refresh, judged, staged_now, back, prime_by, prime, park, unpark,
  clear_if, pump_end, pump_job, ota_pump, other_slot, pick, tidy,
}
use cc3501e_bridge_firmware.Ota.Calls.{
  begin_in, ota_begin, appended, write_chunk, write_in, ota_write, finish_in, ota_finish,
}
use cc3501e_bridge_firmware.Ota.Image.{IsFlash, Carries}
use cc3501e_bridge_firmware.Ota.Flush.{do_finish-image}
use cc3501e_bridge_firmware.Ota.Chunk.{ota_write-Carries}
use cc3501e_bridge_firmware.Ota.Room.{HasRoom, flush_makes_room}
use cc3501e_bridge_firmware.Ota.Pump.{IsQuiet}
use cc3501e_bridge_firmware.Ota.Update.{Act, begin, write, finish, pump, run, ota_run-image}

-- The state is the bytes of the slot; slot 1 is the primary one.
abbrev fwu : Fwu (List ℕ)
fwu = record {
  slot_1 = 1;
  slot_2 = 2;
  success_reboot = 1;
  init = λ f. f;
  query = λ f n. (some (record { primary = n == 1; state = ready }), f);
  reject = λ f. f;
  cancel = λ f n. f;
  clean = λ f n. f;
  start = λ f n bytes. (none, bytes);
  write = λ f n off bytes. (none, f ++ bytes);
  finish = λ f n. (none, f);
  install = λ f. (none, f);
}

abbrev link : Link (List ℕ)
link = record {
  busy = λ f. f;
  ready = λ f. f;
  polled = λ f. false;
  quiesce = λ f on. f;
  usleep = λ f us. f;
  hw_release = λ f. f;
  hw_reinit = λ f. f;
  clear_polled_boot = λ f. f;
}

fwu-IsFlash : IsFlash fwu (λ f. f)
fwu-IsFlash = record {
  starts = λ f t bytes e. refl;
  writes = λ f t off bytes e l. refl;
  finishes = λ f t. refl;
  installs = λ f. refl;
}

fwu-IsQuiet : IsQuiet fwu link (λ f. f)
fwu-IsQuiet = record {
  inits = λ f. refl;
  queries = λ f n. refl;
  busies = λ f. refl;
  readies = λ f. refl;
  quiesces = λ f on. refl;
  sleeps = λ f us. refl;
  releases = λ f. refl;
  reinits = λ f. refl;
  clears = λ f. refl;
}

abbrev image : List ℕ
image = 1 ∷ 2 ∷ 3 ∷ 4 ∷ 5 ∷ []

abbrev blank : Ota
blank = record {
  state = ota_idle;
  target = 0;
  total_len = 0;
  cursor = 0;
  op = op_idle;
  rc = some hw_ok;
  op_total = 0;
  fail_stage = 0;
  fail_psa = 0;
  window_base = 0;
  flushed = 0;
  started = false;
  window = [];
  pending_primed = false;
  pending = pending_none;
  reply_drained = false;
  reboot_pending = false;
}

-- The first chunk is sent twice.
abbrev acts : List Act
acts = begin ∷ pump ∷ write 0 3 ∷ pump ∷ write 0 3 ∷ write 3 2 ∷ finish ∷ pump ∷ []

stages : (run 2 fwu link layout image acts (blank, [])).0.state ≡ ota_staged
unfolding in_flight submit ready_bytes after_block write_blocks committed commit begun flush_by
    flush opened begin_on begin_with begin_first do_begin installed finished close do_finish run_op
    refresh_first pending_refresh judged staged_now back prime_by prime park unpark clear_if
    pump_end pump_job ota_pump other_slot pick tidy begin_in ota_begin appended write_chunk write_in
    ota_write finish_in ota_finish
stages = refl

ota_run-image_example : (run 2 fwu link layout image acts (blank, [])).1 ≡ 1 ∷ 2 ∷ 3 ∷ 4 ∷ 5 ∷ []
unfolding in_flight
ota_run-image_example =
    ota_run-image 2 fwu link (λ f. f) fwu-IsFlash fwu-IsQuiet image layout acts blank [] refl refl
      stages

-- The first chunk is in the window, and the flash is not open.
abbrev begun_session : Ota
begun_session = record blank {
  state = ota_writing;
  total_len = 5;
  cursor = 3;
  window = 1 ∷ 2 ∷ 3 ∷ [];
}

begun-Carries : Carries (λ (f : List ℕ). f) image begun_session []
begun-Carries = record {
  total = refl;
  cursor_in = omega arith;
  base_in = omega arith;
  flushed_in = omega arith;
  window_is = refl;
  room = omega arith;
  kept = λ z. cc z;
  fresh = λ z. (refl, refl);
}

ota_write-Carries_example :
    Carries (λ (f : List ℕ). f) image (ota_write layout 2 begun_session 3 (4 ∷ 5 ∷ [])).1 []
ota_write-Carries_example =
    ota_write-Carries 2 fwu (λ f. f) fwu-IsFlash image layout begun_session [] 3 (4 ∷ 5 ∷ [])
      begun-Carries refl

-- All of the image is in the window.
abbrev full_session : Ota
full_session = record begun_session { cursor = 5; window = image }

full-Carries : Carries (λ (f : List ℕ). f) image full_session []
full-Carries = record {
  total = refl;
  cursor_in = omega arith;
  base_in = omega arith;
  flushed_in = omega arith;
  window_is = refl;
  room = omega arith;
  kept = λ z. cc z;
  fresh = λ z. (refl, refl);
}

finishes_all : (do_finish 2 fwu full_session []).0 ≡ hw_ok
unfolding ready_bytes after_block write_blocks committed commit begun flush_by flush installed
    finished close do_finish
finishes_all = refl

do_finish-image_example :
    ((do_finish 2 fwu full_session []).2 ≡ image)
    × (full_session.cursor ≡ 5)
    × ((do_finish 2 fwu full_session []).1.state ≡ ota_staged)
do_finish-image_example =
    do_finish-image 2 fwu (λ f. f) fwu-IsFlash image full_session [] full-Carries finishes_all

flushes : (flush 2 fwu false full_session []).0 ≡ hw_ok
unfolding ready_bytes after_block write_blocks committed commit begun flush_by flush
flushes = refl

flush_makes_room_example :
    (1 ≤ 16384 - length (flush 2 fwu false full_session []).1.window)
    × HasRoom 2 (flush 2 fwu false full_session []).1
flush_makes_room_example =
    flush_makes_room 2 fwu full_session [] (9 ∷ []) (omega arith, omega arith, omega arith)
      (λ e. refl) (omega arith) flushes
