-- ===== src/Dispatch/Tests.antt =====
-- Whole exchanges: a MAC address, an event, an opcode that nothing handles.
use cc3501e_bridge_firmware.Base.{
  ℕ, ◌≤◌, ◌≡◌, refl, ap, sym, ◌∙◌, true, none, some, List, [], ◌∷◌, ◌++◌, length, arith,
}
use cc3501e_bridge_firmware.Wire.{ok, hw_ok, get_mac, Cmd-discrete}
use cc3501e_bridge_firmware.Worker.{done, submit, poll, poll_own, same_cmd}
use cc3501e_bridge_firmware.Bridge.{Bridge}
use cc3501e_bridge_firmware.EventRing.{slots, push, fill}
use cc3501e_bridge_firmware.EventRing.Queue.{walk}
use cc3501e_bridge_firmware.EventRing.Refine.{contents}
use cc3501e_bridge_firmware.EventRing.Invariant.{IsValid, SlotOk, push-IsValid}
use cc3501e_bridge_firmware.EventRing.Drain.{NoZero}
use cc3501e_bridge_firmware.Meta.{handle_get_mac}
use cc3501e_bridge_firmware.Frame.{tally}
use cc3501e_bridge_firmware.Frame.Reply.{padding, read_reply}
use cc3501e_bridge_firmware.Latch
use cc3501e_bridge_firmware.Routed.{handle_worker_routed, route, answer, switch, collect}
use cc3501e_bridge_firmware.Execute.{hal_body, reply_with, run_pending}
use cc3501e_bridge_firmware.Execute.Settle.{started}
use cc3501e_bridge_firmware.Fixture.{
  blank, bridge, layout, hal, board, build, caps, opcode, update, code,
}
use cc3501e_bridge_firmware.Dispatch.{protocol_dispatch, routed_to, handle, seq_of}
use cc3501e_bridge_firmware.Dispatch.Room.{protocol_dispatch-Fits}
use cc3501e_bridge_firmware.Dispatch.Host.{
  dispatch, exchange, build_reply-protocol_dispatch, host_walks_events,
}
use cc3501e_bridge_firmware.Dispatch.Session.{IsRouted, host_gets_result}
use cc3501e_bridge_firmware.Dispatch.Retry.{argless-IsServed, build_reply_repeats}

blank-SlotOk : SlotOk blank
blank-SlotOk = record { clamped = omega arith; room = refl }

no_events-IsValid : IsValid bridge.events
no_events-IsValid =
    let s = blank-SlotOk in
    record {
      depth = refl;
      head_in = omega arith;
      count_in = omega arith;
      tail_at = refl;
      stored = (s, (s, (s, (s, (s, (s, (s, (s, (s, (s, (s, (s, (s, (s, (s, (s, tt))))))))))))))));
    }

-- One event of the opcode 5 is queued.
abbrev eventful : Bridge
eventful = record bridge { events = (push bridge.events 5 (some (1 ∷ 2 ∷ [])) 2).0 }

eventful-IsValid : IsValid eventful.events
eventful-IsValid = push-IsValid bridge.events 5 (some (1 ∷ 2 ∷ [])) 2 no_events-IsValid

eventful-NoZero : NoZero (contents eventful.events)
unfolding push fill
eventful-NoZero = (λ (e : 5 ≡ 0). omega arith, tt)

protocol_dispatch-Fits_example :
    length (protocol_dispatch layout build caps code board opcode bridge 0 1 0 [] 57).0.1 ≤ 57
protocol_dispatch-Fits_example =
    protocol_dispatch-Fits layout build caps code board opcode bridge 0 1 0 [] 57 no_events-IsValid
      (λ d h n r. omega arith)

build_reply-protocol_dispatch_example :
    (read_reply update (exchange update layout build caps code board opcode bridge 0 1 0 [] 64).0
      ≡ some (
        1,
        code (dispatch update layout build caps code board opcode bridge 0 1 0 [] 57).0.0,
        (dispatch update layout build caps code board opcode bridge 0 1 0 [] 57).0.1
            ++ padding
                (dispatch update layout build caps code board opcode bridge 0 1 0 [] 57).0.1
                64,
      ))
    × ((exchange update layout build caps code board opcode bridge 0 1 0 [] 64).1
        ≡ tally
            (dispatch update layout build caps code board opcode bridge 0 1 0 [] 57).0.0
            (dispatch update layout build caps code board opcode bridge 0 1 0 [] 57).0.2)
    × ((exchange update layout build caps code board opcode bridge 0 1 0 [] 64).2
        ≡ (dispatch update layout build caps code board opcode bridge 0 1 0 [] 57).1)
build_reply-protocol_dispatch_example =
    build_reply-protocol_dispatch update layout build caps code board opcode bridge 0 1 0 [] 64
      no_events-IsValid (λ d h n r. omega arith) (omega arith) (omega arith) (omega arith)

host_walks_events_example :
    (bytes : List ℕ) × (read_reply update
        (exchange update layout build caps code board opcode eventful 0 3 0 [] 64).0
      ≡ some (3, 0, bytes))
    × (walk slots bytes
          ++ contents
              (exchange update layout build caps code board opcode eventful 0 3 0 [] 64).1.events
        ≡ contents eventful.events)
host_walks_events_example =
    host_walks_events update layout build caps code board opcode eventful 0 3 0 64 refl
      eventful-IsValid eventful-NoZero (λ d h n r. omega arith) (omega arith) (omega arith)

get_mac-IsRouted : IsRouted update layout build caps code board opcode 2 get_mac 6
unfolding handle handle_get_mac
get_mac-IsRouted = record { named = refl; routed = λ b d room. refl }

reads_mac :
    hal_body layout hal (hal.bridge_busy 0) (started (submit bridge.job get_mac).0) get_mac
    ≡ (hw_ok, 1 ∷ 2 ∷ 3 ∷ 4 ∷ 5 ∷ 6 ∷ [], 1)
unfolding hal_body reply_with
reads_mac = refl

-- The latch holds the reply to an older request of the same opcode.
abbrev latched : Bridge
latched = record bridge {
  latch = record { valid = true; cmd = get_mac; seq = 2; status = ok; bytes = 9 ∷ [] };
}

other_number : (Latch.serve (record latched { req_seq = seq_of 24 }) get_mac 57).0 ≡ none
unfolding Latch.serve Latch.applies same_cmd Cmd-discrete
other_number = refl

host_gets_result_example :
    (read_reply update (exchange update layout build caps code board opcode latched 0 2 24 [] 64).0
      ≡ some (2, 1, padding [] 64))
    × (read_reply update
          (exchange update layout build caps code board opcode
            (run_pending layout hal
              (exchange update layout build caps code board opcode latched 0 2 24 [] 64).1
              (exchange update layout build caps code board opcode latched 0 2 24 [] 64).2).0
            (run_pending layout hal
              (exchange update layout build caps code board opcode latched 0 2 24 [] 64).1
              (exchange update layout build caps code board opcode latched 0 2 24 [] 64).2).1
            2
            24
            []
            64).0
        ≡ some (2, 0, (1 ∷ 2 ∷ 3 ∷ 4 ∷ 5 ∷ 6 ∷ []) ++ padding (1 ∷ 2 ∷ 3 ∷ 4 ∷ 5 ∷ 6 ∷ []) 64))
host_gets_result_example =
    host_gets_result update layout build caps code board opcode hal latched 0 1 2 get_mac 6 24 64
      hw_ok (1 ∷ 2 ∷ 3 ∷ 4 ∷ 5 ∷ 6 ∷ []) get_mac-IsRouted refl other_number (λ e. cc) (λ e. cc)
      (omega arith) reads_mac (omega arith) (omega arith) (omega arith) (omega arith)

-- The address has arrived in the slot.
abbrev finished : Bridge
finished = record bridge {
  job = record {
    state = done;
    job_cmd = get_mac;
    result = 1 ∷ 2 ∷ 3 ∷ 4 ∷ 5 ∷ 6 ∷ [];
    result_len = 6;
    rv = hw_ok;
    req = [];
    req_len = 0;
  };
}

told_mac :
    ((dispatch update layout build caps code board opcode finished 0 2 24 [] 57).0.0 ≡ ok)
    × ((dispatch update layout build caps code board opcode finished 0 2 24 [] 57).0.1
        ≡ 1 ∷ 2 ∷ 3 ∷ 4 ∷ 5 ∷ 6 ∷ [])
unfolding protocol_dispatch routed_to handle handle_get_mac handle_worker_routed route answer switch
    collect Latch.serve Latch.applies poll poll_own same_cmd Cmd-discrete
told_mac = (refl, refl)

build_reply_repeats_example :
    let first = exchange update layout build caps code board opcode finished 0 2 24 [] 64 in
    let again = exchange update layout build caps code board opcode first.1 first.2 2 24 [] 64 in
    (again.0 ≡ first.0) × (again.1.job ≡ first.1.job) × (first.2 ≡ 0) × (again.2 ≡ 0)
unfolding Latch.applies
build_reply_repeats_example =
    build_reply_repeats update layout build caps code board opcode finished 0 2 get_mac [] 24 64 57
      (λ b. record b { job = (submit b.job get_mac).0 })
      (argless-IsServed update layout build caps code board opcode 2 get_mac 6 57 get_mac-IsRouted
        refl (omega arith))
      (λ e. omega arith) (omega arith) (λ e. let x = sym told_mac.0 ∙ e in cc x)
      (omega (arith, ap (λ (x : List ℕ). length x) told_mac.1))
