-- ===== src/Dispatch/Session.antt =====
-- Requests that the worker serves, as a host sees them over several frames.
use cc3501e_bridge_firmware.Base.{
  ℕ, ◌-◌, ◌^◌, ◌≤◌, ◌<◌, ◌≡◌, ◌≢◌, refl, ap, subst, ◌∙◌, true, Option, none, some, List, [], ◌++◌,
  length, arith,
}
use cc3501e_bridge_firmware.Wire
use cc3501e_bridge_firmware.Wire.{
  Cmd, Resp, ok, err_busy, HwRv, hw_ok, hw_busy, hw_notimpl, hw_io, hw_inval, hw_state, hw_no_mem,
  Layout, max_payload,
}
use cc3501e_bridge_firmware.Worker.{queued, is_idle, submit}
use cc3501e_bridge_firmware.Bridge.{Bridge, Reply}
use cc3501e_bridge_firmware.Latch
use cc3501e_bridge_firmware.Latch.Serve.{serve_keeps, serve_missed}
use cc3501e_bridge_firmware.Board.{Board}
use cc3501e_bridge_firmware.Hal.{Hal}
use cc3501e_bridge_firmware.Meta.{Build, Caps}
use cc3501e_bridge_firmware.Frame.{tally, reply_data_off, crc_bytes}
use cc3501e_bridge_firmware.Frame.Reply.{padding, read_reply}
use cc3501e_bridge_firmware.Frame.Exchange.{build_reply_emits, build_reply-sealed}
use cc3501e_bridge_firmware.Routed.{handle_worker_routed}
use cc3501e_bridge_firmware.Execute.{hal_body, run_pending}
use cc3501e_bridge_firmware.Execute.Settle.{started, run_pending-latch}
use cc3501e_bridge_firmware.Execute.Delivered.{
  outcome, Tells, missed, queue, routed_open, routed_first, collect_published, run_pending-publish,
}
use cc3501e_bridge_firmware.Dispatch.{handle, seq_of}
use cc3501e_bridge_firmware.Dispatch.Host.{dispatch, exchange, dispatch_known}

length-outcome :
    (rv : HwRv) (out : List ℕ) (room : ℕ) → length out ≤ room → length (outcome rv out).1 ≤ room
length-outcome hw_ok out room h = h
length-outcome hw_busy out room h = omega arith
length-outcome hw_notimpl out room h = omega arith
length-outcome hw_io out room h = omega arith
length-outcome hw_inval out room h = omega arith
length-outcome hw_state out room h = omega arith
length-outcome hw_no_mem out room h = omega arith

module _ (update : ℕ → List ℕ → ℕ) (w : Layout) (config : Build) (caps : Caps) (code : Resp → ℕ)
    {Dev : Type 0} (board : Board Dev) (opcode : ℕ → Option Cmd) where
  -- The opcode byte names a command that goes to the worker without a payload.
  pub record IsRouted (cmd : ℕ) (known : Cmd) (min_cap : ℕ) : Type 0 where
    pub named : opcode cmd ≡ some known
    pub routed :
        (b : Bridge) (d : Dev) (room : ℕ)
        → handle w config caps code board known b d [] room
          ≡ (handle_worker_routed b known min_cap 0 room, d)

  abbrev pub arrived : Bridge → ℕ → Bridge
  arrived b flags = record b { req_seq = seq_of flags }

  pub dispatch_routed :
      (cmd : ℕ) (known : Cmd) (min_cap : ℕ) (b : Bridge) (d : Dev) (flags room : ℕ)
      → IsRouted cmd known min_cap
      → dispatch update w config caps code board opcode b d cmd flags [] room
        ≡ (handle_worker_routed (arrived b flags) known min_cap 0 room, d)
  dispatch_routed cmd known min_cap b d flags room r =
      dispatch_known update w config caps code board opcode b d cmd flags [] room known r.named
      ∙ r.routed (arrived b flags) d room

  -- What a host is answered with on a state, where the worker's helper tells `o`.
  reads-Tells :
      (cmd : ℕ) (known : Cmd) (min_cap : ℕ) (b : Bridge) (d : Dev) (flags room : ℕ)
      (o : Resp × List ℕ)
      → IsRouted cmd known min_cap
      → 7 ≤ room
      → room < 2 ^ 16
      → Tells
          (handle_worker_routed
            (arrived b flags)
            known
            min_cap
            0
            (room - reply_data_off - crc_bytes))
          o
      → length o.1 ≤ room - reply_data_off - crc_bytes
      → read_reply update (exchange update w config caps code board opcode b d cmd flags [] room).0
        ≡ some (cmd, code o.0, o.1 ++ padding o.1 room)
  reads-Tells cmd known min_cap b d flags room o r h2 h3 t fits =
      let room' = room - reply_data_off - crc_bytes in
      let reply = handle_worker_routed (arrived b flags) known min_cap 0 room' in
      let same = t.1 in
      let fits' : length reply.1 ≤ room' = rw same fits in
      let x =
        build_reply-sealed update (dispatch update w config caps code board opcode) code b reply.2 d
          d cmd flags [] room reply.0 reply.1 (omega arith) h2 h3
          (dispatch_routed cmd known min_cap b d flags room' r) fits' in
      x.0
      ∙ ap (λ s. some (cmd, code s, reply.1 ++ padding reply.1 room)) t.0
      ∙ ap (λ bs. some (cmd, code o.0, bs ++ padding bs room)) same

  -- A host that sends a request without a payload to the worker reads BUSY, where the slot is free and
  -- the retry latch does not answer the request; after one run of the drain, in which the command's body
  -- returns `rv` and `out`, the same frame reads what the body returned: OK and all its bytes, or the
  -- status of its error code. The command is not a connect or an access-point start, the bytes fit the
  -- reply, and the buffer is from 7 to 65535 bytes.
  pub host_gets_result :
      (hal : Hal Dev) (b : Bridge) (d d' : Dev) (cmd : ℕ) (known : Cmd) (min_cap flags room : ℕ)
      (rv : HwRv) (out : List ℕ)
      → IsRouted cmd known min_cap
      → is_idle b.job.state ≡ true
      → (Latch.serve (arrived b flags) known (room - 7)).0 ≡ none
      → known ≢ Wire.wifi_connect_sta
      → known ≢ Wire.wifi_ap_start
      → min_cap ≤ room - 7
      → hal_body w hal (hal.bridge_busy d) (started (submit b.job known).0) known ≡ (rv, out, d')
      → length out ≤ room - 7
      → length out ≤ max_payload
      → 7 ≤ room
      → room < 2 ^ 16
      → let (first, b1, d1) =
          exchange update w config caps code board opcode b d cmd flags [] room in
        let (b2, d2) = run_pending w hal b1 d1 in
        let second = (exchange update w config caps code board opcode b2 d2 cmd flags [] room).0 in
        (read_reply update first ≡ some (cmd, code err_busy, padding [] room))
        × (read_reply update second
            ≡ some (
              cmd,
              code (outcome rv out).0,
              (outcome rv out).1 ++ padding (outcome rv out).1 room,
            ))
  unfolding submit tally
  host_gets_result hal b d d' cmd known min_cap flags room rv out r i v n1 n2 h e h1 h1' h2 h3 =
      let room' = room - reply_data_off - crc_bytes in
      let b0 = arrived b flags in
      let same : room - 7 ≡ room' = omega arith in
      let v0 : (Latch.serve b0 known room').0 ≡ none =
        subst (λ n. (Latch.serve b0 known n).0 ≡ none) same v in
      let m = missed b0 known room' in
      let slot : m.job ≡ b.job = (serve_keeps b0 known room').0 in
      let b1 = tally err_busy (queue known m) in
      let b2 = (run_pending w hal b1 d).0 in
      let d2 = (run_pending w hal b1 d).1 in
      let first-eq : dispatch update w config caps code board opcode b d cmd flags [] room'
          ≡ ((err_busy, [], queue known m), d) =
        dispatch_routed cmd known min_cap b d flags room' r
        ∙ ap (λ (x : Reply). (x, d)) (routed_first b0 known min_cap room' i v0 (omega arith)) in
      let one =
        build_reply_emits update (dispatch update w config caps code board opcode) code b
          (queue known m) d d cmd flags [] room err_busy [] (omega arith) h2 first-eq
          (omega arith) in
      let x =
        build_reply-sealed update (dispatch update w config caps code board opcode) code b
          (queue known m) d d cmd flags [] room err_busy [] (omega arith) h2 h3 first-eq
          (omega arith) in
      let free : is_idle m.job.state ≡ true = ap (λ j. is_idle j.state) slot ∙ i in
      let q : b1.job.state ≡ queued = rw (submit, free) in
      let c : b1.job.job_cmd ≡ known = rw (submit, free) in
      let e1 : hal_body w hal (hal.bridge_busy d) (started b1.job) known ≡ (rv, out, d') =
        ap (λ j. hal_body w hal (hal.bridge_busy d) (started (submit j known).0) known) slot ∙ e in
      let j = run_pending-publish w hal b1 d d' known rv out q c n1 n2 e1 in
      let v2 : (Latch.serve (arrived b2 flags) known room').0 ≡ none =
        serve_missed b0 (arrived b2 flags) known room' v0 (run_pending-latch w hal b1 d q) refl in
      let told : Tells (handle_worker_routed (arrived b2 flags) known min_cap 0 room')
          (outcome rv out) =
        rw (routed_open (arrived b2 flags) known min_cap room' (omega arith)) (
          collect_published (arrived b2 flags) (started b1.job) known room' rv out (queue known) v2
            j c (omega arith) h1') in
      let two =
        reads-Tells cmd known min_cap b2 d2 flags room (outcome rv out) r h2 h3 told
          (length-outcome rv out room' (omega arith)) in
      (
        x.0,
        ap
              (λ (t : List ℕ × Bridge × Dev).
                read_reply update
                  (exchange update w config caps code board opcode (run_pending w hal t.1 t.2).0
                    (run_pending w hal t.1 t.2).1 cmd flags [] room).0)
              one
            ∙ two,
      )
