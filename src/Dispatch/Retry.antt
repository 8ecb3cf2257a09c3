-- ===== src/Dispatch/Retry.antt =====
-- A host whose copy of a reply was lost sends the same frame again.
use cc3501e_bridge_firmware.Base.{
  ℕ, ◌-◌, ◌≤◌, ◌≡◌, ◌≢◌, refl, ap, subst, ◌∙◌, ◌+◌, ◌^◌, ◌<◌, true, Option, some, List, [], length,
  if◌then◌else◌, arith,
}
use cc3501e_bridge_firmware.Wire.{
  Cmd, Resp, ok, err_invalid, err_busy, err_no_mem, err_not_ready, err_radio, err_protocol,
  err_state, Layout,
}
use cc3501e_bridge_firmware.Bridge.{Bridge, Reply}
use cc3501e_bridge_firmware.Latch
use cc3501e_bridge_firmware.Latch.{latch_bytes, hit}
use cc3501e_bridge_firmware.Board.{Board}
use cc3501e_bridge_firmware.Meta.{Build, Caps}
use cc3501e_bridge_firmware.Frame.{tally, emit}
use cc3501e_bridge_firmware.Frame.Exchange.{build_reply_emits}
use cc3501e_bridge_firmware.Routed.{route, handle_worker_routed_payload}
use cc3501e_bridge_firmware.Routed.Fits.{route-Fits}
use cc3501e_bridge_firmware.Routed.Repeat.{KeepsSeq, route_repeats}
use cc3501e_bridge_firmware.Execute.Delivered.{queue, routed_open}
use cc3501e_bridge_firmware.Ble.{handle_ble_connect}
use cc3501e_bridge_firmware.Worker.{submit_payload, same_cmd}
use cc3501e_bridge_firmware.Wire
use cc3501e_bridge_firmware.Dispatch.{handle, seq_of}
use cc3501e_bridge_firmware.Dispatch.Host.{dispatch, exchange, dispatch_known}
use cc3501e_bridge_firmware.Dispatch.Session.{IsRouted, arrived}

-- The count of a frame touches neither the slot nor the latch.
tally-kept :
    (status : Resp) (b : Bridge)
    → ((tally status b).job ≡ b.job) × ((tally status b).latch ≡ b.latch)
unfolding tally
tally-kept ok b = (refl, refl)
tally-kept err_invalid b = (refl, refl)
tally-kept err_busy b = (refl, refl)
tally-kept err_no_mem b = (refl, refl)
tally-kept err_not_ready b = (refl, refl)
tally-kept err_radio b = (refl, refl)
tally-kept err_protocol b = (refl, refl)
tally-kept err_state b = (refl, refl)

module _ (update : ℕ → List ℕ → ℕ) (w : Layout) (config : Build) (caps : Caps) (code : Resp → ℕ)
    {Dev : Type 0} (board : Board Dev) (opcode : ℕ → Option Cmd) where
  -- The opcode byte names a command that the latch may answer, and its handler hands this request to
  -- the worker's helper: with the room `cap` for reply data, and `k` for the submit of its job. The
  -- handler has `room` for reply data.
  pub record IsServed (cmd : ℕ) (known : Cmd) (req : List ℕ) (room cap : ℕ) (k : Bridge → Bridge)
      : Type 0 where
    pub named : opcode cmd ≡ some known
    pub latched : Latch.applies known ≡ true
    pub routed :
        (b : Bridge) (d : Dev)
        → handle w config caps code board known b d req room ≡ (route b known cap k, d)
    pub fits : cap ≤ room
    pub keeps : KeepsSeq k
    pub short : length req + 2 < 2 ^ 16

  -- So is every request without a payload to the worker, and a BLE_CONNECT of the right length.
  pub argless-IsServed :
      (cmd : ℕ) (known : Cmd) (min_cap room : ℕ)
      → IsRouted update w config caps code board opcode cmd known min_cap
      → Latch.applies known ≡ true
      → min_cap ≤ room
      → IsServed cmd known [] room room (queue known)
  argless-IsServed cmd known min_cap room r y h = record {
    named = r.named;
    latched = y;
    routed =
        λ b d. r.routed b d room ∙ ap (λ (x : Reply). (x, d)) (routed_open b known min_cap room h);
    fits = omega arith;
    keeps = λ x. refl;
    short = omega arith;
  }

  ble_connect-IsServed :
      (cmd : ℕ) (req : List ℕ) (room : ℕ)
      → opcode cmd ≡ some Wire.ble_connect
      → length req ≡ 7
      → IsServed cmd Wire.ble_connect req room 0 (λ b. record b {
        job = (submit_payload b.job Wire.ble_connect req).0;
        connecting = if same_cmd Wire.ble_connect Wire.wifi_connect_sta then true else b.connecting;
      })
  unfolding handle handle_ble_connect handle_worker_routed_payload Latch.applies
  ble_connect-IsServed cmd req room e h = record {
    named = e;
    latched = refl;
    routed = λ b d. rw h refl;
    fits = omega arith;
    keeps = λ x. refl;
    short = omega arith;
  }

  dispatch_served :
      (cmd : ℕ) (known : Cmd) (req : List ℕ) (room cap : ℕ) (k : Bridge → Bridge) (b : Bridge)
      (d : Dev) (flags : ℕ)
      → IsServed cmd known req room cap k
      → dispatch update w config caps code board opcode b d cmd flags req room
        ≡ (route (arrived update w config caps code board opcode b flags) known cap k, d)
  dispatch_served cmd known req room cap k b d flags r =
      dispatch_known update w config caps code board opcode b d cmd flags req room known r.named
      ∙ r.routed (arrived update w config caps code board opcode b flags) d

  -- The exchange of a frame that the worker's helper answers.
  exchange_served :
      (cmd : ℕ) (known : Cmd) (req : List ℕ) (room cap : ℕ) (k : Bridge → Bridge) (b : Bridge)
      (d : Dev) (flags : ℕ)
      → IsServed cmd known req (room - 7) cap k
      → 7 ≤ room
      → let q = route (arrived update w config caps code board opcode b flags) known cap k in
        exchange update w config caps code board opcode b d cmd flags req room
        ≡ (emit update code cmd q.0 q.1 room, tally q.0 q.2, d)
  exchange_served cmd known req room cap k b d flags r h2 =
      let b0 = arrived update w config caps code board opcode b flags in
      let q = route b0 known cap k in
      let same : room - 5 - 2 ≡ room - 7 = omega arith in
      let e : dispatch update w config caps code board opcode b d cmd flags req (room - 5 - 2)
          ≡ (q, d) =
        ap (dispatch update w config caps code board opcode b d cmd flags req) same
        ∙ dispatch_served cmd known req (room - 7) cap k b d flags r in
      let fits = route-Fits b0 known cap k in
      build_reply_emits update (dispatch update w config caps code board opcode) code b q.2 d d cmd
        flags req room q.0 q.1 r.short h2 e (omega (arith, fits, r.fits))

  -- A request that its handler hands to the worker's helper, with the state as it found it, of an
  -- opcode that the latch may answer (so neither SOCK_SEND nor SOCK_RECV), with a sequence number other
  -- than 0, that got a final answer of at most 32 bytes: the same frame sent again at once is answered
  -- with the same reply frame, byte for byte, and touches neither the device nor the worker's slot, so
  -- that nothing runs twice. The reply buffer has 7 bytes or more.
  pub build_reply_repeats :
      (b : Bridge) (d : Dev) (cmd : ℕ) (known : Cmd) (req : List ℕ) (flags room cap : ℕ)
      (k : Bridge → Bridge)
      → IsServed cmd known req (room - 7) cap k
      → seq_of flags ≢ 0
      → 7 ≤ room
      → (dispatch update w config caps code board opcode b d cmd flags req (room - 7)).0.0
        ≢ err_busy
      → length (dispatch update w config caps code board opcode b d cmd flags req (room - 7)).0.1
        ≤ latch_bytes
      → let (first, b1, d1) =
          exchange update w config caps code board opcode b d cmd flags req room in
        let (again, b2, d2) =
          exchange update w config caps code board opcode b1 d1 cmd flags req room in
        (again ≡ first) × (b2.job ≡ b1.job) × (d1 ≡ d) × (d2 ≡ d)
  build_reply_repeats b d cmd known req flags room cap k r nz h2 ne small =
      let at = arrived update w config caps code board opcode in
      let b0 = at b flags in
      let q = route b0 known cap k in
      let b1 = tally q.0 q.2 in
      let told = dispatch_served cmd known req (room - 7) cap k b d flags r in
      let ne' : q.0 ≢ err_busy = subst (λ (x : Reply × Dev). x.0.0 ≢ err_busy) told ne in
      let small' : length q.1 ≤ latch_bytes =
        subst (λ (x : Reply × Dev). length x.0.1 ≤ latch_bytes) told small in
      let one = exchange_served cmd known req room cap k b d flags r h2 in
      let c = at b1 flags in
      let repeated : route c known cap k ≡ (q.0, q.1, hit c) =
        route_repeats b0 c known cap k k r.keeps r.latched nz ne' small' (tally-kept q.0 q.2).1
          refl in
      let two : exchange update w config caps code board opcode b1 d cmd flags req room
          ≡ (emit update code cmd q.0 q.1 room, tally q.0 (hit c), d) =
        exchange_served cmd known req room cap k b1 d flags r h2
        ∙ ap (λ (x : Reply). (emit update code cmd x.0 x.1 room, tally x.0 x.2, d)) repeated in
      rw (one, two) (refl, (tally-kept q.0 (hit c)).0, refl, refl)
