-- ===== src/Dispatch/Host.antt =====
-- A host's exchange with the whole protocol core: from the request that it seals, through the
-- dispatch, to the reply that it reads.
use cc3501e_bridge_firmware.Base.{
  ℕ, ◌+◌, ◌-◌, ◌^◌, ◌≤◌, ◌<◌, ◌≡◌, refl, ap, subst, ◌∙◌, Option, none, some, List, [], ◌++◌, length,
  arith,
}
use cc3501e_bridge_firmware.Wire
use cc3501e_bridge_firmware.Wire.{
  Cmd, Resp, ok, err_busy, err_invalid, HwRv, hw_ok, Layout, max_payload,
}
use cc3501e_bridge_firmware.Bridge.{Bridge, Reply}
use cc3501e_bridge_firmware.Board.{Board}
use cc3501e_bridge_firmware.EventRing
use cc3501e_bridge_firmware.EventRing.{slots}
use cc3501e_bridge_firmware.EventRing.Queue.{walk}
use cc3501e_bridge_firmware.EventRing.Invariant.{IsValid}
use cc3501e_bridge_firmware.EventRing.Refine.{contents}
use cc3501e_bridge_firmware.EventRing.Drain.{NoZero, walk-drain}
use cc3501e_bridge_firmware.Meta.{Build, Caps}
use cc3501e_bridge_firmware.Diag.{handle_get_pending_events}
use cc3501e_bridge_firmware.Frame.{pad_len, tally, build_reply, reply_data_off, crc_bytes}
use cc3501e_bridge_firmware.Frame.Reply.{sealed, padding, read_reply}
use cc3501e_bridge_firmware.Frame.Exchange.{build_reply-sealed}
use cc3501e_bridge_firmware.Sockets.Fits.{RingFits}
use cc3501e_bridge_firmware.Dispatch.{protocol_dispatch, routed_to, handle, seq_of}
use cc3501e_bridge_firmware.Dispatch.Room.{protocol_dispatch-Fits}

module _ (update : ℕ → List ℕ → ℕ) (w : Layout) (config : Build) (caps : Caps) (code : Resp → ℕ)
    {Dev : Type 0} (board : Board Dev) (opcode : ℕ → Option Cmd) where
  abbrev pub dispatch : Bridge → Dev → ℕ → ℕ → List ℕ → ℕ → Reply × Dev
  dispatch = protocol_dispatch w config caps code board opcode

  -- What the bridge makes of a request that the host seals: the reply frame, the state, the device.
  abbrev pub exchange : Bridge → Dev → ℕ → ℕ → List ℕ → ℕ → List ℕ × Bridge × Dev
  exchange b d cmd flags payload room =
      build_reply update code dispatch b d (sealed update cmd flags payload) room

  -- A host that seals a request of any opcode reads from the reply the opcode, the status and all the
  -- data that the handler answers with, and padding; the clamp of the frame layer takes none away.
  -- The state and the device are those that the handler leaves, and the frame is counted by its
  -- status. The event ring is well formed, the prefetch ring serves no more than it is asked for,
  -- the payload is under 65534 bytes, and the reply buffer is from 7 to 65535 bytes.
  pub build_reply-protocol_dispatch :
      (b : Bridge) (d : Dev) (cmd flags : ℕ) (payload : List ℕ) (room : ℕ)
      → IsValid b.events
      → RingFits board.sock_recv_ring
      → length payload + 2 < 2 ^ 16
      → 7 ≤ room
      → room < 2 ^ 16
      → let ((status, bytes, b'), d') = dispatch b d cmd flags payload (room - 5 - 2) in
        (read_reply update (exchange b d cmd flags payload room).0
          ≡ some (cmd, code status, bytes ++ padding bytes room))
        × ((exchange b d cmd flags payload room).1 ≡ tally status b')
        × ((exchange b d cmd flags payload room).2 ≡ d')
  build_reply-protocol_dispatch b d cmd flags payload room v f h1 h2 h3 =
      let r = dispatch b d cmd flags payload (room - reply_data_off - crc_bytes) in
      build_reply-sealed update dispatch code b r.0.2 d r.1 cmd flags payload room r.0.0 r.0.1 h1 h2
        h3 refl
        (protocol_dispatch-Fits w config caps code board opcode b d cmd flags payload
          (room - reply_data_off - crc_bytes) v f)

  -- A sealed request whose opcode has no handler is answered with ERR_INVALID and no data, and
  -- changes nothing but the sequence number of the request and the counters of failed frames.
  build_reply_unknown :
      (b : Bridge) (d : Dev) (cmd flags : ℕ) (payload : List ℕ) (room : ℕ)
      → opcode cmd ≡ none
      → length payload + 2 < 2 ^ 16
      → 7 ≤ room
      → room < 2 ^ 16
      → (read_reply update (exchange b d cmd flags payload room).0
          ≡ some (cmd, code err_invalid, padding [] room))
        × ((exchange b d cmd flags payload room).1
            ≡ tally err_invalid (record b { req_seq = seq_of flags }))
        × ((exchange b d cmd flags payload room).2 ≡ d)
  unfolding protocol_dispatch routed_to
  build_reply_unknown b d cmd flags payload room n h1 h2 h3 =
      let e : dispatch b d cmd flags payload (room - reply_data_off - crc_bytes)
          ≡ ((err_invalid, [], record b { req_seq = seq_of flags }), d) =
        ap
          (λ o.
            routed_to w config caps code board o (record b { req_seq = seq_of flags }) d payload
              (room - reply_data_off - crc_bytes))
          n in
      build_reply-sealed update dispatch code b (record b { req_seq = seq_of flags }) d d cmd flags
        payload room err_invalid [] h1 h2 h3 e (omega arith)

  pub dispatch_known :
      (b : Bridge) (d : Dev) (cmd flags : ℕ) (payload : List ℕ) (room : ℕ) (known : Cmd)
      → opcode cmd ≡ some known
      → dispatch b d cmd flags payload room
        ≡ handle w config caps code board known (record b { req_seq = seq_of flags }) d payload room
  unfolding protocol_dispatch routed_to
  dispatch_known b d cmd flags payload room known e =
      ap
        (λ o.
          routed_to w config caps code board o (record b { req_seq = seq_of flags }) d payload room)
        e

  -- A host that sends GET_PENDING_EVENTS reads OK and, walking the data of the reply up to the first
  -- entry with a zero opcode, the oldest events that were queued, each whole and in order; those that
  -- it does not read are still queued, in order. The opcodes of the events are not zero.
  pub host_walks_events :
      (b : Bridge) (d : Dev) (cmd flags room : ℕ)
      → opcode cmd ≡ some Wire.get_pending_events
      → IsValid b.events
      → NoZero (contents b.events)
      → RingFits board.sock_recv_ring
      → 7 ≤ room
      → room < 2 ^ 16
      → (bytes : List ℕ) × (read_reply update (exchange b d cmd flags [] room).0
          ≡ some (cmd, code ok, bytes))
        × (walk slots bytes ++ contents (exchange b d cmd flags [] room).1.events
            ≡ contents b.events)
  unfolding handle handle_get_pending_events tally
  host_walks_events b d cmd flags room e v nz f h2 h3 =
      let (bytes, r') = EventRing.drain b.events (room - reply_data_off - crc_bytes) in
      let b' = record b { req_seq = seq_of flags; events = r' } in
      let e' : dispatch b d cmd flags [] (room - reply_data_off - crc_bytes)
          ≡ ((ok, bytes, b'), d) =
        dispatch_known b d cmd flags [] (room - reply_data_off - crc_bytes) Wire.get_pending_events
          e in
      let fits =
        protocol_dispatch-Fits w config caps code board opcode b d cmd flags []
          (room - reply_data_off - crc_bytes) v f in
      let fits' : length bytes ≤ room - reply_data_off - crc_bytes =
        subst (λ (x : Reply × Dev). length x.0.1 ≤ room - reply_data_off - crc_bytes) e' fits in
      let x =
        build_reply-sealed update dispatch code b b' d d cmd flags [] room ok bytes (omega arith) h2
          h3 e' fits' in
      (
        bytes ++ padding bytes room,
        x.0,
        ap (λ (t : Bridge). walk slots (bytes ++ padding bytes room) ++ contents t.events) x.1
            ∙ walk-drain b.events (room - reply_data_off - crc_bytes)
                (pad_len (1 + length bytes + crc_bytes) room) v nz,
      )
