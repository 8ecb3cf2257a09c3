-- ===== src/Latch.antt =====
-- The retry latch of src/protocol.c: the last collected reply, kept for a host whose copy was lost.
pub mod Serve
use cc3501e_bridge_firmware.Base.{
  ℕ, ◌+◌, ◌%◌, ◌^◌, Bool, true, false, not, ◌||◌, Option, none, some, List, ltb, ◌==◌,
  if◌then◌else◌, length,
}
use cc3501e_bridge_firmware.Wire.{Cmd, sock_send, sock_recv, Resp}
use cc3501e_bridge_firmware.Worker.{same_cmd}
use cc3501e_bridge_firmware.Bridge.{Bridge}

-- sizeof(s_retry_latch.data).
abbrev pub latch_bytes : ℕ
latch_bytes = 32

-- retry_latch_applies(): the opcodes with an identity of their own are left out.
unfoldable pub applies : Cmd → Bool
applies sock_send = false
applies sock_recv = false
applies _ = true

abbrev pub drop_latch : Bridge → Bridge
drop_latch b = record b { latch = record (b.latch) { valid = false } }

abbrev pub hit : Bridge → Bridge
hit b = record b { latch_hits = (b.latch_hits + 1) % 2 ^ 32 }

-- retry_latch_serve(): the cached reply, or `none` for the C result false. `room` is reply_cap.
unfoldable pub serve : Bridge → Cmd → ℕ → Option (Resp × List ℕ) × Bridge
serve b cmd room =
    if not (applies cmd)
    then (none, b)
    else if b.req_seq == 0
    then (none, b)
    else if not b.latch.valid || not (same_cmd b.latch.cmd cmd)
    then (none, b)
    else if not (b.latch.seq == b.req_seq)
    then (none, drop_latch b)
    else if ltb room (length b.latch.bytes)
    then (none, b)
    else (some (b.latch.status, b.latch.bytes), hit b)

-- retry_latch_store() of a collected reply.
unfoldable pub store : Bridge → Cmd → Resp → List ℕ → Bridge
store b cmd status bytes =
    if not (applies cmd)
    then b
    else if b.req_seq == 0
    then drop_latch b
    else if ltb latch_bytes (length bytes)
    then drop_latch b
    else record b {
      latch = record { valid = true; cmd = cmd; seq = b.req_seq; status = status; bytes = bytes };
    }

-- protocol_reset_retry_latch().
unfoldable pub reset_retry_latch : Bridge → Bridge
reset_retry_latch b = drop_latch b
