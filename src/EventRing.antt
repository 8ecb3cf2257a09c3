-- ===== src/EventRing.antt =====
-- src/event_ring.c: the ring of asynchronous events that the host drains.
pub mod Queue
pub mod Invariant
pub mod Refine
pub mod Drain
mod Tests
use cc3501e_bridge_firmware.Base.{
  ℕ, zero, suc, ◌+◌, ◌-◌, ◌%◌, Bool, true, false, Option, none, some, List, [], ◌∷◌, ◌++◌, ltb, leb,
  ◌==◌, if◌then◌else◌, length, get_or, set, take, overwrite,
}

-- CC3501E_EVENT_RING_SLOTS and CC3501E_EVENT_PAYLOAD_MAX.
abbrev pub slots : ℕ
slots = 16

abbrev pub payload_max : ℕ
payload_max = 16

-- ALP_CC3501E_EVENT_HDR_BYTES: an entry is { evt_opcode(1) | len(1) | payload[len] }.
abbrev pub hdr_bytes : ℕ
hdr_bytes = 2

-- `struct event_slot`. `payload` is the whole array, stale bytes included.
pub record EventSlot : Type 0 where
  pub evt_opcode : ℕ
  pub len : ℕ
  pub payload : List ℕ

-- `ring`. `attn` counts the calls of cc3501e_bridge_attn_pulse().
pub record Ring : Type 0 where
  pub slot : List EventSlot
  pub head : ℕ
  pub tail : ℕ
  pub count : ℕ
  pub attn : ℕ

abbrev pub empty_slot : EventSlot
empty_slot = record { evt_opcode = 0; len = 0; payload = [] }

pub init : Ring → Ring
init r = record r { head = 0; tail = 0; count = 0 }

-- The clamp at the head of event_ring_push().
abbrev pub clamp : ℕ → ℕ
clamp len = if ltb payload_max len then payload_max else len

-- What the slot holds after the stores; `none` is a NULL payload.
unfoldable pub fill : EventSlot → ℕ → Option (List ℕ) → ℕ → EventSlot
fill s evt_opcode none len = record s { evt_opcode = evt_opcode; len = len }
fill s evt_opcode (some p) len = record {
  evt_opcode = evt_opcode;
  len = len;
  payload = overwrite s.payload (take len p);
}

-- event_ring_push(); the flag is the C result, 1 for queued.
unfoldable pub push : Ring → ℕ → Option (List ℕ) → ℕ → Ring × Bool
push r evt_opcode payload len =
    if leb slots r.count then (record r { attn = r.attn + 1 }, false) else (
      record r {
        slot =
            set r.slot r.tail
              (fill (get_or r.slot r.tail empty_slot) evt_opcode payload (clamp len));
        tail = (r.tail + 1) % slots;
        count = r.count + 1;
        attn = r.attn + 1;
      },
      true,
    )

-- The bytes that one entry takes in the reply.
abbrev pub encode_slot : EventSlot → List ℕ
encode_slot s = s.evt_opcode ∷ s.len ∷ take s.len s.payload

-- One round of the loop of event_ring_drain(), that is one critical section: `none` where the
-- loop breaks (ring empty, or the oldest entry does not fit).
pub pop : Ring → ℕ → ℕ → Option (List ℕ × Ring)
pop r written cap =
    let s = get_or r.slot r.head empty_slot in
    if r.count == 0
    then none
    else if ltb cap (written + (hdr_bytes + s.len))
    then none
    else some (encode_slot s, record r { head = (r.head + 1) % slots; count = r.count - 1 })

-- The loop, on fuel; `out` holds the bytes written so far.
pub drain_loop : ℕ → Ring → ℕ → List ℕ → List ℕ × Ring
drain_loop zero r cap out = (out, r)
drain_loop (suc fuel) r cap out = elim (pop r (length out) cap) [
  | none ↦ (out, r)
  | some (bytes, r') ↦ drain_loop fuel r' cap (out ++ bytes)
]

-- event_ring_drain() into a buffer that is not NULL. A round takes an entry or stops, so
-- `count + 1` rounds are enough.
pub drain : Ring → ℕ → List ℕ × Ring
drain r cap = drain_loop (suc r.count) r cap []
