-- ===== src/EventRing/Refine.antt =====
-- A valid ring behaves as the bounded FIFO of the events that it holds.
use cc3501e_bridge_firmware.Base.{
  ℕ, zero, suc, ◌+◌, ◌%◌, ◌≤◌, ◌<◌, ◌≡◌, refl, ap, ap₂, Option, none, some, List, [], ◌∷◌, ◌++◌,
  length, get_or, set, take, drop, overwrite, length-take, get_or-set_self, get_or-set_ne,
  take-append_of_length, arith,
}
use cc3501e_bridge_firmware.EventRing.{EventSlot, Ring, slots, empty_slot, clamp, fill, push}
use cc3501e_bridge_firmware.EventRing.Queue.{Event, put}
use cc3501e_bridge_firmware.EventRing.Invariant.{IsValid}

abbrev pub event_of : EventSlot → Event
event_of s = (s.evt_opcode, take s.len s.payload)

-- The `n` events from slot `h` on.
abbrev pub window : List EventSlot → ℕ → ℕ → List Event
window ss h zero = []
window ss h (suc n) = event_of (get_or ss h empty_slot) ∷ window ss ((h + 1) % slots) n

abbrev pub contents : Ring → List Event
contents r = window r.slot r.head r.count

pub length-window : (ss : List EventSlot) (h n : ℕ) → length (window ss h n) ≡ n
length-window ss h zero = refl
length-window ss h (suc n) = ap suc (length-window ss ((h + 1) % slots) n)

-- A store just past a window extends it, and leaves it as it was.
window-set :
    (ss : List EventSlot) (v : EventSlot) (n h i : ℕ)
    → length ss ≡ slots
    → h < slots
    → n < slots
    → i ≡ (h + n) % slots
    → window (set ss i v) h (suc n) ≡ window ss h n ++ event_of v ∷ []
window-set ss v zero h i len hh hn e =
    let at : i ≡ h = omega arith in rw (at, get_or-set_self ss h v empty_slot (omega arith))
window-set ss v (suc n) h i len hh hn e =
    ap₂ ◌∷◌ (ap event_of (get_or-set_ne ss i h v empty_slot (omega arith)))
      (window-set ss v n ((h + 1) % slots) i len (omega arith) (omega arith) (omega arith))

-- What a producer hands over: `len` bytes behind the pointer, clamped to the slot.
abbrev pub payload_of : Option (List ℕ) → ℕ → List ℕ
payload_of none len = []
payload_of (some p) len = take (clamp len) p

-- The pointer has the bytes that `len` names; a NULL pointer comes with no length.
abbrev pub Readable : Option (List ℕ) → ℕ → Type 0
Readable none len = len ≡ 0
Readable (some p) len = len ≤ length p

event_of-fill :
    (s : EventSlot) (op : ℕ) (p : Option (List ℕ)) (len : ℕ)
    → Readable p len
    → event_of (fill s op p (clamp len)) ≡ (op, payload_of p len)
unfolding fill
event_of-fill s op none len h = rw h
event_of-fill s op (some p) len h =
    let n : length (take (clamp len) p) ≡ clamp len = ground (arith, length-take (clamp len) p) in
    let e : take (clamp len) (overwrite s.payload (take (clamp len) p)) ≡ take (clamp len) p =
      take-append_of_length (clamp len) (take (clamp len) p)
        (drop (length (take (clamp len) p)) s.payload) n in
    ap (λ (t : List ℕ). (op, t)) e

pub push_refines :
    (r : Ring) (op : ℕ) (p : Option (List ℕ)) (len : ℕ)
    → IsValid r
    → Readable p len
    → let (r', queued) = push r op p len in
      ((contents r', queued) ≡ put slots (contents r) (op, payload_of p len))
      × (r'.attn ≡ r.attn + 1)
unfolding push put
push_refines r op p len v h = ground (
  arith,
  length-window r.slot r.head r.count,
  event_of-fill old op p len h,
  window-set r.slot (fill old op p (clamp len)) r.count r.head r.tail,
)
  where
    old : EventSlot
    old = get_or r.slot r.tail empty_slot
