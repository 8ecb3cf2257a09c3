-- ===== src/EventRing/Invariant.antt =====
-- The representation invariant of the event ring.
use cc3501e_bridge_firmware.Base.{
  ℕ, zero, suc, ◌+◌, ◌%◌, ◌≤◌, ◌<◌, ◌≡◌, Option, none, some, List, [], ◌∷◌, length, get_or, set,
  take, drop, overwrite, length-append, length-set, length-take, length-drop, arith,
}
use cc3501e_bridge_firmware.EventRing.{
  EventSlot, Ring, slots, payload_max, empty_slot, clamp, fill, push, pop,
}

-- A slot that was stored to, or that a zeroed array starts with.
pub record SlotOk (s : EventSlot) : Type 0 where
  pub clamped : s.len ≤ payload_max
  pub room : length s.payload ≡ payload_max

abbrev pub AllOk : List EventSlot → Type 0
AllOk [] = Unit {0}
AllOk (s ∷ ss) = SlotOk s × AllOk ss

pub record IsValid (r : Ring) : Type 0 where
  pub depth : length r.slot ≡ slots
  pub head_in : r.head < slots
  pub count_in : r.count ≤ slots
  pub tail_at : r.tail ≡ (r.head + r.count) % slots
  pub stored : AllOk r.slot

pub get_or-SlotOk :
    (ss : List EventSlot) (i : ℕ) (d : EventSlot)
    → AllOk ss
    → i < length ss
    → SlotOk (get_or ss i d)
get_or-SlotOk [] i d h lt = absurd (omega arith)
get_or-SlotOk (s ∷ ss) zero d h lt = h.0
get_or-SlotOk (s ∷ ss) (suc i) d h lt = get_or-SlotOk ss i d h.1 (omega arith)

set-AllOk : (ss : List EventSlot) (i : ℕ) (v : EventSlot) → AllOk ss → SlotOk v → AllOk (set ss i v)
set-AllOk [] i v h k = tt
set-AllOk (s ∷ ss) zero v h k = (k, h.1)
set-AllOk (s ∷ ss) (suc i) v h k = (h.0, set-AllOk ss i v h.1 k)

pub length-overwrite {ℓ} :
    {A : Type ℓ} (buf src : List A)
    → length src ≤ length buf
    → length (overwrite buf src) ≡ length buf
length-overwrite buf src h =
    omega (arith, length-append src (drop (length src) buf), length-drop (length src) buf)

fill-SlotOk :
    (s : EventSlot) (op : ℕ) (p : Option (List ℕ)) (n : ℕ)
    → SlotOk s
    → n ≤ payload_max
    → SlotOk (fill s op p n)
unfolding fill
fill-SlotOk s op none n h le = record { clamped = le; room = h.room }
fill-SlotOk s op (some p) n h le = record {
  clamped = le;
  room = omega (arith, length-overwrite s.payload (take n p), length-take n p, h.room);
}

pub clamp-le : (n : ℕ) → clamp n ≤ payload_max
clamp-le n = ground arith

pub push-IsValid :
    (r : Ring) (op : ℕ) (p : Option (List ℕ)) (n : ℕ) → IsValid r → IsValid (push r op p n).0
unfolding push
push-IsValid r op p n v = ground (
  arith,
  length-set r.slot r.tail (fill old op p (clamp n)),
  set-AllOk r.slot r.tail (fill old op p (clamp n)) v.stored (
      fill-SlotOk old op p (clamp n) (get_or-SlotOk r.slot r.tail empty_slot v.stored (omega arith))
        (clamp-le n)),
)
  where
    old : EventSlot
    old = get_or r.slot r.tail empty_slot

pub pop-IsValid :
    (r r' : Ring) (bytes : List ℕ) (written cap : ℕ)
    → IsValid r
    → pop r written cap ≡ some (bytes, r')
    → IsValid r'
unfolding pop
pop-IsValid r r' bytes written cap v e = ground arith
