-- ===== src/EventRing/Drain.antt =====
-- event_ring_drain(): the loop as a whole, and what a reader of its bytes finds.
use cc3501e_bridge_firmware.Base.{
  ℕ, zero, suc, ◌+◌, ◌-◌, ◌%◌, ◌≤◌, ◌<◌, ◌≡◌, ◌≢◌, refl, ap, ◌⊎◌, inl, inr, ◌∙◌, none, some, List,
  [], ◌∷◌, ◌++◌, append-nil, append_assoc, length, get_or, take, replicate, take-append_of_length,
  drop-append_of_length, length-take, length-append, Bool-cases, ◌==◌, ltb, arith,
}
use cc3501e_bridge_firmware.EventRing.{
  EventSlot, Ring, slots, empty_slot, hdr_bytes, encode_slot, pop, drain_loop, drain,
}
use cc3501e_bridge_firmware.EventRing.Queue.{Event, collect, walk, encode}
use cc3501e_bridge_firmware.EventRing.Invariant.{IsValid, SlotOk, get_or-SlotOk, pop-IsValid}
use cc3501e_bridge_firmware.EventRing.Refine.{event_of, window, contents, length-window}

window_of_ne_zero :
    (ss : List EventSlot) (h n : ℕ)
    → n ≢ 0
    → window ss h n ≡ event_of (get_or ss h empty_slot) ∷ window ss ((h + 1) % slots) (n - 1)
window_of_ne_zero ss h zero p = absurd (p refl)
window_of_ne_zero ss h (suc n) p = ap (λ k. window ss h (suc k)) (omega arith)

window_of_zero : (ss : List EventSlot) (h n : ℕ) → n ≡ 0 → window ss h n ≡ []
window_of_zero ss h zero p = refl
window_of_zero ss h (suc n) p = absurd (omega arith)

-- One round, against the queue: it stops where `collect` stops, and else takes the oldest event.
abbrev pub Round : Ring → ℕ → ℕ → Type 0
Round r written room =
    ((pop r written room ≡ none) × (collect (room - written) (contents r) ≡ ([], contents r)))
    ⊎ ((bytes : List ℕ) × (r' : Ring) × (pop r written room ≡ some (bytes, r'))
        × (r'.attn ≡ r.attn)
        × (suc r'.count ≡ r.count)
        × (written + length bytes ≤ room)
        × (collect (room - written) (contents r) ≡ (
          bytes ++ (collect (room - written - length bytes) (contents r')).0,
          (collect (room - written - length bytes) (contents r')).1,
        )))

encode_slot-eq : (s : EventSlot) → SlotOk s → encode (event_of s) ≡ encode_slot s
encode_slot-eq s ok =
    let n : length (take s.len s.payload) ≡ s.len = ground (arith, length-take s.len s.payload) in
    ap (λ (k : ℕ). s.evt_opcode ∷ k ∷ take s.len s.payload) n

pop-Round : (r : Ring) (written room : ℕ) → IsValid r → written ≤ room → Round r written room
unfolding pop collect
pop-Round r written room v le = elim (Bool-cases (r.count == 0)) [
  | inl e ↦ inl (rw e, rw (window_of_zero r.slot r.head r.count (ground arith)))
  | inr ne ↦ elim (Bool-cases (ltb room (written + (hdr_bytes + old.len)))) [
    | inl big ↦ inl (
      rw (ne, big),
      rw (window_of_ne_zero r.slot r.head r.count (ground arith)) (ground (arith, ok, size)),
    )
    | inr fits ↦ inr (
      encode_slot old,
      record r { head = (r.head + 1) % slots; count = r.count - 1 },
      rw (ne, fits),
      refl,
      ground arith,
      ground (arith, size),
      rw (window_of_ne_zero r.slot r.head r.count (ground arith))
          (ground (arith, encode_slot-eq old ok, size)),
    )
  ]
]
  where
    old : EventSlot
    old = get_or r.slot r.head empty_slot

    ok : SlotOk old
    ok = get_or-SlotOk r.slot r.head empty_slot v.stored (omega arith)

    size : length (take old.len old.payload) ≡ old.len
    size = ground (arith, ok, length-take old.len old.payload)

drain_loop_stop :
    (fuel : ℕ) (r : Ring) (room : ℕ) (out : List ℕ)
    → pop r (length out) room ≡ none
    → drain_loop (suc fuel) r room out ≡ (out, r)
unfolding drain_loop
drain_loop_stop fuel r room out e = rw (e, drain_loop)

drain_loop_step :
    (fuel : ℕ) (r : Ring) (room : ℕ) (out : List ℕ) (bytes : List ℕ) (r' : Ring)
    → pop r (length out) room ≡ some (bytes, r')
    → drain_loop (suc fuel) r room out ≡ drain_loop fuel r' room (out ++ bytes)
unfolding drain_loop
drain_loop_step fuel r room out bytes r' e = rw (e, drain_loop)

-- What a drain leaves, against `collect` on the events that wait.
abbrev pub Drained : Ring → ℕ → List ℕ → List ℕ × Ring → Type 0
Drained r room out done =
    IsValid done.1
    × (done.1.attn ≡ r.attn)
    × (done.0 ≡ out ++ (collect (room - length out) (contents r)).0)
    × (contents done.1 ≡ (collect (room - length out) (contents r)).1)
    × (length done.0 ≤ room)

Drained-step :
    (r r' : Ring) (room : ℕ) (out bytes : List ℕ) (done : List ℕ × Ring)
    → r'.attn ≡ r.attn
    → (collect (room - length out) (contents r) ≡ (
      bytes ++ (collect (room - length out - length bytes) (contents r')).0,
      (collect (room - length out - length bytes) (contents r')).1,
    ))
    → Drained r' room (out ++ bytes) done
    → Drained r room out done
Drained-step r r' room out bytes done attn e d =
    let left : room - length (out ++ bytes) ≡ room - length out - length bytes =
      omega (arith, length-append out bytes) in
    let d2 : done.0
        ≡ (out ++ bytes) ++ (collect (room - length out - length bytes) (contents r')).0 =
      rw left at d.2 in
    let d3 : contents done.1 ≡ (collect (room - length out - length bytes) (contents r')).1 =
      rw left at d.3 in
    (d.0, cc, rw e (d2 ∙ append_assoc out bytes _), rw e d3, d.4)

drain_loop-Drained :
    (fuel : ℕ) (r : Ring) (room : ℕ) (out : List ℕ)
    → IsValid r
    → r.count < fuel
    → length out ≤ room
    → Drained r room out (drain_loop fuel r room out)
drain_loop-Drained zero r room out v lt le = absurd (omega arith)
drain_loop-Drained (suc fuel) r room out v lt le = elim (pop-Round r (length out) room v le) [
  | inl (stop, done) ↦
      rw (drain_loop_stop fuel r room out stop) (rw done (v, refl, rw append-nil, refl, le))
  | inr (bytes, r', took, attn, less, fits, rest) ↦
      rw (drain_loop_step fuel r room out bytes r' took) (
        Drained-step r r' room out bytes _ attn rest (
          drain_loop-Drained fuel r' room (out ++ bytes)
            (pop-IsValid r r' bytes (length out) room v took) (omega arith)
            (omega (arith, length-append out bytes))))
]

-- A drain into `room` bytes writes the entries that the specification `collect` takes from the
-- events that wait, leaves the others queued in order, keeps within the buffer, does not touch the
-- attention line and keeps the invariant.
pub drain-collect :
    (r : Ring) (room : ℕ)
    → IsValid r
    → let (bytes, r') = drain r room in
      (bytes ≡ (collect room (contents r)).0)
      × (contents r' ≡ (collect room (contents r)).1)
      × (length bytes ≤ room)
      × (r'.attn ≡ r.attn)
      × IsValid r'
unfolding drain
drain-collect r room v =
    let d : Drained r room [] (drain_loop (suc r.count) r room []) =
      drain_loop-Drained (suc r.count) r room [] v (omega arith) (omega arith) in
    let z : room - 0 ≡ room = omega arith in (rw z at d.2, rw z at d.3, d.4, d.1, d.0)

-- Every event that waits has an opcode that is not 0, the value at which a reader stops.
abbrev pub NoZero : List Event → Type 0
NoZero [] = Unit {0}
NoZero ((op, payload) ∷ q) = (op ≢ 0) × NoZero q

walk_zeros : (fuel pad : ℕ) → walk fuel (replicate pad 0) ≡ []
unfolding walk
walk_zeros zero pad = refl
walk_zeros (suc fuel) zero = refl
walk_zeros (suc fuel) (suc zero) = refl
walk_zeros (suc fuel) (suc (suc pad)) = refl

walk-encode :
    (fuel op : ℕ) (payload rest : List ℕ)
    → op ≢ 0
    → walk (suc fuel) (encode (op, payload) ++ rest) ≡ (op, payload) ∷ walk fuel rest
unfolding walk
walk-encode fuel op payload rest h =
    rw
      (
        take-append_of_length (length payload) payload rest refl,
        drop-append_of_length (length payload) payload rest refl,
      )
      (ground arith)

walk-collect :
    (fuel room pad : ℕ) (q : List Event)
    → NoZero q
    → length q ≤ fuel
    → let (bytes, rest) = collect room q in walk fuel (bytes ++ replicate pad 0) ++ rest ≡ q
unfolding collect
walk-collect fuel room pad [] nz le = rw (walk_zeros fuel pad)
walk-collect zero room pad (e ∷ q) nz le = absurd (omega arith)
walk-collect (suc fuel) room pad ((op, payload) ∷ q) nz le =
    let n = length (encode (op, payload)) in
    elim (Bool-cases (ltb room n)) [
      | inl big ↦ rw (big, walk_zeros (suc fuel) pad)
      | inr fits ↦ rw (
        fits,
        append_assoc (encode (op, payload)) (collect (room - n) q).0 (replicate pad 0),
        walk-encode fuel op payload ((collect (room - n) q).0 ++ replicate pad 0) nz.0,
        walk-collect fuel (room - n) pad q nz.1 (omega arith),
      )
    ]

-- The host loses nothing: a reader of the drained bytes, with any number of zero bytes of padding
-- behind them, finds exactly the events that left the ring, oldest first, and the others still
-- wait in order. No entry is split.
pub walk-drain :
    (r : Ring) (room pad : ℕ)
    → IsValid r
    → NoZero (contents r)
    → let (bytes, r') = drain r room in
      walk slots (bytes ++ replicate pad 0) ++ contents r' ≡ contents r
walk-drain r room pad v nz =
    let d = drain-collect r room v in
    rw (d.0, d.1)
      (walk-collect slots room pad (contents r) nz
        (omega (arith, length-window r.slot r.head r.count)))
