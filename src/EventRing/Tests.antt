-- ===== src/EventRing/Tests.antt =====
-- The event ring with one event in it.
use cc3501e_bridge_firmware.Base.{
  ◌+◌, ◌≤◌, ◌≡◌, refl, some, [], ◌∷◌, ◌++◌, length, replicate, arith,
}
use cc3501e_bridge_firmware.EventRing.{EventSlot, Ring, slots, payload_max, fill, push, drain}
use cc3501e_bridge_firmware.EventRing.Queue.{put, collect, walk}
use cc3501e_bridge_firmware.EventRing.Invariant.{SlotOk, IsValid, push-IsValid}
use cc3501e_bridge_firmware.EventRing.Refine.{contents, payload_of, push_refines}
use cc3501e_bridge_firmware.EventRing.Drain.{NoZero, drain-collect, walk-drain}

abbrev blank : EventSlot
blank = record { evt_opcode = 0; len = 0; payload = replicate payload_max 0 }

abbrev empty : Ring
empty = record { slot = replicate slots blank; head = 0; tail = 0; count = 0; attn = 0 }

blank-SlotOk : SlotOk blank
blank-SlotOk = record { clamped = omega arith; room = refl }

empty-IsValid : IsValid empty
empty-IsValid =
    let s = blank-SlotOk in
    record {
      depth = refl;
      head_in = omega arith;
      count_in = omega arith;
      tail_at = refl;
      stored = (s, (s, (s, (s, (s, (s, (s, (s, (s, (s, (s, (s, (s, (s, (s, (s, tt))))))))))))))));
    }

abbrev one_event : Ring
one_event = (push empty 5 (some (1 ∷ 2 ∷ [])) 2).0

one_event-IsValid : IsValid one_event
one_event-IsValid = push-IsValid empty 5 (some (1 ∷ 2 ∷ [])) 2 empty-IsValid

push_refines_example :
    ((contents (push one_event 6 (some (9 ∷ [])) 1).0, (push one_event 6 (some (9 ∷ [])) 1).1)
      ≡ put slots (contents one_event) (6, payload_of (some (9 ∷ [])) 1))
    × ((push one_event 6 (some (9 ∷ [])) 1).0.attn ≡ one_event.attn + 1)
push_refines_example = push_refines one_event 6 (some (9 ∷ [])) 1 one_event-IsValid (omega arith)

drain-collect_example :
    ((drain one_event 10).0 ≡ (collect 10 (contents one_event)).0)
    × (contents (drain one_event 10).1 ≡ (collect 10 (contents one_event)).1)
    × (length (drain one_event 10).0 ≤ 10)
    × ((drain one_event 10).1.attn ≡ one_event.attn)
    × IsValid (drain one_event 10).1
drain-collect_example = drain-collect one_event 10 one_event-IsValid

one_event-NoZero : NoZero (contents one_event)
unfolding push fill
one_event-NoZero = (λ (e : 5 ≡ 0). omega arith, tt)

walk-drain_example :
    walk slots ((drain one_event 10).0 ++ replicate 3 0) ++ contents (drain one_event 10).1
    ≡ contents one_event
walk-drain_example = walk-drain one_event 10 3 one_event-IsValid one_event-NoZero
