-- ===== src/EventRing/Queue.antt =====
-- The contract of the event ring: a bounded FIFO of events, and the wire form of a list of them.
use cc3501e_bridge_firmware.Base.{
  ℕ, zero, suc, ◌-◌, Bool, true, false, List, [], ◌∷◌, ◌++◌, ltb, leb, ◌==◌, if◌then◌else◌, length,
  take, drop,
}

-- An event: its opcode and its payload.
abbrev pub Event : Type 0
Event = ℕ × List ℕ

-- The newest event is dropped where `cap` events wait.
unfoldable pub put : ℕ → List Event → Event → List Event × Bool
put cap q e = if leb cap (length q) then (q, false) else (q ++ e ∷ [], true)

abbrev pub encode : Event → List ℕ
encode (op, payload) = op ∷ length payload ∷ payload

-- Whole entries from the front, as long as they fit in `room` bytes, and what stays queued.
unfoldable pub collect : ℕ → List Event → List ℕ × List Event
collect room [] = ([], [])
collect room ((op, payload) ∷ q) =
    let n = length (encode (op, payload)) in
    let (bytes, rest) = collect (room - n) q in
    if ltb room n then ([], (op, payload) ∷ q) else (encode (op, payload) ++ bytes, rest)

-- A reader of the reply: it stops at a zero opcode, and at the end of the bytes.
unfoldable pub walk : ℕ → List ℕ → List Event
walk zero bytes = []
walk (suc fuel) [] = []
walk (suc fuel) (op ∷ []) = []
walk (suc fuel) (op ∷ n ∷ rest) =
    let more = walk fuel (drop n rest) in if op == 0 then [] else (op, take n rest) ∷ more
