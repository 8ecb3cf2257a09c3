-- ===== src/SockRing.antt =====
-- The prefetch ring of SOCK_RECV: hal/ti/cc3501e_hw_ti_sock.c, with the decisions that it takes
-- from src/sock_recv_commit.c, src/sock_recv_ring_status.h and src/sock_prefetch_arm.h.
pub mod Memory
pub mod Stream
pub mod Replay
pub mod Pump
pub mod Delivery
mod Tests
use cc3501e_bridge_firmware.Base.{
  ℕ, zero, suc, ◌+◌, ◌-◌, ◌%◌, ◌^◌, Bool, true, false, not, ◌&&◌, ◌||◌, List, [], ◌∷◌, ◌++◌, ltb,
  leb, ◌==◌, if◌then◌else◌, length, get_or,
}

-- CC3501E_SOCK_RING_BYTES, CC3501E_SOCK_PUMP_PASSES, ALP_CC3501E_MAX_PAYLOAD.
abbrev pub ring_bytes : ℕ
ring_bytes = 65536

abbrev pub pump_passes : ℕ
pump_passes = 8

abbrev pub max_payload : ℕ
max_payload = 4096

-- `tail` and `uncommitted`, as sock_recv_commit() is handed them by reference.
pub record Cursor : Type 0 where
  pub tail : ℕ
  pub uncommitted : ℕ

-- sock_recv_commit(): the count to serve, and the cursors after the call.
unfoldable pub sock_recv_commit : Cursor → ℕ → Bool → ℕ → ℕ × Cursor
sock_recv_commit c head replay room =
    let tail = if replay then c.tail else (c.tail + c.uncommitted) % 2 ^ 32 in
    let used = (head + 2 ^ 32 - tail) % 2 ^ 32 in
    let n = if ltb used room then used else room in (n, record { tail = tail; uncommitted = n })

-- The answer of sock_recv_ring_drained_status(): 0, -2 and -3.
pub data Drained : Type 0 where
  eof again reset : Drained

pub sock_recv_ring_drained_status : Bool → Bool → Drained
sock_recv_ring_drained_status peer_closed peer_error =
    if peer_closed then eof else if peer_error then reset else again

-- sock_prefetch_should_arm(): the ring is free, or already this handle's.
pub sock_prefetch_should_arm : ℕ → ℕ → Bool
sock_prefetch_should_arm armed requested = armed == 0 || armed == requested

-- `rx_ring` and `uncommitted`. `buf` is the array as a function of the index.
pub record RxRing : Type 0 where
  pub buf : ℕ → ℕ
  pub head : ℕ
  pub tail : ℕ
  pub uncommitted : ℕ
  pub fd_plus1 : ℕ
  pub peer_closed : Bool
  pub peer_error : Bool

-- memcpy() into and out of the array.
pub store : (ℕ → ℕ) → ℕ → List ℕ → ℕ → ℕ
store buf idx bytes i =
    if leb idx i && ltb i (idx + length bytes) then get_or bytes (i - idx) 0 else buf i

unfoldable pub load : (ℕ → ℕ) → ℕ → ℕ → List ℕ
load buf idx zero = []
load buf idx (suc n) = buf idx ∷ load buf (idx + 1) n

-- cc3501e_hw_sock_prefetch().
pub sock_prefetch : RxRing → ℕ → Bool → RxRing
unfolding sock_prefetch_should_arm
sock_prefetch r handle true =
    if not (sock_prefetch_should_arm r.fd_plus1 handle)
    then r
    else if r.fd_plus1 == handle
    then r
    else record r {
      head = 0;
      tail = 0;
      peer_closed = false;
      peer_error = false;
      uncommitted = 0;
      fd_plus1 = handle;
    }
sock_prefetch r handle false =
    if r.fd_plus1 == handle then record r { fd_plus1 = 0; uncommitted = 0 } else r

-- What cc3501e_hw_sock_recv_ring() reports: -1, a drained status, or the bytes served.
pub data Served : Type 0 where
  not_armed : Served
  drained : Drained → Served
  bytes : List ℕ → Served

-- The two memcpy() calls round the end of the array.
unfoldable pub copy_out : (ℕ → ℕ) → ℕ → ℕ → List ℕ
copy_out buf tail n =
    let idx = tail % ring_bytes in
    let first = if ltb n (ring_bytes - idx) then n else ring_bytes - idx in
    load buf idx first ++ (if ltb first n then load buf 0 (n - first) else [])

-- cc3501e_hw_sock_recv_ring() into a buffer that is not NULL.
unfoldable pub sock_recv_ring : RxRing → ℕ → ℕ → Bool → Served × RxRing
sock_recv_ring r handle room replay =
    let (n, c) =
      sock_recv_commit (record { tail = r.tail; uncommitted = r.uncommitted }) r.head replay room in
    let r' = record r { tail = c.tail; uncommitted = c.uncommitted } in
    if not (r.fd_plus1 == handle) || handle == 0
    then (not_armed, r)
    else if n == 0
    then (drained (sock_recv_ring_drained_status r.peer_closed r.peer_error), r')
    else (bytes (copy_out r.buf c.tail n), r')

-- One lwip_recv() on the prefetched socket. `received []` is its result 0, the end of the stream.
pub data Recv : Type 0 where
  received : List ℕ → Recv
  would_block : Recv
  failed : Recv

-- What a pass does with the outcome, and whether the loop goes on.
pub on_recv : RxRing → ℕ → Recv → RxRing × List ℕ × Bool
on_recv r chunk (received []) = (record r { peer_closed = true }, [], false)
on_recv r chunk (received (b ∷ bs)) = (
  record r {
    buf = store r.buf (r.head % ring_bytes) (b ∷ bs);
    head = (r.head + length (b ∷ bs)) % 2 ^ 32;
  },
  b ∷ bs,
  not (ltb (length (b ∷ bs)) chunk),
)
on_recv r chunk would_block = (r, [], false)
on_recv r chunk failed = (record r { peer_error = true }, [], false)

-- The room up to the wrap and up to what is not yet retired; 0 where the loop returns.
pub pump_room : RxRing → ℕ
pump_room r =
    let used = (r.head + 2 ^ 32 - r.tail) % 2 ^ 32 in
    let chunk = ring_bytes - r.head % ring_bytes in
    let space = ring_bytes - used in
    if ltb (ring_bytes - max_payload) used then 0 else if ltb space chunk then space else chunk

-- cc3501e_hw_sock_pump(). The TCP stack is a parameter: `recv` is lwip_recv() on the prefetched
-- socket, which takes the room in the array and gives its outcome and the socket's new state. The
-- list that a pump returns holds the bytes that it stored.
module _ {Socket : Type 0} (recv : Socket → ℕ → Recv × Socket) where
  pub pump_loop : ℕ → RxRing → Socket → RxRing × Socket × List ℕ
  pump_loop zero r s = (r, s, [])
  pump_loop (suc passes) r s =
      let (outcome, s') = recv s (pump_room r) in
      let (r', stored, more) = on_recv r (pump_room r) outcome in
      let (r'', s'', rest) = pump_loop passes r' s' in
      if pump_room r == 0
      then (r, s, [])
      else if more
      then (r'', s'', stored ++ rest)
      else (r', s', stored)

  pub sock_pump : RxRing → Socket → RxRing × Socket × List ℕ
  sock_pump r s =
      if r.fd_plus1 == 0 || (r.peer_closed || r.peer_error)
      then (r, s, [])
      else pump_loop pump_passes r s
