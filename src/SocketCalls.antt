-- ===== src/SocketCalls.antt =====
-- The socket calls of hal/ti/cc3501e_hw_ti_sock.c that the worker and the tick make, with the table of
-- listening sockets and the latch of src/sock_worker_recv_eof.h.
pub mod Accept
pub mod Latched
mod Tests
use cc3501e_bridge_firmware.Base.{
  ℕ, ◌+◌, ◌-◌, ◌*◌, ◌%◌, Bool, true, false, not, ◌&&◌, ◌||◌, Option, none, some, List, [], ◌∷◌,
  ◌++◌, ltb, leb, ◌==◌, if◌then◌else◌, length, get_or, set, take, replicate,
}
use cc3501e_bridge_firmware.Wire.{
  HwRv, hw_ok, hw_notimpl, hw_io, hw_inval, hw_state, Layout, put_le16,
}
use cc3501e_bridge_firmware.EventRing
use cc3501e_bridge_firmware.EventRing.{Ring}
use cc3501e_bridge_firmware.SockRing.{RxRing, sock_prefetch}

-- CC3501E_SOCK_RCVTIMEO_MS in microseconds, and CC3501E_SOCK_LISTEN_BACKLOG_DEFAULT.
abbrev pub rcvtimeo_us : ℕ
rcvtimeo_us = 2000

abbrev pub backlog_default : ℕ
backlog_default = 4

-- What lwip_recvfrom() and lwip_send() come to: errno is EAGAIN or EWOULDBLOCK, or another one, or
-- there is a result.
pub data Outcome (A : Type 0) : Type 0 where
  would_block : Outcome A
  failed : Outcome A
  result : A → Outcome A

-- A connection that lwip_accept() returns: the descriptor, and the port and the address of the peer.
pub record Peer : Type 0 where
  pub fd : ℕ
  pub port : ℕ
  pub addr : List ℕ

-- The TCP/IP stack. A Boolean result is true for success; `recvfrom` returns the bytes, and the
-- address and the port of the sender where its family is AF_INET.
pub record Lwip (S : Type 0) : Type 0 where
  pub event_accepted : ℕ
  pub type_dgram : ℕ
  pub socket : S → Bool → ℕ → Option ℕ × S
  pub close : S → ℕ → Bool × S
  pub set_rcvtimeo : S → ℕ → ℕ → Bool × S
  pub set_nonblock : S → ℕ → Bool × S
  pub set_reuseaddr : S → ℕ → S
  pub bind : S → ℕ → ℕ → List ℕ → Bool × S
  pub listen : S → ℕ → ℕ → Bool × S
  pub accept : S → ℕ → Option Peer × S
  pub send : S → ℕ → List ℕ → Outcome ℕ × S
  pub recvfrom : S → ℕ → ℕ → Outcome (List ℕ × Option (List ℕ × ℕ)) × S
  pub is_stream : S → ℕ → Bool

-- listen_handles, sock_eof and rx_ring.
pub record Calls : Type 0 where
  pub listen_handles : List ℕ
  pub sock_eof : List Bool
  pub rx : RxRing

-- sock_worker_recv_eof_should_latch(), sock_worker_recv_eof_check() and sock_worker_recv_eof_set();
-- a descriptor is 0 or more.
unfoldable pub should_latch : ℕ → ℕ → Bool → Bool
should_latch n want is_stream = n == 0 && (ltb 0 want && is_stream)

unfoldable pub eof_check : List Bool → ℕ → Bool
eof_check table fd = ltb fd (length table) && get_or table fd false

unfoldable pub eof_set : List Bool → ℕ → Bool → List Bool
eof_set table fd value = if ltb fd (length table) then set table fd value else table

unfoldable pub listen_table_remove : List ℕ → ℕ → List ℕ
listen_table_remove [] handle = []
listen_table_remove (h ∷ more) handle =
    (if h == handle then 0 else h) ∷ listen_table_remove more handle

-- The search for a free slot in cc3501e_hw_sock_listen(): the length of the table where none is free.
unfoldable pub free_listen_slot : List ℕ → ℕ
free_listen_slot [] = 0
free_listen_slot (h ∷ more) = let rest = free_listen_slot more in if h == 0 then 0 else 1 + rest

module _ {S : Type 0} (l : Lwip S) where
  -- cc3501e_hw_sock_open() behind lwip_socket(): the result and the handle.
  unfoldable pub opened : Option ℕ × S → HwRv × ℕ × S
  opened (none, s) = (hw_notimpl, 0, s)
  opened (some fd, s) =
      if leb 65535 fd
      then (hw_io, 0, (l.close s fd).1)
      else (hw_ok, fd + 1, (l.set_rcvtimeo s fd rcvtimeo_us).1)

  -- cc3501e_hw_sock_open().
  unfoldable pub hw_sock_open : Layout → ℕ → ℕ → ℕ → S → HwRv × ℕ × S
  unfolding opened
  hw_sock_open w family kind protocol s =
      if not (family == w.family_ipv4)
      then (hw_inval, 0, s)
      else opened (l.socket s (kind == l.type_dgram) protocol)

  -- cc3501e_hw_sock_bind() of an address that is not NULL.
  unfoldable pub hw_sock_bind : Layout → ℕ → ℕ → ℕ → List ℕ → S → HwRv × S
  hw_sock_bind w handle family port addr s =
      let (bound, s') = l.bind (l.set_reuseaddr s (handle - 1)) (handle - 1) port addr in
      if handle == 0 || not (family == w.family_ipv4)
      then (hw_inval, s)
      else (if bound then hw_ok else hw_io, s')

  -- lwip_listen() of cc3501e_hw_sock_listen(), with the slot claimed; `table` is what it was.
  unfoldable pub go_passive : Calls → ℕ → ℕ → ℕ → List ℕ → S → HwRv × Calls × S
  go_passive c handle backlog slot table s =
      let claimed = set table slot handle in
      let (passive, s') =
        l.listen s (handle - 1) (if backlog == 0 then backlog_default else backlog) in
      if passive
      then (hw_ok, record c { listen_handles = claimed }, s')
      else (hw_io, record c { listen_handles = set claimed slot 0 }, s')

  -- cc3501e_hw_sock_listen() of a socket whose accept is bounded.
  unfoldable pub reserve : Calls → ℕ → ℕ → S → HwRv × Calls × S
  unfolding go_passive
  reserve c handle backlog s =
      let table = listen_table_remove c.listen_handles handle in
      let slot = free_listen_slot table in
      if slot == length table
      then (hw_state, record c { listen_handles = table }, s)
      else go_passive c handle backlog slot table s

  -- cc3501e_hw_sock_listen().
  unfoldable pub hw_sock_listen : Calls → ℕ → ℕ → S → HwRv × Calls × S
  unfolding reserve
  hw_sock_listen c handle backlog s =
      let (nonblock, s1) = l.set_nonblock s (handle - 1) in
      let (timed, s2) = l.set_rcvtimeo s1 (handle - 1) 1000 in
      if handle == 0
      then (hw_inval, c, s)
      else if nonblock
      then reserve c handle backlog s1
      else if timed
      then reserve c handle backlog s2
      else (hw_io, c, s2)

  -- The payload of an event that tells the host of a connection.
  abbrev pub accepted_event : Layout → ℕ → Peer → List ℕ
  accepted_event w lh p =
      put_le16 lh
      ++ (put_le16 (p.fd + 1) ++ (put_le16 p.port ++ (w.family_ipv4 ∷ 0 ∷ take 4 p.addr)))

  -- The end of a pass of cc3501e_hw_sock_accept_pump(): an event that has no room closes the socket.
  unfoldable pub announced : ℕ → S → Ring × Bool → Ring × S
  announced fd s (ring, true) = (ring, s)
  announced fd s (ring, false) = (ring, (l.close s fd).1)

  unfoldable pub accept_on : Layout → ℕ → Ring → Option Peer × S → Ring × S
  unfolding announced
  accept_on w lh ring (none, s) = (ring, s)
  accept_on w lh ring (some p, s) =
      if leb 65535 p.fd
      then (ring, (l.close s p.fd).1)
      else announced p.fd (l.set_rcvtimeo s p.fd rcvtimeo_us).1
          (EventRing.push ring l.event_accepted (some (accepted_event w lh p)) 12)

  unfoldable pub accept_one : Layout → ℕ → Ring → S → Ring × S
  unfolding accept_on
  accept_one w lh ring s = if lh == 0 then (ring, s) else accept_on w lh ring (l.accept s (lh - 1))

  -- cc3501e_hw_sock_accept_pump(), over the table.
  unfoldable pub accept_pump : Layout → List ℕ → Ring → S → Ring × S
  accept_pump w [] ring s = (ring, s)
  accept_pump w (lh ∷ more) ring s =
      let (ring', s') = accept_one w lh ring s in accept_pump w more ring' s'

  -- cc3501e_hw_sock_send() of data that are not NULL: the result and the count that is queued.
  unfoldable pub sent : Outcome ℕ × S → HwRv × ℕ × S
  sent (would_block, s) = (hw_ok, 0, s)
  sent (failed, s) = (hw_io, 0, s)
  sent (result n, s) = (hw_ok, n % 65536, s)

  unfoldable pub hw_sock_send : ℕ → List ℕ → S → HwRv × ℕ × S
  unfolding sent
  hw_sock_send handle payload s =
      if handle == 0 then (hw_inval, 0, s) else sent (l.send s (handle - 1) payload)

  -- What cc3501e_hw_sock_recv() hands back: the bytes, and the address and the port of the sender.
  abbrev pub Received : Type 0
  Received = List ℕ × Option (List ℕ × ℕ)

  -- cc3501e_hw_sock_recv() behind lwip_recvfrom().
  unfoldable pub received :
      Calls → ℕ → ℕ → Outcome (List ℕ × Option (List ℕ × ℕ)) × S → HwRv × Received × Calls × S
  received c fd want (would_block, s) = (hw_ok, ([], none), c, s)
  received c fd want (failed, s) = (hw_io, ([], none), c, s)
  received c fd want (result (bytes, from), s) = (
    hw_ok,
    (bytes, from),
    if should_latch (length bytes) want (l.is_stream s fd)
        then record c { sock_eof = eof_set c.sock_eof fd true }
        else c,
    s,
  )

  -- cc3501e_hw_sock_recv() into a buffer that is not NULL; an address of zeros and the port 0 are none.
  unfoldable pub hw_sock_recv : Calls → ℕ → ℕ → ℕ → S → HwRv × Received × Calls × S
  unfolding received
  hw_sock_recv c handle max_len cap s =
      let want = if ltb max_len cap then max_len else cap in
      if handle == 0
      then (hw_inval, ([], none), c, s)
      else if eof_check c.sock_eof (handle - 1)
      then (hw_ok, ([], none), c, s)
      else if want == 0
      then (hw_ok, ([], none), c, s)
      else received c (handle - 1) want (l.recvfrom s (handle - 1) want)

  -- cc3501e_hw_sock_close().
  unfoldable pub hw_sock_close : Calls → ℕ → S → HwRv × Calls × S
  hw_sock_close c handle s =
      let c1 = record c {
        rx = sock_prefetch c.rx handle false;
        listen_handles = listen_table_remove c.listen_handles handle;
      } in
      let (closed, s') = l.close s (handle - 1) in
      if handle == 0 then (hw_inval, c1, s) else (
        if closed then hw_ok else hw_io,
        record c1 { sock_eof = eof_set c1.sock_eof (handle - 1) false },
        s',
      )
