-- ===== src/SocketCalls/Tests.antt =====
-- A stack that owns a list of sockets, and takes a connection on every descriptor but 0.
use cc3501e_bridge_firmware.Base.{
  ℕ, suc, zero, ◌+◌, ◌≤◌, ◌≡◌, refl, ap, true, false, Option, none, some, List, [], ◌∷◌, length,
  drop, replicate, arith,
}
use cc3501e_bridge_firmware.Wire.{hw_ok}
use cc3501e_bridge_firmware.EventRing.{Ring, slots}
use cc3501e_bridge_firmware.EventRing.Invariant.{SlotOk, IsValid}
use cc3501e_bridge_firmware.SocketCalls.{
  would_block, result, Peer, Lwip, Calls, accept_pump, hw_sock_recv,
}
use cc3501e_bridge_firmware.SocketCalls.Accept.{Owns, Announces, accept_pump-Announces}
use cc3501e_bridge_firmware.SocketCalls.Latched.{recv, close, listen, act, run, hw_sock_recv_stays}
use cc3501e_bridge_firmware.Fixture.{blank, layout}

abbrev peer : ℕ → Peer
peer fd = record { fd = fd; port = 80; addr = 10 ∷ 0 ∷ 0 ∷ 7 ∷ [] }

abbrev take_one : List ℕ → ℕ → Option Peer × List ℕ
take_one s zero = (none, s)
take_one s (suc fd) = (some (peer (5 + length s)), (5 + length s) ∷ s)

-- A peer that has closed: each receive returns no bytes.
abbrev stack : Lwip (List ℕ)
stack = record {
  event_accepted = 7;
  type_dgram = 1;
  socket = λ s dgram protocol. (some 3, s);
  close = λ s fd. (true, drop 1 s);
  set_rcvtimeo = λ s fd us. (true, s);
  set_nonblock = λ s fd. (true, s);
  set_reuseaddr = λ s fd. s;
  bind = λ s fd port addr. (true, s);
  listen = λ s fd backlog. (true, s);
  accept = take_one;
  send = λ s fd payload. (would_block, s);
  recvfrom = λ s fd want. (result ([], none), s);
  is_stream = λ s fd. true;
}

refused : (s : List ℕ) (fd : ℕ) → (take_one s fd).0 ≡ none → (take_one s fd).1 ≡ s
refused s zero e = refl
refused s (suc fd) e = cc e

accepts :
    (s : List ℕ) (fd : ℕ) (p : Peer) → (take_one s fd).0 ≡ some p → (take_one s fd).1 ≡ p.fd ∷ s
accepts s zero p e = cc e
accepts s (suc fd) p e =
    let x : some (5 + length s) ≡ some p.fd =
      ap (λ (o : Option Peer). elim o [ none ↦ none | some q ↦ some q.fd ]) e in
    cc x

addresses : (s : List ℕ) (fd : ℕ) (p : Peer) → (take_one s fd).0 ≡ some p → 4 ≤ length p.addr
addresses s zero p e = cc e
addresses s (suc fd) p e =
    let x : some 4 ≡ some (length p.addr) =
      ap (λ (o : Option Peer). elim o [ none ↦ none | some q ↦ some (length q.addr) ]) e in
    let y : 4 ≡ length p.addr = cc x in omega (arith, y)

stack-Owns : Owns stack (λ s. s)
stack-Owns = record {
  refused = refused;
  accepts = accepts;
  addresses = addresses;
  closes = λ s fd rest e. ap (λ t. drop 1 t) e;
  sets = λ s fd us. refl;
}

-- A ring with room for one event.
abbrev near_full : Ring
near_full = record { slot = replicate slots blank; head = 0; tail = 15; count = 15; attn = 0 }

blank-SlotOk : SlotOk blank
blank-SlotOk = record { clamped = omega arith; room = refl }

near_full-IsValid : IsValid near_full
near_full-IsValid =
    let s = blank-SlotOk in
    record {
      depth = refl;
      head_in = omega arith;
      count_in = omega arith;
      tail_at = refl;
      stored = (s, (s, (s, (s, (s, (s, (s, (s, (s, (s, (s, (s, (s, (s, (s, (s, tt))))))))))))))));
    }

-- Two connections come in, on the handles 3 and 9; the second one finds no room.
accept_pump-Announces_example :
    Announces stack layout
      (λ s. s)
      stack-Owns
      near_full
      []
      (accept_pump stack layout (3 ∷ 0 ∷ 9 ∷ 1 ∷ []) near_full [])
accept_pump-Announces_example =
    accept_pump-Announces stack layout (λ s. s) stack-Owns (3 ∷ 0 ∷ 9 ∷ 1 ∷ []) near_full []
      near_full-IsValid

abbrev calls : Calls
calls = record {
  listen_handles = 0 ∷ 0 ∷ 0 ∷ 0 ∷ [];
  sock_eof = replicate 16 false;
  rx = record {
    buf = λ i. 0;
    head = 0;
    tail = 0;
    uncommitted = 0;
    fd_plus1 = 0;
    peer_closed = false;
    peer_error = false;
  };
}

hw_sock_recv_stays_example :
    let (c', s') =
      run stack (close 2 ∷ listen 4 0 ∷ recv 5 8 8 ∷ []) (act stack (recv 3 100 50) (calls, [])) in
    hw_sock_recv stack c' 3 20 20 s' ≡ (hw_ok, ([], none), c', s')
hw_sock_recv_stays_example =
    hw_sock_recv_stays stack calls 3 100 50 [] none (close 2 ∷ listen 4 0 ∷ recv 5 8 8 ∷ []) 20 20
      (λ e. omega arith) (omega arith) (omega arith) (omega arith) refl refl
      (λ e. omega arith, (tt, (tt, tt)))
