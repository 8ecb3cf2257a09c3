-- ===== src/SocketCalls/Latched.antt =====
-- The latch of the end of a stream: cc3501e_hw_sock_recv() among the other socket calls.
use cc3501e_bridge_firmware.Base.{
  ℕ, ◌-◌, ◌≤◌, ◌<◌, ◌≡◌, ◌≢◌, inl, inr, refl, Bool, true, false, Option, none, List, [], ◌∷◌, ltb,
  ◌==◌, if◌then◌else◌, length, get_or, set, length-set, get_or-set_self, get_or-set_ne, Bool-cases,
  ltb-true, arith,
}
use cc3501e_bridge_firmware.Wire.{hw_ok}
use cc3501e_bridge_firmware.SocketCalls.{
  Outcome, would_block, failed, result, Lwip, Calls, should_latch, eof_check, eof_set, go_passive,
  reserve, hw_sock_listen, received, hw_sock_recv, hw_sock_close,
}

eof_check-eof_set_self :
    (t : List Bool) (fd : ℕ) → fd < length t → eof_check (eof_set t fd true) fd ≡ true
unfolding eof_check eof_set
eof_check-eof_set_self t fd h =
    let n = length-set t fd true in
    rw
      (
        ltb-true fd (length t) h,
        get_or-set_self t fd true false h,
        ltb-true fd (length (set t fd true)) (omega (arith, n)),
      )
      refl

eof_check_in : (t : List Bool) (fd : ℕ) → eof_check t fd ≡ true → fd < length t
unfolding eof_check
eof_check_in t fd h = ground arith

eof_check_at : (t : List Bool) (fd : ℕ) → eof_check t fd ≡ true → get_or t fd false ≡ true
unfolding eof_check
eof_check_at t fd h = let x = rw (ltb-true fd (length t) (eof_check_in t fd h)) at h in x

-- Another descriptor's flag leaves this one as it is.
eof_check-eof_set_ne :
    (t : List Bool) (i fd : ℕ) (v : Bool)
    → i ≢ fd
    → eof_check t fd ≡ true
    → eof_check (eof_set t i v) fd ≡ true
unfolding eof_check eof_set
eof_check-eof_set_ne t i fd v ne h = elim (Bool-cases (ltb i (length t))) [
  | inr out ↦ rw out h
  | inl inside ↦
      let n = length-set t i v in
      let lt = eof_check_in t fd h in
      rw
        (
          inside,
          ltb-true fd (length (set t i v)) (omega (arith, n, lt)),
          get_or-set_ne t i fd v false ne,
        )
        (eof_check_at t fd h)
]

eof_check-eof_set_raised :
    (t : List Bool) (i fd : ℕ) → eof_check t fd ≡ true → eof_check (eof_set t i true) fd ≡ true
eof_check-eof_set_raised t i fd h = elim (Bool-cases (i == fd)) [
  | inl y ↦
      let e : i ≡ fd = ground arith in rw e (eof_check-eof_set_self t fd (eof_check_in t fd h))
  | inr n ↦ eof_check-eof_set_ne t i fd true (ground arith) h
]

-- The calls that the worker makes and that have the latch or the table at hand.
pub data Act : Type 0 where
  recv : ℕ → ℕ → ℕ → Act
  close : ℕ → Act
  listen : ℕ → ℕ → Act

-- All but a close of this handle.
abbrev pub Leaves : ℕ → Act → Type 0
Leaves handle (close h) = h ≢ handle
Leaves handle (recv h max_len cap) = Unit
Leaves handle (listen h backlog) = Unit

abbrev pub AllLeave : ℕ → List Act → Type 0
AllLeave handle [] = Unit
AllLeave handle (a ∷ more) = Leaves handle a × AllLeave handle more

module _ {S : Type 0} (l : Lwip S) where
  abbrev pub act : Act → Calls × S → Calls × S
  act (recv h max_len cap) (c, s) = let r = hw_sock_recv l c h max_len cap s in (r.2, r.3)
  act (close h) (c, s) = let r = hw_sock_close l c h s in (r.1, r.2)
  act (listen h backlog) (c, s) = let r = hw_sock_listen l c h backlog s in (r.1, r.2)

  abbrev pub run : List Act → Calls × S → Calls × S
  run [] s = s
  run (a ∷ more) s = run more (act a s)

  received-eof :
      (c : Calls) (i fd want : ℕ) (o : Outcome (List ℕ × Option (List ℕ × ℕ)) × S)
      → eof_check c.sock_eof fd ≡ true
      → eof_check (received l c i want o).2.sock_eof fd ≡ true
  unfolding received
  received-eof c i fd want (would_block, s) h = h
  received-eof c i fd want (failed, s) h = h
  received-eof c i fd want (result (bytes, from), s) h =
      elim (Bool-cases (should_latch (length bytes) want (l.is_stream s i))) [
        | inl y ↦ rw y (eof_check-eof_set_raised c.sock_eof i fd h)
        | inr n ↦ rw n h
      ]

  listen-eof :
      (c : Calls) (handle backlog : ℕ) (s : S)
      → (hw_sock_listen l c handle backlog s).1.sock_eof ≡ c.sock_eof
  unfolding hw_sock_listen reserve go_passive
  listen-eof c handle backlog s = ground arith

  recv-eof :
      (c : Calls) (h max_len cap fd : ℕ) (s : S)
      → eof_check c.sock_eof fd ≡ true
      → eof_check (hw_sock_recv l c h max_len cap s).2.sock_eof fd ≡ true
  unfolding hw_sock_recv
  recv-eof c h max_len cap fd s e =
      let want = if ltb max_len cap then max_len else cap in
      let k = received-eof c (h - 1) fd want (l.recvfrom s (h - 1) want) e in
      elim (Bool-cases (h == 0)) [
        | inl y ↦ rw y e
        | inr n ↦ elim (Bool-cases (eof_check c.sock_eof (h - 1))) [
          | inl y ↦ rw (n, y) e
          | inr m ↦ elim (Bool-cases (want == 0)) [
            | inl y ↦ rw (n, m, y) e
            | inr z ↦ rw (n, m, z) k
          ]
        ]
      ]

  close-eof :
      (c : Calls) (h handle : ℕ) (s : S)
      → h ≢ handle
      → handle ≢ 0
      → eof_check c.sock_eof (handle - 1) ≡ true
      → eof_check (hw_sock_close l c h s).1.sock_eof (handle - 1) ≡ true
  unfolding hw_sock_close
  close-eof c h handle s ne some_handle e = elim (Bool-cases (h == 0)) [
    | inl y ↦ rw y e
    | inr n ↦ rw n (
        eof_check-eof_set_ne c.sock_eof (h - 1) (handle - 1) false
          (λ x. let h0 : h ≢ 0 = ground arith in ne (omega arith)) e)
  ]

  act-eof :
      (a : Act) (c : Calls) (handle : ℕ) (s : S)
      → Leaves handle a
      → handle ≢ 0
      → eof_check c.sock_eof (handle - 1) ≡ true
      → eof_check (act a (c, s)).0.sock_eof (handle - 1) ≡ true
  act-eof (recv h max_len cap) c handle s k z e = recv-eof c h max_len cap (handle - 1) s e
  act-eof (close h) c handle s k z e = close-eof c h handle s k z e
  act-eof (listen h backlog) c handle s k z e = rw (listen-eof c h backlog s) e

  run-eof :
      (acts : List Act) (c : Calls) (handle : ℕ) (s : S)
      → AllLeave handle acts
      → handle ≢ 0
      → eof_check c.sock_eof (handle - 1) ≡ true
      → eof_check (run acts (c, s)).0.sock_eof (handle - 1) ≡ true
  run-eof [] c handle s k z e = e
  run-eof (a ∷ more) c handle s k z e =
      let r = act a (c, s) in run-eof more r.0 handle r.1 k.1 z (act-eof a c handle s k.0 z e)

  -- A receive that meets the end of a stream latches it.
  recv_latches :
      (c : Calls) (handle max_len cap : ℕ) (s : S) (from : Option (List ℕ × ℕ))
      → handle ≢ 0
      → handle ≤ length c.sock_eof
      → 0 < max_len
      → 0 < cap
      → let got = l.recvfrom s (handle - 1) (if ltb max_len cap then max_len else cap) in
        got.0 ≡ result ([], from)
        → l.is_stream got.1 (handle - 1) ≡ true
        → eof_check (hw_sock_recv l c handle max_len cap s).2.sock_eof (handle - 1) ≡ true
  unfolding hw_sock_recv received should_latch
  recv_latches c handle max_len cap s from z inside m k e stream =
      let want = if ltb max_len cap then max_len else cap in
      let asked : 0 < want = ground arith in
      let nz : (handle == 0) ≡ false = ground arith in
      let nw : (want == 0) ≡ false = ground arith in
      elim (Bool-cases (eof_check c.sock_eof (handle - 1))) [
        | inl y ↦ rw (nz, y) y
        | inr n ↦
            rw (nz, n, nw, e, stream, ltb-true 0 want asked)
              (eof_check-eof_set_self c.sock_eof (handle - 1) (omega arith))
      ]

  -- A receive from a handle whose latch is set.
  recv_latched :
      (c : Calls) (handle max_len cap : ℕ) (s : S)
      → handle ≢ 0
      → eof_check c.sock_eof (handle - 1) ≡ true
      → hw_sock_recv l c handle max_len cap s ≡ (hw_ok, ([], none), c, s)
  unfolding hw_sock_recv
  recv_latched c handle max_len cap s z e =
      let nz : (handle == 0) ≡ false = ground arith in rw (nz, e) refl

  -- A receive from a stream whose end it meets, asked for a byte or more, latches the end: whatever
  -- the other receives, listens and closes of other handles do, each later receive from that handle
  -- returns OK and no bytes, does not call the stack, and changes nothing.
  pub hw_sock_recv_stays :
      (c : Calls) (handle max_len cap : ℕ) (s : S) (from : Option (List ℕ × ℕ)) (acts : List Act)
      (max_len' cap' : ℕ)
      → handle ≢ 0
      → handle ≤ length c.sock_eof
      → 0 < max_len
      → 0 < cap
      → (l.recvfrom s (handle - 1) (if ltb max_len cap then max_len else cap)).0 ≡ result ([], from)
      → l.is_stream
          (l.recvfrom s (handle - 1) (if ltb max_len cap then max_len else cap)).1
          (handle - 1)
        ≡ true
      → AllLeave handle acts
      → let (c', s') = run acts (act (recv handle max_len cap) (c, s)) in
        hw_sock_recv l c' handle max_len' cap' s' ≡ (hw_ok, ([], none), c', s')
  hw_sock_recv_stays c handle max_len cap s from acts max_len' cap' z inside m k e stream others =
      let r = act (recv handle max_len cap) (c, s) in
      let q = run acts r in
      recv_latched q.0 handle max_len' cap' q.1 z (
        run-eof acts r.0 handle r.1 others z
          (recv_latches c handle max_len cap s from z inside m k e stream))
