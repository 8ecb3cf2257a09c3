-- ===== src/Connect/Success.antt =====
-- What a connect that reports success has seen, and how it leaves the flags of the socket.
use cc3501e_bridge_firmware.Base.{
  ℕ, zero, suc, ◌+◌, ◌-◌, ◌%◌, ◌^◌, ◌≡◌, ◌⊎◌, inl, inr, refl, ap, sym, subst, Bool, true, false,
  ◌&&◌, Option, none, some, ◌==◌, Bool-cases, arith,
}
use Prim.Native.Nat.{bit_or}
use cc3501e_bridge_firmware.Connect.{
  Ready, writable, timed_out, wait_failed, Ops, slice_ms, connected, on_ready, pass, ended,
  wait_loop, connect, restore, with_flags, opened, sock_connect_run,
}

abbrev is_true : Option Bool → Bool
is_true none = false
is_true (some b) = b

connected_zero : (e : Option ℕ) → connected e ≡ true → e ≡ some 0
unfolding connected
connected_zero none h = cc
connected_zero (some n) h = ap (λ k. some k) (ground arith)

module _ {S : Type 0} (o : Ops S) where
  -- `n` passes of the loop from `s` on end without an outcome, and lead to `u`.
  abbrev pub Waits : ℕ → ℕ → S → S → Type 0
  Waits t0 zero s u = s ≡ u
  Waits t0 (suc n) s u = ((pass o t0 s).0 ≡ none) × Waits t0 n (pass o t0 s).1 u

  -- The state behind the wait of the pass that starts in `u`.
  abbrev pub waited : ℕ → S → Ready × S
  waited t0 u =
      let (now, u1) = o.now_ms u in o.wait_writable u1 (slice_ms ((now + 2 ^ 32 - t0) % 2 ^ 32))

  -- In the pass that starts in `u` the socket became writable and its error was read as 0, which led
  -- to `e`.
  abbrev pub Cleared : ℕ → S → S → Type 0
  Cleared t0 u e =
      ((waited t0 u).0 ≡ writable)
      × ((o.so_error (waited t0 u).1).0 ≡ some 0)
      × (e ≡ (o.so_error (waited t0 u).1).1)

  -- The states of a connect that starts in `s`: behind its first call, behind the question whether it
  -- is in progress, and at the start of the loop.
  abbrev pub asked : S → Bool × S
  asked s = o.in_progress (o.start_connect s).1

  abbrev pub entered : S → ℕ × S
  entered s = o.now_ms (asked s).1

  -- A connect that starts in `s` was told in `e` that the socket is connected: by its first call, or
  -- after some passes of its loop by a writable socket whose error is 0.
  abbrev pub Connected : S → S → Type 0
  Connected s e =
      (((o.start_connect s).0 ≡ true) × (e ≡ (o.start_connect s).1))
      ⊎ (((o.start_connect s).0 ≡ false)
          × ((asked s).0 ≡ true)
          × ((n : ℕ) × (u : S) × Waits (entered s).0 n (entered s).1 u × Cleared (entered s).0 u e))

  on_ready-Cleared :
      (t0 : ℕ) (u e : S) (ready : Ready)
      → (waited t0 u).0 ≡ ready
      → on_ready o ready (waited t0 u).1 ≡ (some true, e)
      → Cleared t0 u e
  unfolding on_ready
  on_ready-Cleared t0 u e writable w h =
      let c : connected (o.so_error (waited t0 u).1).0 ≡ true =
        ap (λ (x : Option Bool × S). is_true x.0) h in
      (w, connected_zero _ c, sym (ap (λ (x : Option Bool × S). x.1) h))
  on_ready-Cleared t0 u e wait_failed w h =
      let x = ap (λ (x : Option Bool × S). is_true x.0) h in cc x
  on_ready-Cleared t0 u e timed_out w h =
      let x = ap (λ (x : Option Bool × S). is_true x.0) h in cc x

  pass-Cleared : (t0 : ℕ) (u e : S) → pass o t0 u ≡ (some true, e) → Cleared t0 u e
  unfolding pass
  pass-Cleared t0 u e h =
      let slice = slice_ms (((o.now_ms u).0 + 2 ^ 32 - t0) % 2 ^ 32) in
      elim (Bool-cases (slice == 0)) [
        | inl z ↦ let x = ap (λ (x : Option Bool × S). is_true x.0) (rw z at h) in cc x
        | inr z ↦ on_ready-Cleared t0 u e (waited t0 u).0 refl (rw z at h)
      ]

  -- A loop that ends well: the pass ends so, or it ends without an outcome and the rest ends so.
  ended_cases :
      (r rest : Option Bool × S) (e : S)
      → ended o r rest ≡ (some true, e)
      → (r ≡ (some true, e)) ⊎ ((r.0 ≡ none) × (rest ≡ (some true, e)))
  ended_cases (some rc, s) rest e h = inl h
  ended_cases (none, s) rest e h = inr (refl, h)

  wait_loop-Cleared :
      (fuel t0 : ℕ) (s e : S)
      → wait_loop o fuel t0 s ≡ (some true, e)
      → (n : ℕ) × (u : S) × Waits t0 n s u × Cleared t0 u e
  unfolding wait_loop
  wait_loop-Cleared zero t0 s e h = let x = ap (λ (x : Option Bool × S). is_true x.0) h in cc x
  wait_loop-Cleared (suc fuel) t0 s e h =
      elim (ended_cases (pass o t0 s) (wait_loop o fuel t0 (pass o t0 s).1) e h) [
        | inl p ↦ (0, s, refl, pass-Cleared t0 s e p)
        | inr (w, rest) ↦
            let (n, u, ws, c) = wait_loop-Cleared fuel t0 (pass o t0 s).1 e rest in
            (suc n, u, (w, ws), c)
      ]

  connect-Connected : (fuel : ℕ) (s e : S) → connect o fuel s ≡ (some true, e) → Connected s e
  unfolding connect
  connect-Connected fuel s e h = elim (Bool-cases (o.start_connect s).0) [
    | inl y ↦ inl (y, sym (ap (λ (x : Option Bool × S). x.1) (rw y at h)))
    | inr n ↦ elim (Bool-cases (asked s).0) [
      | inr m ↦ let x = ap (λ (x : Option Bool × S). is_true x.0) (rw (n, m) at h) in cc x
      | inl y ↦ inr (n, y, wait_loop-Cleared fuel (entered s).0 (entered s).1 e (rw (n, y) at h))
    ]
  ]

  restore-ends :
      (orig : ℕ) (r : Option Bool × S) (s' : S)
      → restore o orig r ≡ (some true, s')
      → (e : S) × (r ≡ (some true, e))
        × ((o.set_flags e orig).0 ≡ true)
        × (s' ≡ (o.set_flags e orig).1)
  unfolding restore
  restore-ends orig (none, s) s' h = let x = ap (λ (x : Option Bool × S). is_true x.0) h in cc x
  restore-ends orig (some rc, s) s' h =
      let both : ((o.set_flags s orig).0 && rc) ≡ true =
        ap (λ (x : Option Bool × S). is_true x.0) h in
      elim (Bool-cases (o.set_flags s orig).0) [
        | inl y ↦
            let rc_true : rc ≡ true = rw y at both in
            (s, ap (λ b. (some b, s)) rc_true, y, sym (ap (λ (x : Option Bool × S). x.1) h))
        | inr n ↦ let h' = rw n at both in cc h'
      ]

  -- The state in which the connect itself starts, with the socket set not to block.
  abbrev pub unblocked : ℕ → S → Bool × S
  unblocked orig s = o.set_flags s (bit_or orig o.nonblock_flag)

  -- A run from `s` to `s'` that found the socket connected and set its flags back: the flags read are
  -- `orig`, the socket was set not to block, the connect was told in `e` that the socket is connected,
  -- and setting the flags to `orig` again led from `e` to `s'`.
  abbrev pub Succeeds : S → S → Type 0
  Succeeds s s' =
      (orig : ℕ) × (e : S) × ((o.get_flags s).0 ≡ some orig)
      × ((unblocked orig (o.get_flags s).1).0 ≡ true)
      × Connected (unblocked orig (o.get_flags s).1).1 e
      × ((o.set_flags e orig).0 ≡ true)
      × (s' ≡ (o.set_flags e orig).1)

  opened-Succeeds :
      (fuel : ℕ) (s : S) (r : Option ℕ × S) (s' : S)
      → o.get_flags s ≡ r
      → opened o fuel r ≡ (some true, s')
      → Succeeds s s'
  unfolding opened with_flags
  opened-Succeeds fuel s (none, s0) s' g h =
      let x = ap (λ (x : Option Bool × S). is_true x.0) h in cc x
  opened-Succeeds fuel s (some orig, s0) s' g h = elim (Bool-cases (unblocked orig s0).0) [
    | inl y ↦
        let (e, c, back, last) =
          restore-ends orig (connect o fuel (unblocked orig s0).1) s' (rw y at h) in
        let at : s0 ≡ (o.get_flags s).1 = sym (ap (λ (x : Option ℕ × S). x.1) g) in
        (
          orig,
          e,
          ap (λ (x : Option ℕ × S). x.0) g,
          subst (λ t. (unblocked orig t).0 ≡ true) at y,
          subst (λ t. Connected (unblocked orig t).1 e) at
              (connect-Connected fuel (unblocked orig s0).1 e c),
          back,
          last,
        )
    | inr n ↦ let x = ap (λ (x : Option Bool × S). is_true x.0) (rw n at h) in cc x
  ]

  -- A connect that reports success has, in this run, been told that the socket is connected: by its
  -- first call, or, after passes of its loop that ended without an outcome, by a socket that became
  -- writable and whose error was read as 0. The next and last thing that it did was to set the flags
  -- of the socket back to those that it had read first.
  pub sock_connect_run-Succeeds :
      (fuel : ℕ) (s s' : S) → sock_connect_run o fuel s ≡ (some true, s') → Succeeds s s'
  unfolding sock_connect_run
  sock_connect_run-Succeeds fuel s s' h = opened-Succeeds fuel s (o.get_flags s) s' refl h
