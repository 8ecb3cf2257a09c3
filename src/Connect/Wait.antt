-- ===== src/Connect/Wait.antt =====
-- The connect returns, and reports success only for a socket that is connected.
use cc3501e_bridge_firmware.Base.{
  ℕ, zero, suc, ◌+◌, ◌-◌, ◌*◌, ◌%◌, ◌^◌, ◌≤◌, ◌<◌, ◌≡◌, ◌⊎◌, inl, inr, refl, Bool, true, false,
  ◌&&◌, Option, none, some, leb, ◌==◌, Bool-cases, arith,
}
use Prim.Native.Nat.{bit_or}
use cc3501e_bridge_firmware.Connect.{
  slice_max, cap_ms, Ready, writable, timed_out, wait_failed, Ops, slice_ms, connected, on_ready,
  pass, wait_loop, connect, restore, with_flags, opened, sock_connect_run,
}

-- The rounds that the loop needs at most: one for each slice of the cap, and one that sees the cap.
abbrev pub rounds : ℕ
rounds = 601

slice_ms_le : (elapsed : ℕ) → slice_ms elapsed ≤ slice_max
unfolding slice_ms
slice_ms_le elapsed = ground arith

slice_ms_capped : (elapsed : ℕ) → cap_ms ≤ elapsed → slice_ms elapsed ≡ 0
unfolding slice_ms
slice_ms_capped elapsed h = ground arith

-- Under the cap a slice is positive and ends at the cap, or is a whole slice.
slice_ms_open :
    (elapsed : ℕ)
    → elapsed < cap_ms
    → (0 < slice_ms elapsed)
      × ((slice_ms elapsed ≡ slice_max) ⊎ (elapsed + slice_ms elapsed ≡ cap_ms))
unfolding slice_ms
slice_ms_open elapsed h = ground arith

-- The clock of the system as the loop sees it: `time` counts milliseconds, now_ms() reads it on 32
-- bits, and a wait that times out, with the healing after it, takes what it was given and no more
-- than 2^31 ms on top.
pub record IsClock {S : Type 0} (o : Ops S) (time : S → ℕ) : Type 0 where
  pub reads : (s : S) → (o.now_ms s).0 ≡ time s % 2 ^ 32
  pub still : (s : S) → time (o.now_ms s).1 ≡ time s
  pub waits :
      (s : S) (n : ℕ)
      → (o.wait_writable s n).0 ≡ timed_out
      → (time s + n ≤ time (o.heal (o.wait_writable s n).1))
        × (time (o.heal (o.wait_writable s n).1) ≤ time s + n + 2 ^ 31)

module _ {S : Type 0} (o : Ops S) where
  abbrev pub Returns : Option Bool × S → Type 0
  Returns r = (rc : Bool) × (s' : S) × (r ≡ (some rc, s'))

  module _ (time : S → ℕ) (clock : IsClock o time) where
    -- A pass at `elapsed` ms since the start ends the loop, or moves the time on by a slice.
    abbrev Moves : S → ℕ → Option Bool × S → Type 0
    Moves s elapsed r =
        ((rc : Bool) × (r.0 ≡ some rc))
        ⊎ ((r.0 ≡ none)
            × (elapsed < cap_ms)
            × (time s + slice_ms elapsed ≤ time r.1)
            × (time r.1 ≤ time s + slice_ms elapsed + 2 ^ 31))

    on_ready-Moves :
        (s : S) (elapsed : ℕ) (ready : Ready)
        → elapsed < cap_ms
        → (o.wait_writable (o.now_ms s).1 (slice_ms elapsed)).0 ≡ ready
        → Moves s elapsed (on_ready o ready (o.wait_writable (o.now_ms s).1 (slice_ms elapsed)).1)
    unfolding on_ready
    on_ready-Moves s elapsed writable h e = inl (connected _, refl)
    on_ready-Moves s elapsed wait_failed h e = inl (false, refl)
    on_ready-Moves s elapsed timed_out h e =
        let w = clock.waits (o.now_ms s).1 (slice_ms elapsed) e in
        let t = clock.still s in inr (refl, h, omega (arith, w.0, t), omega (arith, w.1, t))

    pass-Moves :
        (s : S) (start elapsed : ℕ)
        → time s ≡ start + elapsed
        → elapsed < 2 ^ 32
        → Moves s elapsed (pass o (start % 2 ^ 32) s)
    unfolding pass
    pass-Moves s start elapsed e h =
        let r = clock.reads s in
        let since : ((o.now_ms s).0 + 2 ^ 32 - start % 2 ^ 32) % 2 ^ 32 ≡ elapsed =
          omega (arith, r) in
        elim (Bool-cases (leb cap_ms elapsed)) [
          | inl late ↦
              let z = slice_ms_capped elapsed (ground arith) in rw (since, z) (inl (false, refl))
          | inr early ↦
              let early' : elapsed < cap_ms = ground arith in
              let p = slice_ms_open elapsed early' in
              let nz : (slice_ms elapsed == 0) ≡ false = ground (arith, p.0) in
              rw (since, nz)
                (on_ready-Moves s elapsed (o.wait_writable (o.now_ms s).1 (slice_ms elapsed)).0
                  early' refl)
        ]

    wait_loop-Returns :
        (fuel : ℕ) (s : S) (start elapsed : ℕ)
        → time s ≡ start + elapsed
        → elapsed < 2 ^ 32
        → cap_ms + slice_max ≤ elapsed + slice_max * fuel
        → 0 < fuel
        → Returns (wait_loop o fuel (start % 2 ^ 32) s)
    unfolding wait_loop
    wait_loop-Returns zero s start elapsed e h f z = absurd (omega arith)
    wait_loop-Returns (suc fuel) s start elapsed e h f z = elim (pass-Moves s start elapsed e h) [
      | inl (rc, m) ↦ rw m (rc, (pass o (start % 2 ^ 32) s).1, refl)
      | inr (m, early, lo, hi) ↦
          let s' = (pass o (start % 2 ^ 32) s).1 in
          let p = slice_ms_open elapsed early in
          let le = slice_ms_le elapsed in
          let elapsed' = time s' - start in
          rw m (
            wait_loop-Returns fuel s' start elapsed' (omega arith) (omega arith) (ground arith)
              (ground arith))
    ]

    connect-Returns : (fuel : ℕ) (s : S) → rounds ≤ fuel → Returns (connect o fuel s)
    unfolding connect
    connect-Returns fuel s h =
        let (done, s1) = o.start_connect s in
        let (pending, s2) = o.in_progress s1 in
        let s3 = (o.now_ms s2).1 in
        elim (Bool-cases done) [
          | inl y ↦ rw y (true, s1, refl)
          | inr n ↦ elim (Bool-cases pending) [
            | inr n2 ↦ rw (n, n2) (false, s2, refl)
            | inl y2 ↦
                let r =
                  wait_loop-Returns fuel s3 (time s2) 0 (omega (arith, clock.still s2))
                    (omega arith) (omega arith) (omega arith) in
                rw (n, y2, clock.reads s2) r
          ]
        ]

    restore-Returns : (orig : ℕ) (r : Option Bool × S) → Returns r → Returns (restore o orig r)
    unfolding restore
    restore-Returns orig r (rc, s', e) =
        rw e ((o.set_flags s' orig).0 && rc, (o.set_flags s' orig).1, refl)

    opened-Returns : (fuel : ℕ) (r : Option ℕ × S) → rounds ≤ fuel → Returns (opened o fuel r)
    unfolding opened with_flags
    opened-Returns fuel (none, s) h = (false, s, refl)
    opened-Returns fuel (some orig, s) h =
        let (set, s') = o.set_flags s (bit_or orig o.nonblock_flag) in
        elim (Bool-cases set) [
          | inl y ↦ rw y (restore-Returns orig (connect o fuel s') (connect-Returns fuel s' h))
          | inr n ↦ rw n (false, s', refl)
        ]

    -- A connect returns: 601 rounds of its loop are enough, whatever the peer and the TCP stack do,
    -- under a clock on which a wait that times out takes its slice, and no more than 2^31 ms longer.
    pub sock_connect_run-Returns :
        (fuel : ℕ) (s : S) → rounds ≤ fuel → Returns (sock_connect_run o fuel s)
    unfolding sock_connect_run
    sock_connect_run-Returns fuel s h = opened-Returns fuel (o.get_flags s) h
