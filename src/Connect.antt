-- ===== src/Connect.antt =====
-- src/sock_connect_wait.h: a connect that does not block, polled in slices under a cap.
pub mod Wait
pub mod Success
mod Tests
use cc3501e_bridge_firmware.Base.{
  ℕ, zero, suc, ◌+◌, ◌-◌, ◌*◌, ◌%◌, ◌^◌, Bool, true, false, not, ◌&&◌, Option, none, some, ltb, leb,
  ◌==◌, if◌then◌else◌,
}
use Prim.Native.Nat.{bit_or}

-- CC3501E_SOCK_CONNECT_SLICE_MS and CC3501E_SOCK_CONNECT_CAP_MS.
abbrev pub slice_max : ℕ
slice_max = 100

abbrev pub cap_ms : ℕ
cap_ms = 60000

-- What a wait for the socket to become writable returns: a positive, a zero or a negative number.
pub data Ready : Type 0 where
  writable : Ready
  timed_out : Ready
  wait_failed : Ready

-- sock_connect_ops_t. The flags of a socket are none where reading them fails; a result of 0 or more
-- is true. The option's error is none where reading it fails.
pub record Ops (S : Type 0) : Type 0 where
  pub get_flags : S → Option ℕ × S
  pub set_flags : S → ℕ → Bool × S
  -- Whether the result is 0.
  pub start_connect : S → Bool × S
  pub in_progress : S → Bool × S
  pub wait_writable : S → ℕ → Ready × S
  pub so_error : S → Option ℕ × S
  pub now_ms : S → ℕ × S
  pub heal : S → S
  pub nonblock_flag : ℕ

-- sock_connect_slice_ms().
unfoldable pub slice_ms : ℕ → ℕ
slice_ms elapsed =
    if leb cap_ms elapsed
    then 0
    else if ltb (cap_ms - elapsed) slice_max
    then cap_ms - elapsed
    else slice_max

-- Whether a writable socket is connected: its error could be read and is 0.
unfoldable pub connected : Option ℕ → Bool
connected none = false
connected (some e) = e == 0

module _ {S : Type 0} (o : Ops S) where
  -- What a pass of the loop does with the outcome of its wait: the end, or none to go on. The result
  -- is whether rc is 0.
  unfoldable pub on_ready : Ready → S → Option Bool × S
  on_ready writable s = let (e, s') = o.so_error s in (some (connected e), s')
  on_ready wait_failed s = (some false, s)
  on_ready timed_out s = (none, o.heal s)

  -- A pass: the clock, the slice, the wait.
  unfoldable pub pass : ℕ → S → Option Bool × S
  unfolding slice_ms on_ready
  pass t0 s =
      let (now, s1) = o.now_ms s in
      let slice = slice_ms ((now + 2 ^ 32 - t0) % 2 ^ 32) in
      let (ready, s2) = o.wait_writable s1 slice in
      if slice == 0 then (some false, s1) else on_ready ready s2

  -- The end of the loop after a pass, or what the rest of it comes to.
  abbrev pub ended : Option Bool × S → Option Bool × S → Option Bool × S
  ended (some rc, s) rest = (some rc, s)
  ended (none, s) rest = rest

  -- The loop, on fuel: none where the fuel runs out.
  pub wait_loop : ℕ → ℕ → S → Option Bool × S
  wait_loop zero t0 s = (none, s)
  wait_loop (suc fuel) t0 s =
      let after = pass t0 s in let rest = wait_loop fuel t0 after.1 in ended after rest

  -- The connect between the two changes of the flags.
  pub connect : ℕ → S → Option Bool × S
  connect fuel s =
      let (done, s1) = o.start_connect s in
      let (pending, s2) = o.in_progress s1 in
      let (t0, s3) = o.now_ms s2 in
      if done
      then (some true, s1)
      else if not pending
      then (some false, s2)
      else wait_loop fuel t0 s3

  -- The end: the flags as they were.
  pub restore : ℕ → Option Bool × S → Option Bool × S
  restore orig (none, s) = (none, s)
  restore orig (some rc, s) = let (set, s') = o.set_flags s orig in (some (set && rc), s')

  pub with_flags : ℕ → ℕ → S → Option Bool × S
  with_flags fuel orig s =
      let (set, s') = o.set_flags s (bit_or orig o.nonblock_flag) in
      if set then restore orig (connect fuel s') else (some false, s')

  pub opened : ℕ → Option ℕ × S → Option Bool × S
  opened fuel (none, s) = (some false, s)
  opened fuel (some orig, s) = with_flags fuel orig s

  -- sock_connect_run(), with fuel for the loop; the result is whether it returns 0.
  pub sock_connect_run : ℕ → S → Option Bool × S
  sock_connect_run fuel s = opened fuel (o.get_flags s)
