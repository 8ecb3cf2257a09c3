-- ===== src/Rearm.antt =====
-- src/link_quiet_rearm.h: when a slave that looks deaf may be rearmed.
pub mod Once
mod Tests
use cc3501e_bridge_firmware.Base.{ℕ, Bool, true, false, not, ◌&&◌, ltb, ◌==◌, if◌then◌else◌}

-- link_quiet_rearm_state_t.
pub record RearmState : Type 0 where
  pub healed_pending : Bool
  pub heal_fired_xfer_count : ℕ

-- The arguments of a tick.
pub record Tick : Type 0 where
  pub at_idle_header : Bool
  pub quiet_ms : ℕ
  pub rearm_ms : ℕ
  pub xfer_count : ℕ

-- The part behind the latch: whether to fire.
pub fire : RearmState → Tick → Bool × RearmState
fire st t =
    if not t.at_idle_header
    then (false, st)
    else if ltb t.quiet_ms t.rearm_ms
    then (false, st)
    else (true, record { healed_pending = true; heal_fired_xfer_count = t.xfer_count })

-- link_quiet_rearm_tick().
pub link_quiet_rearm_tick : RearmState → Tick → Bool × RearmState
link_quiet_rearm_tick st t =
    if st.healed_pending
    then (if t.xfer_count == st.heal_fired_xfer_count
        then (false, st)
        else fire (record st { healed_pending = false }) t)
    else fire st t
