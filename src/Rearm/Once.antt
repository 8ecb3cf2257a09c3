-- ===== src/Rearm/Once.antt =====
-- No storm of rearms: between two transfers there is at most one.
use cc3501e_bridge_firmware.Base.{
  ℕ, ◌+◌, ◌≤◌, ◌≡◌, Bool, true, false, List, [], ◌∷◌, ◌==◌, if◌then◌else◌, arith,
}
use cc3501e_bridge_firmware.Rearm.{RearmState, Tick, fire, link_quiet_rearm_tick}

abbrev pub bit : Bool → ℕ
bit true = 1
bit false = 0

-- How often a run of ticks fires.
pub fires : RearmState → List Tick → ℕ
fires st [] = 0
fires st (t ∷ ts) = bit (link_quiet_rearm_tick st t).0 + fires (link_quiet_rearm_tick st t).1 ts

-- How often the transfer count of a run of ticks moves, from the count `c` on.
pub moves : ℕ → List Tick → ℕ
moves c [] = 0
moves c (t ∷ ts) = (if t.xfer_count == c then 0 else 1) + moves t.xfer_count ts

-- The step of a tick: what it fires is paid for by a move of the count or by the first credit.
abbrev credit : RearmState → ℕ
credit st = if st.healed_pending then 0 else 1

abbrev Latched : RearmState → ℕ → Type 0
Latched st c = st.healed_pending ≡ true → st.heal_fired_xfer_count ≡ c

tick_pays :
    (st : RearmState) (c : ℕ) (t : Tick)
    → Latched st c
    → (bit (link_quiet_rearm_tick st t).0 + credit (link_quiet_rearm_tick st t).1
        ≤ (if t.xfer_count == c then 0 else 1) + credit st)
      × Latched (link_quiet_rearm_tick st t).1 t.xfer_count
unfolding link_quiet_rearm_tick fire
tick_pays st c t l = ground arith

fires_paid :
    (st : RearmState) (c : ℕ) (ts : List Tick) → Latched st c → fires st ts ≤ moves c ts + credit st
unfolding fires moves
fires_paid st c [] l = omega arith
fires_paid st c (t ∷ ts) l =
    let p = tick_pays st c t l in
    let r = fires_paid (link_quiet_rearm_tick st t).1 t.xfer_count ts p.1 in ground arith

-- A run of ticks, from a state without a pending heal and whatever their readings, fires at most once
-- more often than the transfer count moves: without a transfer in between there is no second heal.
pub fires_le_moves :
    (st : RearmState) (c : ℕ) (ts : List Tick)
    → st.healed_pending ≡ false
    → fires st ts ≤ moves c ts + 1
fires_le_moves st c ts u =
    let p = fires_paid st c ts (λ y. cc (u, y)) in let e : credit st ≡ 1 = rw u in omega arith
