-- ===== src/Staging.antt =====
-- src/transport_spi.c: the staging between the SPI slave's bytes and protocol_build_reply().
pub mod Transfer
mod Tests
use cc3501e_bridge_firmware.Base.{
  ℕ, ◌+◌, ◌-◌, ◌*◌, Bool, List, [], ◌∷◌, ◌++◌, ltb, ◌==◌, if◌then◌else◌, length, get_or, slice,
}
use cc3501e_bridge_firmware.Frame.{frame_max_bytes}

-- `rx` is spi_rx_buf[0 .. spi_rx_len), `tx` is spi_tx_buf[0 .. spi_tx_len).
pub record Staging : Type 0 where
  pub rx : List ℕ
  pub tx : List ℕ
  pub cursor : ℕ

-- spi_slave_cs_low(), spi_slave_rx_byte().
pub cs_low : Staging → Staging
cs_low s = record s { rx = [] }

pub rx_byte : Staging → ℕ → Staging
rx_byte s b = if ltb (length s.rx) frame_max_bytes then record s { rx = s.rx ++ (b ∷ []) } else s

-- spi_slave_cs_high(). `build` is protocol_build_reply() on the state of the firmware.
pub cs_high : {St : Type 0} → (St → List ℕ → ℕ → List ℕ × St) → Staging → St → Staging × St
cs_high build s st =
    let (reply, st') = build st s.rx frame_max_bytes in
    if length s.rx == 0
    then (record s { cursor = 0 }, st)
    else (record s { tx = reply; cursor = 0 }, st')

-- spi_slave_tx_next_byte(), spi_slave_tx_pending().
pub tx_next_byte : Staging → ℕ × Staging
tx_next_byte s =
    if ltb s.cursor (length s.tx)
    then (get_or s.tx s.cursor 0, record s { cursor = s.cursor + 1 })
    else (0xff, s)

pub tx_pending : Staging → Bool
tx_pending s = ltb s.cursor (length s.tx)

-- spi_slave_tx_take() into a buffer of `room` bytes.
pub tx_take : Staging → ℕ → List ℕ × Staging
tx_take s room =
    let left = length s.tx - s.cursor in
    let n = if ltb room left then room else left in
    (slice s.tx s.cursor n, record s { cursor = s.cursor + n })
