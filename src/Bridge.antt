-- ===== src/Bridge.antt =====
-- The state that the handlers of src/protocol*.c share: the worker's slot, the retry latch of
-- src/protocol.c, the two reply caches of src/protocol_sockets.c, the counters, the session of src/protocol_spi.c
-- and the ring of src/event_ring.c.
use cc3501e_bridge_firmware.Base.{ℕ, Bool, List}
use cc3501e_bridge_firmware.Wire.{Cmd, Resp}
use cc3501e_bridge_firmware.Worker.{Job}
use cc3501e_bridge_firmware.EventRing.{Ring}

-- `s_retry_latch`; `len` is the length of `bytes`.
pub record RetryLatch : Type 0 where
  pub valid : Bool
  pub cmd : Cmd
  pub seq : ℕ
  pub status : Resp
  pub bytes : List ℕ

-- `g_sock_send_cached` and the fields beside it.
pub record SendCache : Type 0 where
  pub cached : Bool
  pub seq : ℕ
  pub status : Resp
  pub reply : List ℕ

-- `g_sock_recv_wk_cached` and the fields beside it; `reply` is the whole array.
pub record RecvCache : Type 0 where
  pub cached : Bool
  pub seq : ℕ
  pub handle : ℕ
  pub max_len : ℕ
  pub status : Resp
  pub reply : List ℕ
  pub reply_len : ℕ
  pub job_seq : ℕ

-- `last_recv_seq` and the fields beside it.
pub record RecvTurn : Type 0 where
  pub seq : ℕ
  pub handle : ℕ
  pub max_len : ℕ

-- `g_configured` and `g_cs_held` of src/protocol_spi.c.
pub record Spi1 : Type 0 where
  pub configured : Bool
  pub cs_held : Bool

pub record Bridge : Type 0 where
  pub job : Job
  pub latch : RetryLatch
  pub send : SendCache
  pub recv : RecvCache
  pub last_recv : RecvTurn
  pub req_seq : ℕ
  pub frames_ok : ℕ
  pub frames_err : ℕ
  pub last_error : Resp
  pub latch_hits : ℕ
  pub worker_execs : ℕ
  pub connecting : Bool
  pub spi1 : Spi1
  pub events : Ring
  pub stream_bytes : ℕ

-- What a handler returns: its status, the reply data (`reply_data[0 .. *reply_data_len)`), and
-- the state that it leaves.
abbrev pub Reply : Type 0
Reply = Resp × List ℕ × Bridge
