-- ===== src/Lib.antt =====
-- The CC3501E bridge firmware: a Wi-Fi and Bluetooth coprocessor that a host drives over SPI by
-- request and reply frames.
--
-- How the parts interact. The SPI callback stages the bytes of a request (src/transport_spi.c),
-- checks the frame and dispatches it (src/protocol.c), and stages the reply. A handler that would
-- block does not run its hardware call: it submits a job to the one slot of src/worker.c and answers
-- ERR_BUSY; the drain of the main loop runs the job and publishes the result; the host repeats its
-- request until a poll collects it. A reply can be lost on the wire, so three caches answer a
-- repeated request: the retry latch of src/protocol.c for most opcodes, and the caches of
-- src/protocol_sockets.c for SOCK_SEND and SOCK_RECV. Received bytes are prefetched into a ring
-- (hal/ti/cc3501e_hw_ti_sock.c), and asynchronous events wait in src/event_ring.c.
--
-- Files and sources:
--   Base, Wire       buffers as lists, opcodes, statuses, result codes, little-endian fields
--   EventRing        src/event_ring.c: the ring, its invariant, its queue, the drain
--   SockRing         hal/ti/cc3501e_hw_ti_sock.c (ring part), src/sock_recv_commit.c,
--                    src/sock_recv_ring_status.h, src/sock_prefetch_arm.h
--   Worker           src/worker.c: the slot and the calls on it
--   Bridge           the state that the handlers share
--   Latch, Routed    src/protocol.c: the retry latch, and the three helpers handle_worker_routed*()
--   Crc, Frame       src/protocol.c: the CRC by table, and protocol_build_reply()
--   Sockets          src/protocol_sockets.c: the handlers and the two reply caches
--   Ble              src/protocol_ble.c: the handlers and the table of characteristics
--   Spi1             src/protocol_spi.c: the session of SPI1 transfers
--   Hal, Execute     hal/cc3501e_hw.h as an interface, worker_execute() and worker_run_pending()
--   Board            hal/cc3501e_hw.h: the operations that the handlers call themselves
--   Wifi, Pins       src/protocol_wifi.c; src/protocol_gpio.c, protocol_camera.c, protocol_power.c
--   Meta, Diag       src/protocol_meta.c, src/protocol_diag.c
--   OtaCmds          src/protocol_ota.c: the handlers of the update opcodes
--   Dispatch         src/protocol.c: protocol_dispatch(), and whole exchanges of a host
--   Connect          src/sock_connect_wait.h: sock_connect_run()
--   Ota              hal/ti/cc3501e_hw_ti_ota.c: Ota (window, flush), Job (begin, finish, pump), Calls
--   SocketCalls      hal/ti/cc3501e_hw_ti_sock.c (the calls of the worker and the tick),
--                    src/sock_worker_recv_eof.h
--   Staging          src/transport_spi.c
--   Rearm            src/link_quiet_rearm.h
--   Fixture          test data for the Tests modules
--
-- Conventions. A C struct is a record, a buffer is a list of numbers, and an array whose stale bytes
-- matter is the whole list. Integers keep their wrap-around (% 2 ^ w). A handler returns its status,
-- the reply data and the state. A critical section is one step; the interrupt side and the drain side
-- meet only between steps. The build modelled has CC3501E_WIFI and CC3501E_WIRE_CRC.
--
-- Fuel. The loop of event_ring_drain() runs on count + 1 rounds: each round takes an entry or stops.
-- The pump of the ring runs the CC3501E_SOCK_PUMP_PASSES of the source. The wait of a connect needs 601
-- rounds: 600 slices of 100 ms reach the cap of 60000 ms, and one more sees it. The loop of ota_flush()
-- runs on as many rounds as there are bytes: each round writes a byte at least.
--
-- Parameters. Code outside the repository is an argument: the bitwise CRC routine of
-- <alp/protocol/crc16.h>, the constants and struct layouts of <alp/protocol/cc3501e.h> that src/ only
-- names (Wire.Layout, Meta.Caps, and the opcode bytes, which `opcode` reads), lwip_recv(), the TCP
-- calls and the clock of a connect (Connect.Ops), the TCP/IP stack (SocketCalls.Lwip), psa_fwu_*() and
-- TI_FWU_MANIFEST_SIZE (Ota.Fwu, `manifest`), the transport round an update (Ota.Link), and the hardware
-- operations (Hal, Board).
--
-- Not modelled: the drivers under hal/ti over the vendor SDK but for the parts above, the stub back end
-- and the start-up, the retry decisions of the Wi-Fi connect, the build without the CRC, and the probe
-- builds of GET_DIAG_INFO and of the speed test. In an update, a call of the host comes between two runs
-- of the pump: an abort in the middle of a job, and the reboot behind a promote, are left out.
pub mod Base
pub mod Wire
pub mod EventRing
pub mod Worker
pub mod Bridge
pub mod Board
pub mod Wifi
pub mod Pins
pub mod Meta
pub mod Diag
pub mod OtaCmds
pub mod Dispatch
pub mod Connect
pub mod Ota
pub mod Crc
pub mod Frame
pub mod Latch
pub mod Routed
pub mod SockRing
pub mod SocketCalls
pub mod Sockets
pub mod Ble
pub mod Spi1
pub mod Staging
pub mod Rearm
pub mod Hal
pub mod Execute
pub mod Fixture
