-- ===== src/Wwt.antt =====
-- net/pdes-wwt.c: conservative synchronisation in quanta, after the Wisconsin Wind Tunnel.
-- `Receive` handles the neighbour's messages, `Drain` announces a checkpoint, `Sync` is the barrier
-- at the end of each quantum, `Setup` creates the engine and sends packets.
pub mod Receive
pub mod Drain
pub mod Sync
pub mod Quantum
pub mod Setup
