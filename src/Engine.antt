-- ===== src/Engine.antt =====
-- net/pdes-engine.c: the engine under the synchronisation strategy. `Exit` has the handshake that
-- ends the emulation, `Process` the handling of messages, `Pause` the virtual machine's stops.
pub mod Exit
pub mod Process
pub mod Pause
