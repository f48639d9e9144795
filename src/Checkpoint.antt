-- ===== src/Checkpoint.antt =====
-- net/pdes-checkpoint.c: which snapshots a node may take, the bottom half that takes them at a
-- quantum's end, the list of messages in flight, and the files that hold it.
pub mod Boundary
pub mod Inflight
pub mod Json
pub mod Drain
pub mod Cycle
pub mod Coordinated
pub mod Protocol
pub mod Pair
mod Tests
