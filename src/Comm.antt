-- ===== src/Comm.antt =====
-- net/pdes-communicator.c and its header: messages, and the ring in shared memory that carries
-- them from one process to the other.
pub mod Message
pub mod Ring
pub mod Setup
