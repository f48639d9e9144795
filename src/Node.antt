-- ===== src/Node.antt =====
-- The state of one emulator process as the code of net/ sees it: `PDESEngine` and `PDESWWT` of
-- include/net/pdes-engine.h, which the file-level singletons point to, the messages in its two
-- rings, and the timers, bottom halves and processors of the host program that the code sets.
pub mod Monad
pub mod Always
pub mod Ends
pub mod Channel
use qemu_pdes.Base.{ℕ, Bool, Option, List}
use qemu_pdes.Comm.Message.{Message}

-- A `QEMUTimer *` by what was last asked of it: NULL, allocated, or set to go off at a time.
pub data Timer : Type 0 where
  no_timer : Timer
  stopped : Timer
  armed : ℕ → Timer

-- A `QEMUBH *`: NULL, or allocated with the argument of its callback and perhaps scheduled.
pub data Bh (A : Type 0) : Type 0 where
  no_bh : Bh A
  idle : A → Bh A
  scheduled : A → Bh A

-- `struct PDESEngine`. `connected` says that `comm` and its rings are not NULL; of the callbacks
-- the code sets `recv_cb` to `wwt_recivied_callback` alone and never calls `pause_status_cb`.
pub record PdesEngine : Type 0 where
  pub connected : Bool
  pub needs_sync : Bool
  pub latencyns : ℕ  -- int64_t
  pub msg_rec_poll_timer : Timer
  pub has_first_sync : Bool
  pub pair_has_finished : Bool
  pub paused : Bool
  pub base_diff : ℕ  -- int64_t
  pub first_sync_time : ℕ  -- int64_t
  pub caclulated_time_diff : Bool
  pub first_sync_virtual_time : ℕ  -- int64_t
  pub base_time_diff : ℕ  -- int64_t
  pub neighbour_drained : ℕ  -- int
  pub checkpoint_in_progress : Bool
  pub checkpoint_bh : Bh (Unit {0})
  pub waiting_for_quanta : Bool
  pub master : Bool
  pub init_flag : ℕ  -- int
  pub master_init : Bool
  pub pause_bh : Bh (Unit {0})
  pub needs_to_checkpoint : Bool
  pub notified_neighbors : Bool
  pub checkpoint_name : List ℕ  -- char[10006], the bytes before the terminator that was written
  pub checkpoint_format : ℕ  -- SnapshotFormat, four bytes
  pub checkpoint_quantum_round : ℕ  -- uint64_t
  pub boundry_checkpoint_bh : Bh Bool
  pub skip_boundry_check_after_checkpoint : Bool
  pub notified_neighbors_for_exit : Bool
  pub ready_to_exit_neighbors : ℕ  -- int
  pub permitted_to_exit : Bool
  pub ready_to_exit : Bool
  pub end_message_sent : Bool
  pub intent_sent : Bool

-- `struct PDESWWT`. A hash table from `guint` to `int` is a function, since the code reads an
-- absent key as 0.
pub record PdesWwt : Type 0 where
  pub latencyns : ℕ  -- int64_t
  pub quantum_ns : ℕ  -- int64_t
  pub number_of_neighbors : ℕ  -- int64_t
  pub number_of_neighbors_finished : ℕ  -- int64_t
  pub has_finished : Bool
  pub has_recv_cb : Bool  -- recv_cb is not NULL
  pub should_sync : Bool
  pub setup_timer : Timer
  pub quantum_timer : Timer
  pub sync_counts : ℕ → ℕ
  pub current_quantum_round : ℕ  -- uint64_t
  pub sync_check_timer : Timer
  pub finished_quantum : Bool

-- `MessageReceiveContext`, one for each message that waits for its virtual time.
pub record MessageReceiveContext : Type 0 where
  pub has_recv_cb : Bool
  pub msg : Message
  pub one_time_poll_timer : Timer
  pub timestamp_ns : ℕ  -- int64_t

-- Which members of `flexus_api` are set.
pub record Flexus : Type 0 where
  pub has_pause : Bool
  pub has_resume : Bool
  pub has_stop : Bool

-- Calls of code outside net/, in order.
pub data Effect : Type 0 where
  vm_start : Effect
  vm_stop : Effect
  flexus_pause : Effect
  flexus_resume : Effect
  flexus_stop : Effect
  libqflex_stop : Effect
  icount_set_sleep : Bool → Effect
  save_snapshot : List ℕ → ℕ → Effect  -- name and format
  deliver : List ℕ → Effect  -- the packet handed to the network client
  write_file : List ℕ → List ℕ → Effect  -- name and contents

-- `outbox` is all that was put into the ring to the neighbour, oldest first, `received` all that was
-- taken out of the ring from it, and `inbox` what lies there. `arriving` says what the neighbour puts
-- there before each coming poll. `waiting_messages` is every context that was created: a context is
-- freed when its timer has gone off, and nothing reads it after that.
-- The clocks stand still while one callback runs.
pub record Node : Type 0 where
  pub has_engine : Bool  -- singleton_engine is not NULL
  pub has_wwt : Bool  -- singleton_wwt_engine is not NULL
  pub engine : PdesEngine
  pub wwt : PdesWwt
  pub inbox : List Message
  pub arriving : List (List Message)
  pub outbox : List Message
  pub received : List Message
  pub waiting_messages : List MessageReceiveContext
  pub virtual_ns : ℕ  -- qemu_clock_get_ns(QEMU_CLOCK_VIRTUAL)
  pub host_ns : ℕ
  pub realtime_ns : ℕ
  pub current_cpu : Option ℕ
  pub paused_cpu : Option ℕ
  pub cpu_stop : ℕ → Bool
  pub flexus : Option Flexus  -- `none` without CONFIG_LIBQFLEX
  pub base_format : ℕ  -- SNAPSHOT_FORMAT_EXTERNAL_INCREMENTAL_BASE
  pub trace : List Effect
