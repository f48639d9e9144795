-- ===== src/Lib.antt =====
-- qemu-pdes: the code that joins two QEMU processes into one parallel discrete event simulation.
--
-- Each process runs one node. Two rings in shared memory carry messages between the nodes
-- (net/pdes-communicator.c). The engine (net/pdes-engine.c) polls the ring, handles the control
-- messages and pauses and resumes the virtual machine. Windowed time (net/pdes-wwt.c) divides virtual
-- time into quanta of one latency: at the end of a quantum a node sends a sync message and waits at
-- a barrier for its neighbour's. A packet carries the universal time at which it is due, one latency
-- after it was sent. net/pdes-checkpoint.c lets the master announce a snapshot for a quantum, and
-- net/pdes-netdev.c is the network backend on top. At the end the follower sends an intent, the
-- master a permission, and each side one END_OF_EMULATION.
--
-- Files and the code they model:
--   Base, Base/*        numbers of the machine, bytes, lists; no code of the repository
--   Text, Text/*        printf and sscanf of integers, strstr and strchr; no code of the repository
--   Comm/Message        Message, its constants and `create_message`
--   Comm/Ring           `ShmRing` with one call of `pdes_comm_send` or `pdes_comm_recv` as a step
--   Comm/Ring/Window    what a ring holds; Comm/Ring/Refine: the ring against a bounded queue
--   Comm/Ring/Spsc      both calls access by access, interleaved; its Invariant and Progress
--   Comm/Setup          `pdes_comm_init_ring`, `pdes_comm_create`, `pdes_comm_destroy` as system calls
--   Node                `PDESEngine`, `PDESWWT`, `MessageReceiveContext` and the host's side of a node
--   Node/Monad          state passing with the ways a callback ends; Node/Channel: the rings at a node
--   Node/Always, Ends   rules for what holds after a callback
--   Utility, Utility/*  net/pdes-utility.c
--   Engine/Exit         `_send_end_if_handshake_complete`, `pdes_engine_destroy`, `can_stop`, and what they call
--   Engine/Exit/Threads the exit flags access by access, under the main thread and that of Flexus; its
--                       Invariant and Safety
--   Engine/Exit/Handshake  the handshake of two nodes from its start to its end
--   Engine/Process      `process_message`, `pdes_engine_poll`, `finish_initiate_checkpoint`
--   Engine/Pause        `pdes_pause`, `pdes_pause_bh`, `pdes_play`
--   Wwt/Setup           `pdes_engine_create`, `pdes_engine_wwt_create`, `setup_wwt`, `wwt_send`
--   Wwt/Receive         `wwt_recivied_callback`
--   Wwt/Sync            `quanta_sync`, `wwt_sync_check`, `sync_checkpoint_check`, `is_waiting_for_quanta`
--   Wwt/Quantum         `get_quantum_time_universal`, `get_quantum_time_local`
--   Wwt/Drain           `notify_neighbors_for_drain`
--   Checkpoint/Boundary `validate_checkpoint`, `create_checkpoint_bh`, `initiate_checkpoint_master`
--   Checkpoint/Cycle    a checkpoint from one barrier to the next
--   Checkpoint/Coordinated  a checkpoint announced by one node and taken by both
--   Checkpoint/Protocol what callbacks can do to a checkpoint, as a machine of a few moves; Frame and
--                       Quiet: what does nothing to it; Tell, Order, Turn, Stop, Barrier, Refine: each
--                       callback as moves; Facts, History, Last: what the moves and the last snapshot keep
--   Checkpoint/Pair     two nodes with checkpoints, their callbacks in any order; its Invariant, with
--                       OneQuantum, OneRound and LastAct on the snapshots; New: how it starts; Late: a run
--   Checkpoint/Inflight the list of messages in flight
--   Checkpoint/Json     its files: Save, Load and Restore are `pdes_inflight_save_json`,
--                       `pdes_inflight_load_json` and `pdes_inflight_restore_and_schedule`; Load/Fuel,
--                       Load/Entry and RoundTrip, RoundTrip/* are on what is read back
--   Checkpoint/Drain    `pdes_drain`
--   Netdev              `pdes_net_receive`, `net_init_pdes`; Netdev/Delivery: a packet from end to end
--   Callbacks           the callbacks that the main loop of QEMU can run, in any order
--   System              two nodes against each other: which callback can run when, and what a step is
--   System/Wire, Invariant  what a node puts on the wire, and what holds of it between two callbacks
--   System/Send ... Handle  every callback keeps that; Pair, Begin, Safety, Progress: both nodes at once
--   Sample, Tests, */Tests  concrete nodes and runs
--
-- State and results. A file-level singleton of the code is a field of `Node`. A callback is a
-- function of the node that returns (`ret`), stops at an assertion or at an access outside an array
-- (`fault`), leaves the process (`exited`), or does not return (`spinning`). Calls of QEMU, Flexus and
-- the system that the code makes are recorded in `trace`; they are taken to return. The histories
-- `outbox` and `received` hold all that was put into, and taken out of, the two rings; that a ring
-- is such a queue is what Comm/Ring shows.
--
-- Numbers. Every integer is a natural number below 2 ^ w, with the wrap-around written out; a signed
-- comparison reads the bit pattern. Rings have 8192 slots and messages 2048 bytes, as in
-- include/net/pdes-communicator.h. Bytes are little-endian.
--
-- Bounds. `poll_loop` has fuel for every message in the ring and one turn more; what the
-- neighbour sends during a poll counts as sent before it. `wait_loop` has fuel for each batch that is
-- still to arrive and one turn more; when a wait is not over by then it is `spinning`, as the code
-- is. `load_loop` has fuel for each byte of the file, as each turn reads some. The clocks stand
-- still within one callback, and at a node `pdes_comm_send` finds room.
--
-- Files. A file is its bytes. Which files `fopen` opens for writing, and what those that it opens for
-- reading hold, are arguments; reads and writes of an open file are taken to succeed. A conversion of
-- `sscanf` that finds no number, or one that its type does not hold, leaves its variable unset,
-- and the use of that is a fault.
--
-- The pair. In System a node's clock does not pass the end of its quantum and stands still at the
-- barrier, as its processors are stopped there; the timer of the quantum goes off at its end, after
-- the bottom half of the pause before it has run. No checkpoint is asked for, rounds stay below
-- 2 ^ 32 - 2, and a packet that is sent has 1 to 2048 bytes: the code sends an empty packet too, and
-- the receiver's assertion then fails. In Checkpoint/Pair nothing of that is asked: any callback runs
-- at any time, but for a bottom half, which runs when it is scheduled, and messages arrive in the
-- order in which they were sent. A run ends at a fault.
--
-- Threads. In Engine/Exit/Threads a send is one step, taken to be whole also when the other thread
-- sends. A master is assumed to receive no permission there, as its neighbour, the follower, sends
-- none. Everywhere else callbacks run one at a time.
--
-- Not modelled: messages to the console; timers and bottom halves beyond their allocation and
-- deadline; files other than the bytes written and read; `pdes_net_cleanup` and
-- `pdes_inflight_array_free`, which nothing here calls or which only free memory.
pub mod Base
pub mod Comm
pub mod Node
pub mod Utility
pub mod Text
pub mod Wwt
pub mod Engine
pub mod Checkpoint
pub mod Netdev
pub mod Callbacks
pub mod System
pub mod Sample
pub mod Tests
