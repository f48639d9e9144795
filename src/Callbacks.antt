-- ===== src/Callbacks.antt =====
-- The main loop of the host program as far as it runs code of net/: which callback runs next, with
-- the clocks and the neighbour's messages moving in between.
pub mod Exit
use qemu_pdes.Base.{ℕ, Bool, true, false, List, [], ◌∷◌, ◌++◌, Option}
use qemu_pdes.Comm.Message.{Message}
use qemu_pdes.Node.{Node, MessageReceiveContext}
use qemu_pdes.Node.Monad.{M, skip, modify, ◌>>=◌, ◌>>◌}
use qemu_pdes.Utility.{process_message_at_virtual_time}
use qemu_pdes.Engine.Exit.{can_stop, pdes_engine_destroy}
use qemu_pdes.Engine.Process.{pdes_engine_poll, finish_initiate_checkpoint}
use qemu_pdes.Engine.Pause.{pdes_pause_bh}
use qemu_pdes.Checkpoint.Boundary.{validate_checkpoint, create_checkpoint_bh}
use qemu_pdes.Wwt.Setup.{setup_wwt}
use qemu_pdes.Wwt.Sync.{quanta_sync, wwt_sync_check}
use qemu_pdes.Netdev.{pdes_net_receive}

-- What can happen next. `advance` sets the clocks, `arrive` what the coming polls find.
pub data Event : Type 0 where
  advance : (virtual host realtime : ℕ) → Event
  arrive : List (List Message) → Event
  setup_timer_fires : Event
  quantum_timer_fires : Event
  sync_check_timer_fires : Event
  poll_timer_fires : Event
  message_timer_fires : MessageReceiveContext → Event
  pause_bh_runs : Event
  checkpoint_bh_runs : (exit_after : Bool) → Event
  packet_sent : List ℕ → Event
  flexus_asks_to_stop : Event
  flexus_stops : Event
  checkpoint_signal : Event
  snapshot_asked : Option (List ℕ) → Event

unfoldable pub handle : Event → M (Unit {0})
handle (advance v h r) = modify (λ n. record n { virtual_ns = v; host_ns = h; realtime_ns = r })
handle (arrive batches) = modify (λ n. record n { arriving = n.arriving ++ batches })
handle setup_timer_fires = setup_wwt
handle quantum_timer_fires = quanta_sync
handle sync_check_timer_fires = wwt_sync_check
handle poll_timer_fires = pdes_engine_poll
handle (message_timer_fires ctx) = process_message_at_virtual_time ctx
handle pause_bh_runs = pdes_pause_bh
handle (checkpoint_bh_runs exit_after) = create_checkpoint_bh exit_after
handle (packet_sent bytes) = do status ← pdes_net_receive bytes; skip
handle flexus_asks_to_stop = do answer ← can_stop; skip
handle flexus_stops = pdes_engine_destroy
handle checkpoint_signal = finish_initiate_checkpoint
handle (snapshot_asked name) = do answer ← validate_checkpoint name; skip

-- A run of the node: it goes on until a callback leaves, stops at a fault or does not return.
unfoldable pub run : List Event → M (Unit {0})
run [] = skip
run (e ∷ es) = do handle e; run es
