-- ===== src/Checkpoint/Pair/Late.antt =====
-- A run in which the request for the checkpoint reaches the master at its barrier, after its sync.
use qemu_pdes.Base.{◌≡◌, refl, Bool, true, false, [], ◌∷◌, drop, ◌∙◌, arith}
use qemu_pdes.Comm.Message.{create_message, read_at}
use qemu_pdes.Node.{Node, scheduled}
use qemu_pdes.Node.Monad.{Outcome, ret, fault, exited, spinning}
use qemu_pdes.Callbacks.{
  arrive, quantum_timer_fires, sync_check_timer_fires, pause_bh_runs, checkpoint_signal,
  checkpoint_bh_runs, handle,
}
use qemu_pdes.Node.Channel.{pdes_comm_send, pdes_comm_recv, take_head}
use qemu_pdes.Base.Bytes.{c_str, le_bytes, of_le_bytes}
use qemu_pdes.Engine.Exit.{pdes_engine_send}
use qemu_pdes.Engine.Pause.{pdes_pause, pdes_play, pdes_pause_bh}
use qemu_pdes.Engine.Process.{
  init_warmed, finish_initiate_checkpoint, pdes_engine_poll, process_message, on_checkpoint_init,
  on_drain_start, poll_loop, accept_arrivals, on_intent, on_drain_end,
}
use qemu_pdes.Utility.{get_universal_virtual_time, sync_count_get, sync_count_increment}
use qemu_pdes.Wwt.Drain.{notify_of_checkpoint}
use qemu_pdes.Wwt.Receive.{wwt_recivied_callback, receive_sync}
use qemu_pdes.Wwt.Sync.{
  next_quantum, permit_at_boundary, quanta_sync, send_sync, is_waiting_for_quanta,
  sync_checkpoint_check, wait_loop, pass_barrier, wwt_sync_check,
}
use qemu_pdes.Checkpoint.Boundary.Outcome.{
  init_warmed-ends_emulation, destroyed, sends_end, create_checkpoint_bh_outcomes,
}
use qemu_pdes.Checkpoint.Cycle.{checkpointed}
use qemu_pdes.Sample.{node}
use qemu_pdes.Checkpoint.Pair.Tests.{after_event}

-- Both end their first quantum; the master has had its signal.
abbrev follower_waits : Node
follower_waits = after_event quantum_timer_fires (node false)

abbrev master_signalled : Node
master_signalled = after_event checkpoint_signal (node true)

abbrev master_waits : Node
master_waits = after_event quantum_timer_fires master_signalled

-- The follower goes on to round 1, and is signalled there.
abbrev follower_reads : Node
follower_reads = after_event (arrive (master_waits.outbox ∷ [])) follower_waits

abbrev follower_passes : Node
follower_passes = after_event sync_check_timer_fires follower_reads

abbrev follower_asks : Node
follower_asks = after_event checkpoint_signal (after_event pause_bh_runs follower_passes)

-- The master, still in round 0, reads of it and stops there.
abbrev master_reads : Node
master_reads = after_event (arrive (follower_asks.outbox ∷ [])) master_waits

abbrev master_stops : Node
master_stops = after_event sync_check_timer_fires master_reads

-- The follower hears of round 0 in round 1.
abbrev follower_hears : Node
follower_hears = after_event (arrive (drop 1 master_stops.outbox ∷ [])) follower_asks

abbrev follower_late : Node
follower_late = after_event quantum_timer_fires follower_hears

abbrev is_spinning : Outcome (Unit {0}) → Bool
is_spinning (ret a k) = false
is_spinning (fault f) = false
is_spinning (exited k) = false
is_spinning (spinning k) = true

-- The follower does not stop for the checkpoint of round 0: it waits for a sync of round 1.
late :
    (master_stops.engine.boundry_checkpoint_bh ≡ scheduled false)
    × (master_stops.wwt.current_quantum_round ≡ 0)
    × (follower_late.wwt.current_quantum_round ≡ 1)
    × (follower_late.engine.needs_to_checkpoint ≡ true)
    × (follower_late.engine.checkpoint_quantum_round ≡ 0)
    × (is_spinning (handle sync_check_timer_fires follower_late) ≡ true)
    × (master_stops.engine.needs_to_checkpoint ≡ true)
    × (master_stops.engine.master ≡ true)
    × (master_stops.engine.checkpoint_name ≡ init_warmed)
    × (sends_end (checkpointed master_stops) ≡ false)
    × (master_stops.engine.connected ≡ true)
    × (master_stops.engine.first_sync_virtual_time ≡ 0)
unfolding handle finish_initiate_checkpoint get_universal_virtual_time create_message pdes_comm_send
    pdes_engine_poll pdes_comm_recv process_message wwt_recivied_callback on_checkpoint_init
    on_drain_start quanta_sync pdes_pause notify_of_checkpoint c_str le_bytes send_sync
    pdes_engine_send of_le_bytes read_at poll_loop accept_arrivals take_head sync_count_get
    sync_count_increment receive_sync is_waiting_for_quanta sync_checkpoint_check wait_loop
    pass_barrier wwt_sync_check on_intent on_drain_end next_quantum permit_at_boundary pdes_play
    pdes_pause_bh
late = (refl, refl, refl, refl, refl, refl, refl, refl, refl, refl, refl, refl)

-- And the master, which leaves when it has taken its snapshot, sends it none, nor an end.
master_leaves :
    (k : Node) × (handle (checkpoint_bh_runs false) master_stops ≡ exited k)
    × (k.outbox ≡ master_stops.outbox)
unfolding handle
master_leaves =
    let end = init_warmed-ends_emulation master_stops late.8 late.7 in
    (
      destroyed (checkpointed master_stops),
      create_checkpoint_bh_outcomes false master_stops late.10 (ground (arith, late.11))
          ∙ rw (late.6, end) refl,
      rw late.9 refl,
    )
