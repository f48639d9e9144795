-- ===== src/Checkpoint/Pair/Tests.antt =====
-- A run of two concrete nodes to the snapshots of both.
use qemu_pdes.Base.{◌≡◌, refl, Bool, true, false, List, [], ◌∷◌, ◌++◌, drop, arith, ◌∙◌}
use qemu_pdes.Comm.Message.{Message, create_message, read_at}
use qemu_pdes.Node.{Node, scheduled}
use qemu_pdes.Node.Monad.{ret, fault, exited, spinning}
use qemu_pdes.Callbacks.{
  Event, arrive, poll_timer_fires, quantum_timer_fires, sync_check_timer_fires, checkpoint_signal,
  checkpoint_bh_runs, handle,
}
use qemu_pdes.Node.Channel.{pdes_comm_send, pdes_comm_recv, take_head}
use qemu_pdes.Base.Bytes.{c_str, le_bytes, of_le_bytes}
use qemu_pdes.Engine.Exit.{pdes_engine_send}
use qemu_pdes.Engine.Pause.{pdes_pause}
use qemu_pdes.Engine.Process.{
  init_warmed, finish_initiate_checkpoint, pdes_engine_poll, process_message, on_checkpoint_init,
  on_drain_start, poll_loop, accept_arrivals, on_intent, on_drain_end,
}
use qemu_pdes.Utility.{get_universal_virtual_time, sync_count_get, sync_count_increment}
use qemu_pdes.Wwt.Drain.{notify_of_checkpoint}
use qemu_pdes.Wwt.Receive.{wwt_recivied_callback, receive_sync}
use qemu_pdes.Wwt.Sync.{
  quanta_sync, send_sync, is_waiting_for_quanta, sync_checkpoint_check, wait_loop, pass_barrier,
  wwt_sync_check,
}
use qemu_pdes.Checkpoint.Protocol.Facts.{goes_on}
use qemu_pdes.Node.Always.{Always}
use qemu_pdes.Checkpoint.Protocol.{From, Move, saves}
use qemu_pdes.Checkpoint.Protocol.Refine.{first_view, handle_refines}
use qemu_pdes.System.{System, returned, left, stream}
use qemu_pdes.Checkpoint.Cycle.{checkpointed, create_checkpoint_bh_lem}
use qemu_pdes.Checkpoint.Pair.{Due, Reach, here, later, Step, master_moves, follower_moves, IsNew}
use qemu_pdes.Checkpoint.Pair.OneRound.{one_round, Reach-append}
use qemu_pdes.Checkpoint.Pair.LastAct.{Saves, last_act}
use qemu_pdes.Checkpoint.Boundary.Outcome.{
  destroyed, init_warmed-ends_emulation, create_checkpoint_bh_outcomes,
}
use qemu_pdes.Checkpoint.Pair.OneQuantum.{Brings, one_snapshot}
use qemu_pdes.Sample.{node}

abbrev pub after_event : Event → Node → Node
after_event e n = elim (handle e n) [ ret a k ↦ k | fault f ↦ n | exited k ↦ k | spinning k ↦ k ]

-- The follower is signalled, and the master reads of it and is signalled too.
abbrev follower_ready : Node
follower_ready = after_event checkpoint_signal (node false)

abbrev master_hears : Node
master_hears = after_event (arrive (follower_ready.outbox ∷ [])) (node true)

abbrev master_counts : Node
master_counts = after_event poll_timer_fires master_hears

abbrev master_asked : Node
master_asked = after_event checkpoint_signal master_counts

-- The master ends its quantum, and the follower its own.
abbrev master_tells : Node
master_tells = after_event quantum_timer_fires master_asked

abbrev follower_hears : Node
follower_hears = after_event (arrive (master_tells.outbox ∷ [])) follower_ready

abbrev follower_told : Node
follower_told = after_event quantum_timer_fires follower_hears

abbrev follower_stops : Node
follower_stops = after_event sync_check_timer_fires follower_told

-- The master reads the sync.
abbrev master_reads : Node
master_reads = after_event (arrive (drop 1 follower_told.outbox ∷ [])) master_tells

abbrev master_stops : Node
master_stops = after_event sync_check_timer_fires master_reads

abbrev pair : Node → Node → System
pair m f = record { master = m; follower = f; master_runs = true; follower_runs = true }

abbrev pub Returns : Event → Node → Type 0
Returns e n = handle e n ≡ ret tt (after_event e n)

abbrev Arrives : List Message → Node → List Message → Type 0
Arrives batch n wire = stream (record n { arriving = n.arriving ++ (batch ∷ []) }) ++ [] ≡ wire

goes :
    Returns checkpoint_signal (node false)
    × Returns (arrive (follower_ready.outbox ∷ [])) (node true)
    × Returns poll_timer_fires master_hears
    × Returns checkpoint_signal master_counts
    × Returns quantum_timer_fires master_asked
    × Returns (arrive (master_tells.outbox ∷ [])) follower_ready
    × Returns quantum_timer_fires follower_hears
    × Returns sync_check_timer_fires follower_told
    × Returns (arrive (drop 1 follower_told.outbox ∷ [])) master_tells
    × Returns sync_check_timer_fires master_reads
    × Arrives follower_ready.outbox (node true) follower_ready.outbox
    × Arrives master_tells.outbox follower_ready master_tells.outbox
    × Arrives (drop 1 follower_told.outbox) master_tells follower_stops.outbox
    × (goes_on follower_stops.engine.boundry_checkpoint_bh ≡ true)
    × (goes_on master_stops.engine.boundry_checkpoint_bh ≡ true)
    × (follower_stops.wwt.should_sync ≡ true)
    × (master_stops.wwt.should_sync ≡ true)
    × (follower_stops.engine.boundry_checkpoint_bh ≡ scheduled false)
    × (follower_stops.engine.needs_to_checkpoint ≡ true)
    × (follower_stops.engine.master ≡ false)
    × (master_stops.engine.boundry_checkpoint_bh ≡ scheduled false)
    × (master_stops.engine.needs_to_checkpoint ≡ true)
    × (master_stops.engine.master ≡ true)
    × (master_stops.engine.checkpoint_name ≡ init_warmed)
    × (master_stops.engine.connected ≡ true)
    × (master_stops.engine.first_sync_virtual_time ≡ 0)
unfolding handle finish_initiate_checkpoint get_universal_virtual_time create_message pdes_comm_send
    pdes_engine_poll pdes_comm_recv process_message wwt_recivied_callback on_checkpoint_init
    on_drain_start quanta_sync pdes_pause notify_of_checkpoint c_str le_bytes send_sync
    pdes_engine_send of_le_bytes read_at poll_loop accept_arrivals take_head sync_count_get
    sync_count_increment receive_sync is_waiting_for_quanta sync_checkpoint_check wait_loop
    pass_barrier wwt_sync_check on_intent on_drain_end
goes = (
  refl, refl, refl, refl, refl, refl, refl, refl, refl, refl, refl, refl, refl, refl, refl, refl,
  refl, refl, refl, refl, refl, refl, refl, refl, refl, refl,
)

abbrev z : System
z = pair (node true) (node false)

master_goes :
    (e : Event) (m f : Node)
    → Returns e m
    → Due f.outbox e m
    → Step (pair m f) (pair (after_event e m) f)
master_goes e m f g d = master_moves e (after_event e m) true refl d (returned g refl) refl

follower_goes :
    (e : Event) (m f : Node)
    → Returns e f
    → Due m.outbox e f
    → Step (pair m f) (pair m (after_event e f))
follower_goes e m f g d = follower_moves e (after_event e f) true refl d (returned g refl) refl

asked : Reach z (pair master_asked follower_ready)
asked =
    later
      (later
        (later (later here (follower_goes checkpoint_signal (node true) (node false) goes.0 tt)) (
          master_goes (arrive (follower_ready.outbox ∷ [])) (node true) follower_ready goes.1
            ([], goes.10)))
        (master_goes poll_timer_fires master_hears follower_ready goes.2 tt))
      (master_goes checkpoint_signal master_counts follower_ready goes.3 tt)

follower_waits : Reach z (pair master_tells follower_stops)
follower_waits =
    later
      (later
        (later (later asked (master_goes quantum_timer_fires master_asked follower_ready goes.4 tt))
          (follower_goes (arrive (master_tells.outbox ∷ [])) master_tells follower_ready goes.5
            ([], goes.11)))
        (follower_goes quantum_timer_fires master_tells follower_hears goes.6 tt))
      (follower_goes sync_check_timer_fires master_tells follower_told goes.7 tt)

both_wait : Reach (pair master_tells follower_stops) (pair master_stops follower_stops)
both_wait =
    later
      (later here (
        master_goes (arrive (drop 1 follower_told.outbox ∷ [])) master_tells follower_stops goes.8
          ([], goes.12)))
      (master_goes sync_check_timer_fires master_reads follower_stops goes.9 tt)

new : (role : Bool) → IsNew role (node role)
new role = record {
  master = refl;
  needs = refl;
  bh = refl;
  round = refl;
  timer = refl;
  outbox = refl;
  incoming = refl;
  received = refl;
}

one_round_example :
    (follower_stops.wwt.current_quantum_round ≡ master_stops.wwt.current_quantum_round)
    × (follower_stops.wwt.finished_quantum ≡ true)
    × (master_stops.wwt.finished_quantum ≡ true)
one_round_example =
    one_round (new true) (new false) follower_waits both_wait false true refl refl goes.15 goes.16
      goes.13 goes.14

follower_saves :
    handle (checkpoint_bh_runs false) follower_stops ≡ ret tt (checkpointed follower_stops)
unfolding handle
follower_saves = create_checkpoint_bh_lem follower_stops goes.18 (ground (arith, goes.19))

one_snapshot_example :
    Brings false master_tells
      (checkpoint_bh_runs false)
      follower_stops
      (checkpointed follower_stops)
one_snapshot_example =
    one_snapshot (new true) (new false) follower_waits false (checkpoint_bh_runs false)
      (checkpointed follower_stops) true refl goes.15 goes.17 (returned follower_saves refl)

abbrev master_gone : Node
master_gone = destroyed (checkpointed master_stops)

master_leaves : handle (checkpoint_bh_runs false) master_stops ≡ exited master_gone
unfolding handle
master_leaves =
    let end = init_warmed-ends_emulation master_stops goes.23 goes.22 in
    create_checkpoint_bh_outcomes false master_stops goes.24 (ground (arith, goes.25))
    ∙ rw (goes.21, end) refl

abbrev one_left : System
one_left = record {
  master = master_gone;
  follower = follower_stops;
  master_runs = false;
  follower_runs = true;
}

leaves : Reach (pair master_tells follower_stops) one_left
leaves = later both_wait (
    master_moves (checkpoint_bh_runs false) master_gone false refl goes.20 (left master_leaves refl)
      refl)

last_act_example : Saves [] false master_gone
unfolding saves
last_act_example = last_act (new true) (new false) (Reach-append follower_waits leaves)

handle_refines_example :
    Always
      (From Move (first_view (checkpoint_bh_runs false) follower_stops))
      (handle (checkpoint_bh_runs false) follower_stops)
handle_refines_example = handle_refines (checkpoint_bh_runs false) follower_stops
