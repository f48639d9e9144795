-- ===== src/Tests.antt =====
-- The callbacks on concrete nodes: a quantum and a latency of 1000 ns, set up at virtual time 0.
use qemu_pdes.Sample
use qemu_pdes.Base.{
  ℕ, ◌+◌, ◌≡◌, refl, Bool, true, false, some, List, [], ◌∷◌, ◌++◌, arith, if◌then◌else◌, All, ◌⊎◌,
  ◌==◌,
}
use qemu_pdes.Base.Bytes.{le_bytes, c_str}
use qemu_pdes.Base.Word.{add64, sub64}
use qemu_pdes.Callbacks.{
  Event, arrive, setup_timer_fires, quantum_timer_fires, flexus_asks_to_stop, run,
}
use qemu_pdes.Callbacks.Exit.{run-ExitInv_of_create}
use qemu_pdes.Checkpoint.Boundary.{validate_checkpoint}
use qemu_pdes.Checkpoint.Boundary.Announce.{informed, announce-validate}
use qemu_pdes.Checkpoint.Inflight.{
  Inflight, pdes_inflight_add, pdes_inflight_remove, removed, not_found,
}
use qemu_pdes.Checkpoint.Inflight.Laws.{IsCounted, Same, Removed, remove-add, remove-cases}
use qemu_pdes.Comm.Message.{Message, msg_type_sync, intent_to_end_emulation}
use qemu_pdes.Wwt.Sync.{next_quantum}
use qemu_pdes.Wwt.Quantum.Deadline.{EndsAt, next_quantum-EndsAt}
use qemu_pdes.Comm.Setup.{Answers}
use qemu_pdes.Comm.Setup.Cleanup.{CleansUp, create-CleansUp}
use qemu_pdes.Engine.Exit.Invariant.{ExitInv}
use qemu_pdes.Engine.Process.{process_message, poll_loop}
use qemu_pdes.Engine.Process.Fuel.{poll_loop_enough}
use qemu_pdes.Engine.Process.Kinds.{process_sync}
use qemu_pdes.Netdev.{NetdevPdesOptions, net_init_pdes}
use qemu_pdes.Netdev.Delivery.{
  IsSetUp, packet_message, context, wwt_send_lem, process_normal, packet_end_to_end,
}
use qemu_pdes.Node.{Node, PdesWwt, deliver}
use qemu_pdes.Node.Always.{Always}
use qemu_pdes.Node.Monad.{ret, ◌>>◌}
use qemu_pdes.Sample.{engine}
use qemu_pdes.Utility.{process_message_at_virtual_time}
use qemu_pdes.Utility.Time.{universal}
use qemu_pdes.Wwt.Drain.{notify_neighbors_for_drain}
use qemu_pdes.Wwt.Drain.Notify.{CanNotify, notified, drain_message, notify_result, notify_by_length}
use qemu_pdes.Wwt.Setup.{wwt_send}

abbrev wwt : PdesWwt
wwt = Sample.wwt1

abbrev node : Bool → Node
node = Sample.node1

abbrev bare : Node
bare = record (node true) { has_engine = false; has_wwt = false }

abbrev options : NetdevPdesOptions
options = record { connected = true; sync = true; latencyns = 1000; master = true }

abbrev events : List Event
events =
    setup_timer_fires
    ∷ arrive
        ((record { ts_ns = 0; len = 0; payload = []; kind = intent_to_end_emulation } ∷ []) ∷ [])
    ∷ quantum_timer_fires
    ∷ flexus_asks_to_stop
    ∷ flexus_asks_to_stop
    ∷ []

run-ExitInv_of_create_example : Always ExitInv ((net_init_pdes options >> run events) bare)
run-ExitInv_of_create_example = run-ExitInv_of_create options events bare refl

abbrev all_succeed : Answers
all_succeed = record { created = true; opened = true; truncated = true; mapped = true }

abbrev no_mapping : Answers
no_mapping = record { created = false; opened = true; truncated = true; mapped = false }

IsSetUp-node : (b : Bool) → IsSetUp (node b)
IsSetUp-node b = record { connected = refl; first_virtual = omega arith; first_sync = omega arith }

abbrev packet : List ℕ
packet = 1 ∷ 2 ∷ 3 ∷ []

packet_end_to_end_example :
    let m = packet_message packet (node true) in
    let ctx = context (node false) m in
    (wwt_send packet (node true) ≡ ret 0 (record (node true) { outbox = m ∷ [] }))
    × (process_message m (node false)
        ≡ ret tt (record (node false) { waiting_messages = ctx ∷ [] }))
    × (sub64 ctx.timestamp_ns 0 ≡ add64 (universal (node true)) 1000)
    × ((l : Node)
        → process_message_at_virtual_time ctx l
          ≡ ret tt (record l { trace = l.trace ++ (deliver packet ∷ []) }))
packet_end_to_end_example =
    packet_end_to_end packet (node true) (node false) (IsSetUp-node true) (omega arith)
      (omega arith) (omega arith) refl refl (ground arith)

wwt_send_lem_example :
    wwt_send packet (node true)
    ≡ ret 0 (record (node true) { outbox = packet_message packet (node true) ∷ [] })
wwt_send_lem_example = wwt_send_lem packet (IsSetUp-node true)

process_normal_example :
    process_message (packet_message packet (node true)) (node false)
    ≡ ret tt (record (node false) {
      waiting_messages = context (node false) (packet_message packet (node true)) ∷ [];
    })
process_normal_example =
    process_normal (node false) (packet_message packet (node true)) (omega arith) refl refl

abbrev sync_message : ℕ → Message
sync_message s = record { ts_ns = 1000; len = 8; payload = le_bytes 8 s; kind = msg_type_sync }

process_sync_example :
    process_message (sync_message 1) (node false)
    ≡ ret tt (record (node false) {
      wwt = record wwt { sync_counts = λ key. if key == 1 then 1 else 0 };
    })
process_sync_example =
    process_sync (sync_message 1) 1 (node false) refl refl refl (omega arith) (omega arith) refl

abbrev control : ℕ → Message
control k = record { ts_ns = 300; len = 0; payload = []; kind = k }

abbrev checkpointing : Node
checkpointing = record (node true) { engine = record (engine true) { needs_to_checkpoint = true } }

CanNotify-checkpointing : CanNotify checkpointing
CanNotify-checkpointing = record {
  connected = refl;
  first = omega arith;
  needs = refl;
  pending = refl;
}

-- "warm"
abbrev name : List ℕ
name = 119 ∷ 97 ∷ 114 ∷ 109 ∷ []

notify_by_length_example :
    notify_neighbors_for_drain name 2 checkpointing ≡ notify_result checkpointing (c_str name) 2
notify_by_length_example = notify_by_length name 2 CanNotify-checkpointing

announce-validate_example :
    let m = drain_message (notified checkpointing) name 2 in
    let k' = informed name 2 1 m.ts_ns (node false) in
    (notify_neighbors_for_drain name 2 checkpointing
      ≡ ret tt (record (notified checkpointing) { outbox = m ∷ [] }))
    × (process_message m (node false) ≡ ret tt k')
    × (k'.engine.checkpoint_format ≡ 2)
    × (k'.engine.checkpoint_quantum_round ≡ 1)
    × (validate_checkpoint (some (c_str k'.engine.checkpoint_name)) k' ≡ ret (true, some name) k')
announce-validate_example =
    announce-validate checkpointing (node false) name 2 CanNotify-checkpointing (omega arith)
      (omega arith, (omega arith, (omega arith, (omega arith, tt)))) (omega arith) (omega arith)
      refl refl (omega arith)

create-CleansUp_example : CleansUp all_succeed no_mapping
create-CleansUp_example = create-CleansUp all_succeed no_mapping

abbrev in_flight : Inflight
in_flight = record {
  pending =
      record { msg = control 0; scheduled_time_ns = 5 }
      ∷ record { msg = sync_message 1; scheduled_time_ns = 9 }
      ∷ [];
  count = 2;
}

in_flight-IsCounted : IsCounted in_flight
in_flight-IsCounted = record { counted = refl; small = omega arith }

remove-cases_example :
    ((pdes_inflight_remove (sync_message 1) 9 in_flight ≡ not_found)
      × All (λ e. Same (sync_message 1) 9 e → ⊥) in_flight.pending)
    ⊎ ((s' : Inflight) × (pdes_inflight_remove (sync_message 1) 9 in_flight ≡ removed s')
        × Removed (sync_message 1) 9 in_flight.pending s'.pending
        × IsCounted s')
remove-cases_example = remove-cases (sync_message 1) 9 in_flight-IsCounted (omega arith)

remove-add_example :
    IsCounted (pdes_inflight_add (sync_message 2) 7 in_flight)
    × (pdes_inflight_remove (sync_message 2) 7 (pdes_inflight_add (sync_message 2) 7 in_flight)
        ≡ removed in_flight)
remove-add_example = remove-add (sync_message 2) 7 in_flight-IsCounted (omega arith) (omega arith)

abbrev reading : Node
reading = record (node false) { inbox = sync_message 1 ∷ control intent_to_end_emulation ∷ [] }

poll_loop_enough_example : poll_loop (3 + 40) reading ≡ poll_loop 3 reading
poll_loop_enough_example = poll_loop_enough 3 40 reading (omega arith)

next_quantum-EndsAt_example : EndsAt 2 (next_quantum (node true))
next_quantum-EndsAt_example = next_quantum-EndsAt (node true) (omega arith) (omega arith) refl refl
