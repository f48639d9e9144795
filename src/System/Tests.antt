-- ===== src/System/Tests.antt =====
-- Two concrete nodes at their first barrier.
use qemu_pdes.Base.{◌+◌, ◌<◌, ◌≤◌, ◌≡◌, refl, Bool, true, false, [], ◌∷◌, arith, ◌⊎◌}
use qemu_pdes.Base.Bytes.{of_le_bytes, le_bytes}
use qemu_pdes.Callbacks.{
  arrive, poll_timer_fires, message_timer_fires, packet_sent, quantum_timer_fires,
  sync_check_timer_fires, handle,
}
use qemu_pdes.Comm.Message.{
  read_at, zero_padded, Message, msg_type_normal, msg_type_sync, create_message,
}
use qemu_pdes.Engine.Exit.{pdes_engine_send}
use qemu_pdes.Engine.Exit.Invariant.{bit}
use qemu_pdes.Engine.Pause.{pdes_pause}
use qemu_pdes.Engine.Process.{process_message, pdes_engine_poll, poll_loop, accept_arrivals}
use qemu_pdes.Netdev.{NetdevPdesOptions, net_init_pdes, pdes_net_receive}
use qemu_pdes.Node.{Node, MessageReceiveContext, armed, scheduled}
use qemu_pdes.Node.Always.{count_kind}
use qemu_pdes.Node.Channel.{pdes_comm_send, pdes_comm_recv, take_head}
use qemu_pdes.Node.Ends.{Holds}
use qemu_pdes.Node.Monad.{ret, ◌>>◌}
use qemu_pdes.Sample.{engine, wwt, node}
use qemu_pdes.System.{System, master_moves, follower_moves, returned, Reach, here, later}
use qemu_pdes.System.Begin.{Begun, create-Begun}
use qemu_pdes.System.Progress.{barrier_passes}
use qemu_pdes.System.Safety.{
  IsStart, NoFault, time, progress, no_fault, clocks_close, no_deadlock, permission_order,
}
use qemu_pdes.System.Wire.{syncs}
use qemu_pdes.Utility.{sync_count_increment, get_universal_virtual_time, sync_count_get}
use qemu_pdes.Wwt.Receive.{wwt_recivied_callback, receive_sync, receive_normal}
use qemu_pdes.Wwt.Setup.{setup_wwt, wwt_send}
use qemu_pdes.Wwt.Sync.{quanta_sync, send_sync}

abbrev sync_0 : Message
sync_0 = record { ts_ns = 0; len = 8; payload = le_bytes 8 0; kind = msg_type_sync }

abbrev at_barrier : Bool → Node
at_barrier master = record (node master) {
  engine = record (engine master) { paused = true; pause_bh = scheduled tt };
  wwt = record wwt { finished_quantum = true; sync_check_timer = armed 1 };
  outbox = sync_0 ∷ [];
}

first_quantum :
    (master : Bool) → handle quantum_timer_fires (node master) ≡ ret tt (at_barrier master)
unfolding handle quanta_sync pdes_pause pdes_engine_poll poll_loop accept_arrivals pdes_comm_recv
    take_head send_sync get_universal_virtual_time create_message pdes_engine_send pdes_comm_send
    le_bytes
first_quantum master = refl

abbrev z : System
z = record { master = node true; follower = node false; master_runs = true; follower_runs = true }

abbrev both_wait : System
both_wait = record {
  master = at_barrier true;
  follower = at_barrier false;
  master_runs = true;
  follower_runs = true;
}

Begun-node : (master : Bool) → Begun 1000 master (node master)
unfolding count_kind sync_count_get
Begun-node master = record {
  fixed = record {
    connected = refl;
    should_sync = refl;
    quantum = refl;
    latency = refl;
    first_sync = omega arith;
    first = omega arith;
    room = omega arith;
    flexus_ok = tt;
    no_checkpoint = refl;
    has_recv_cb = refl;
    has_quantum_timer = refl;
  };
  at_first = refl;
  at_round = refl;
  in_quantum = refl;
  no_check = refl;
  no_counts = λ r. refl;
  nothing_sent = refl;
  nothing_read = refl;
  nothing_there = refl;
  nothing_comes = refl;
  nothing_waits = refl;
  not_permitted = refl;
  not_finished = refl;
  at_role = refl;
  exit = record {
    ends = omega arith;
    permitted = omega arith;
    intents = omega arith;
    permissions = omega arith;
    master_only = λ e. refl;
    follower_only = λ e. refl;
  };
}

start : IsStart 1000 z
start = record {
  begun_master = Begun-node true;
  begun_follower = Begun-node false;
  master_there = refl;
  follower_there = refl;
}

both : Reach 1000 z both_wait
both =
    later {s = record z { master = at_barrier true }}
      (later {s = z} here (
        master_moves quantum_timer_fires (at_barrier true) true refl (refl, refl, refl)
          (returned (first_quantum true) refl) refl))
      (follower_moves quantum_timer_fires (at_barrier false) true refl (refl, refl, refl)
        (returned (first_quantum false) refl) refl)

-- The master sends a packet of three bytes, and the follower reads it.
abbrev packet : Message
packet = record { ts_ns = 1000; len = 3; payload = 1 ∷ 2 ∷ 3 ∷ []; kind = msg_type_normal }

abbrev sender : Node
sender = record (node true) { outbox = packet ∷ [] }

packet_goes : handle (packet_sent (1 ∷ 2 ∷ 3 ∷ [])) (node true) ≡ ret tt sender
unfolding handle pdes_net_receive wwt_send get_universal_virtual_time create_message pdes_comm_send
    pdes_engine_send
packet_goes = refl

abbrev due : MessageReceiveContext
due = record {
  has_recv_cb = true;
  msg = packet;
  one_time_poll_timer = armed 1000;
  timestamp_ns = 1000;
}

abbrev receiver : Node
receiver = record (node false) { received = packet ∷ []; waiting_messages = due ∷ [] }

packet_comes :
    handle poll_timer_fires (record (node false) { arriving = (packet ∷ []) ∷ [] })
    ≡ ret tt receiver
unfolding handle pdes_engine_poll poll_loop accept_arrivals pdes_comm_recv take_head process_message
    wwt_recivied_callback receive_normal get_universal_virtual_time
packet_comes = refl

packet_waits : Reach 1000 z (record z { master = sender; follower = receiver })
unfolding handle
packet_waits =
    let told : Node = record (node false) { arriving = (packet ∷ []) ∷ [] } in
    later {s = record z { master = sender; follower = told }}
      (later {s = record z { master = sender }}
        (later {s = z} here (
          master_moves (packet_sent (1 ∷ 2 ∷ 3 ∷ [])) sender true refl (omega arith, omega arith)
            (returned packet_goes refl) refl))
        (follower_moves (arrive ((packet ∷ []) ∷ [])) told true refl ([], refl) (returned refl refl)
          refl))
      (follower_moves poll_timer_fires receiver true refl tt (returned packet_comes refl) refl)

no_fault_example : NoFault (handle (message_timer_fires due) receiver)
no_fault_example = no_fault start packet_waits false (message_timer_fires due) refl ([], [], refl)

clocks_close_example :
    (0 ≤ progress (at_barrier false))
    × (0 ≤ progress (at_barrier true))
    × (time (at_barrier true) ≤ time (at_barrier false) + 1000)
    × (time (at_barrier false) ≤ time (at_barrier true) + 1000)
clocks_close_example = clocks_close start both

no_deadlock_example : (0 < syncs (sync_0 ∷ [])) ⊎ (0 < syncs (sync_0 ∷ []))
no_deadlock_example = no_deadlock start both refl refl refl refl

permission_order_example :
    (bit (engine false).permitted_to_exit ≤ bit (engine true).permitted_to_exit)
    × (bit (engine true).pair_has_finished ≤ bit (engine true).permitted_to_exit)
    × (bit (engine false).pair_has_finished ≤ bit (engine false).permitted_to_exit)
permission_order_example = permission_order start both

abbrev bare : Node
bare = record (node true) { has_engine = false; has_wwt = false }

abbrev options : NetdevPdesOptions
options = record { connected = true; sync = true; latencyns = 1000; master = true }

create-Begun_example : Holds (Begun 1000 true) ((net_init_pdes options >> setup_wwt) bare)
create-Begun_example = create-Begun options bare refl refl (record {
  no_engine = refl;
  no_wwt = refl;
  nothing_sent = refl;
  nothing_read = refl;
  nothing_there = refl;
  nothing_comes = refl;
  nothing_waits = refl;
  room = omega arith;
  flexus = tt;
})

-- The follower's sync comes, and the poll timer of the master goes off.
abbrev told : Node
told = record (at_barrier true) { arriving = (sync_0 ∷ []) ∷ [] }

abbrev polled : Node
polled = record (at_barrier true) {
  received = sync_0 ∷ [];
  wwt = record (at_barrier true).wwt { sync_counts = sync_count_increment (λ round. 0) 0 };
}

poll_reads : handle poll_timer_fires told ≡ ret tt polled
unfolding handle pdes_engine_poll poll_loop accept_arrivals pdes_comm_recv take_head process_message
    wwt_recivied_callback receive_sync get_universal_virtual_time read_at of_le_bytes le_bytes
    zero_padded
poll_reads = refl

abbrev heard : System
heard = record both_wait { master = polled }

read_sync : Reach 1000 z heard
unfolding handle
read_sync =
    later {s = record both_wait { master = told }}
      (later {s = both_wait} both (
        master_moves (arrive ((sync_0 ∷ []) ∷ [])) told true refl ([], refl) (returned refl refl)
          refl))
      (master_moves poll_timer_fires polled true refl tt (returned poll_reads refl) refl)

barrier_passes_example :
    Holds (λ k. k.wwt.current_quantum_round ≡ 0 + 1) (handle sync_check_timer_fires polled)
unfolding count_kind
barrier_passes_example =
    barrier_passes start read_sync true refl refl refl refl (omega arith) (omega arith)
