-- ===== src/Sample.antt =====
-- Concrete nodes for the tests: set up at virtual time 0 with a quantum of 1000 ns.
use qemu_pdes.Base.{Bool, true, false, [], none}
use qemu_pdes.Node.{Node, PdesEngine, PdesWwt, no_timer, stopped, armed, no_bh}

abbrev pub engine : Bool → PdesEngine
engine master = record {
  connected = true;
  needs_sync = true;
  latencyns = 1000;
  msg_rec_poll_timer = stopped;
  has_first_sync = false;
  pair_has_finished = false;
  paused = false;
  base_diff = 0;
  first_sync_time = 0;
  caclulated_time_diff = false;
  first_sync_virtual_time = 0;
  base_time_diff = 0;
  neighbour_drained = 0;
  checkpoint_in_progress = false;
  checkpoint_bh = no_bh;
  waiting_for_quanta = false;
  master = master;
  init_flag = 0;
  master_init = false;
  pause_bh = no_bh;
  needs_to_checkpoint = false;
  notified_neighbors = false;
  checkpoint_name = [];
  checkpoint_format = 0;
  checkpoint_quantum_round = 0;
  boundry_checkpoint_bh = no_bh;
  skip_boundry_check_after_checkpoint = false;
  notified_neighbors_for_exit = false;
  ready_to_exit_neighbors = 0;
  permitted_to_exit = false;
  ready_to_exit = false;
  end_message_sent = false;
  intent_sent = false;
}

abbrev pub wwt : PdesWwt
wwt = record {
  latencyns = 1000;
  quantum_ns = 1000;
  number_of_neighbors = 1;
  number_of_neighbors_finished = 0;
  has_finished = false;
  has_recv_cb = true;
  should_sync = true;
  setup_timer = stopped;
  quantum_timer = armed 0;
  sync_counts = λ round. 0;
  current_quantum_round = 0;
  sync_check_timer = no_timer;
  finished_quantum = false;
}

abbrev pub node : Bool → Node
node master = record {
  has_engine = true;
  has_wwt = true;
  engine = engine master;
  wwt = wwt;
  inbox = [];
  arriving = [];
  outbox = [];
  received = [];
  waiting_messages = [];
  virtual_ns = 0;
  host_ns = 0;
  realtime_ns = 0;
  current_cpu = none;
  paused_cpu = none;
  cpu_stop = λ c. false;
  flexus = none;
  base_format = 2;
  trace = [];
}

-- In round 1 at virtual time 400.
abbrev pub wwt1 : PdesWwt
wwt1 = record wwt { current_quantum_round = 1; quantum_timer = armed 1000 }

abbrev pub node1 : Bool → Node
node1 master = record (node master) { wwt = wwt1; virtual_ns = 400 }
