-- ===== src/Wwt/Setup.antt =====
-- The start of a node, in net/pdes-wwt.c and net/pdes-engine.c, and `wwt_send`.
use qemu_pdes.Base.{ℕ, Bool, true, false, List, [], not}
use qemu_pdes.Base.Word.{add64}
use qemu_pdes.Comm.Message.{msg_type_normal}
use qemu_pdes.Node.{PdesEngine, PdesWwt, no_timer, armed, no_bh, icount_set_sleep}
use qemu_pdes.Node.Monad.{
  M, when, assert, get, engine, wwt, modify, set_engine, set_wwt, emit, message, timer_mod, ◌>>=◌,
  ◌>>◌,
}
use qemu_pdes.Utility.{get_universal_virtual_time}
use qemu_pdes.Engine.Exit.{pdes_engine_send}

-- The engine that `pdes_engine_create` makes, with what `pdes_comm_create` gave it (`Comm.Setup`),
-- at the readings `host` and `virtual` of the clocks.
unfoldable pub new_engine : Bool → Bool → ℕ → ℕ → Bool → ℕ → ℕ → PdesEngine
new_engine connected sync latencyns first master host virtual = record {
  connected = connected;
  needs_sync = sync;
  latencyns = latencyns;
  msg_rec_poll_timer = armed (add64 host 50000);
  has_first_sync = false;
  pair_has_finished = false;
  paused = false;
  base_diff = 0;
  first_sync_time = virtual;
  caclulated_time_diff = false;
  first_sync_virtual_time = first;
  base_time_diff = 0;
  neighbour_drained = 0;
  checkpoint_in_progress = false;
  checkpoint_bh = no_bh;
  waiting_for_quanta = false;
  master = master;
  init_flag = 0;
  master_init = false;
  pause_bh = no_bh;
  needs_to_checkpoint = false;
  notified_neighbors = false;
  checkpoint_name = [];
  checkpoint_format = 0;
  checkpoint_quantum_round = 0;
  boundry_checkpoint_bh = no_bh;
  skip_boundry_check_after_checkpoint = false;
  notified_neighbors_for_exit = false;
  ready_to_exit_neighbors = 0;
  permitted_to_exit = false;
  ready_to_exit = false;
  end_message_sent = false;
  intent_sent = false;
}

unfoldable pub pdes_engine_create : Bool → Bool → ℕ → ℕ → Bool → M (Unit {0})
unfolding new_engine
pdes_engine_create connected sync latencyns first master = do
  exists ← get (λ n. n.has_engine)
  assert (not exists)
  modify (λ n. record n {
    engine = new_engine connected sync latencyns first master n.host_ns n.virtual_ns;
    has_engine = true;
  })

unfoldable pub new_wwt : Bool → ℕ → Bool → ℕ → PdesWwt
new_wwt sync latencyns has_cb now = record {
  latencyns = latencyns;
  quantum_ns = latencyns;
  number_of_neighbors = 1;
  number_of_neighbors_finished = 0;
  has_finished = false;
  has_recv_cb = has_cb;
  should_sync = sync;
  setup_timer = armed now;
  quantum_timer = no_timer;
  sync_counts = λ round. 0;
  current_quantum_round = 0;
  sync_check_timer = no_timer;
  finished_quantum = false;
}

unfoldable pub pdes_engine_wwt_create : Bool → Bool → ℕ → Bool → Bool → M (Unit {0})
unfolding pdes_engine_create new_wwt
pdes_engine_wwt_create connected sync latencyns has_cb master = do
  exists ← get (λ n. n.has_wwt)
  assert (not exists)
  now ← get (λ n. n.virtual_ns)
  pdes_engine_create connected sync latencyns now master
  modify (λ n. record n { wwt = new_wwt sync latencyns has_cb now; has_wwt = true })
  when sync (emit (icount_set_sleep false))

unfoldable pub setup_wwt : M (Unit {0})
setup_wwt = do
  now ← get (λ n. n.virtual_ns)
  set_engine (λ e. record e { first_sync_virtual_time = now })
  set_wwt (λ w. record w { quantum_timer = armed 0 })
  set_engine (λ e. record e { caclulated_time_diff = false })
  set_wwt (λ w. record w { number_of_neighbors_finished = 0 })
  printed ← get_universal_virtual_time
  host ← get (λ n. n.host_ns)
  timer ← engine (λ e. e.msg_rec_poll_timer)
  later ← timer_mod timer (add64 host 500000000)
  set_engine (λ e. record e { msg_rec_poll_timer = later })

unfoldable pub wwt_send : List ℕ → M ℕ
wwt_send bytes = do
  now ← get_universal_virtual_time
  latency ← wwt (λ w. w.latencyns)
  msg ← message bytes msg_type_normal (add64 now latency)
  pdes_engine_send msg
