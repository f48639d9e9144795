-- ===== src/Callbacks/Exit.antt =====
-- The exit invariant in every run of a node, whatever the neighbour sends.
use qemu_pdes.Base.{
  ℕ, zero, suc, Bool, true, false, List, [], ◌∷◌, ◌≡◌, arith, ◌&&◌, not, Option, length,
}
use qemu_pdes.Comm.Message.{create_message, read_at}
use qemu_pdes.Node.{Node, no_timer, MessageReceiveContext}
use qemu_pdes.Node.Monad.{when, ◌>>◌, skip, pure, exit}
use qemu_pdes.Node.Always.{
  Always, Keeps, after-Always, when-Keeps, if-Keeps, bind-Keeps, count_kind, count_kind-snoc,
}
use qemu_pdes.Node.Channel.{pdes_comm_send}
use qemu_pdes.Utility.{get_universal_virtual_time, process_message_at_virtual_time}
use qemu_pdes.Engine.Exit.{pdes_engine_destroy, pdes_engine_send, can_stop}
use qemu_pdes.Engine.Exit.Invariant.{
  ExitInv, permit-ExitInv, pdes_engine_destroy-ExitInv, can_stop-ExitInv,
}
use qemu_pdes.Engine.Process.{pdes_engine_poll}
use qemu_pdes.Engine.Process.Invariant.{poll-ExitInv, finish_initiate_checkpoint-ExitInv}
use qemu_pdes.Engine.Pause.{pdes_pause, pdes_play, pdes_pause_bh}
use qemu_pdes.Wwt.Drain.{notify_of_checkpoint}
use qemu_pdes.Wwt.Sync.{
  send_sync, is_waiting_for_quanta, sync_checkpoint_check, leave_with_neighbor, wait_loop,
  permit_at_boundary, next_quantum, pass_barrier, wwt_sync_check, quanta_sync,
}
use qemu_pdes.Wwt.Setup.{setup_wwt, wwt_send, pdes_engine_wwt_create}
use qemu_pdes.Netdev.{pdes_net_receive, NetdevPdesOptions, net_init_pdes}
use qemu_pdes.Checkpoint.Boundary.{take_checkpoint, create_checkpoint_bh, validate_checkpoint}
use qemu_pdes.Callbacks.{
  Event, advance, arrive, setup_timer_fires, quantum_timer_fires, sync_check_timer_fires,
  poll_timer_fires, message_timer_fires, pause_bh_runs, checkpoint_bh_runs, packet_sent,
  flexus_asks_to_stop, flexus_stops, checkpoint_signal, snapshot_asked, handle, run,
}

pause-ExitInv : Keeps ExitInv pdes_pause
unfolding pdes_pause
pause-ExitInv n i = ground (arith, i)

play-ExitInv : Keeps ExitInv pdes_play
unfolding pdes_play
play-ExitInv n i = ground (arith, i)

send_sync-ExitInv : Keeps ExitInv send_sync
unfolding send_sync get_universal_virtual_time create_message pdes_engine_send pdes_comm_send
send_sync-ExitInv n i = grind (arith, count_kind-snoc)

notify-ExitInv : Keeps ExitInv notify_of_checkpoint
unfolding notify_of_checkpoint get_universal_virtual_time create_message pdes_comm_send
notify-ExitInv n i = grind (arith, count_kind-snoc)

waiting-ExitInv : Keeps ExitInv is_waiting_for_quanta
unfolding is_waiting_for_quanta
waiting-ExitInv n i = after-Always ExitInv (pdes_engine_poll n) _ (poll-ExitInv n i) (λ a k h. h)

checkpoint_check-ExitInv : Keeps ExitInv sync_checkpoint_check
unfolding sync_checkpoint_check
checkpoint_check-ExitInv n i =
    let ask = n.engine.needs_to_checkpoint && not n.engine.notified_neighbors in
    after-Always ExitInv (when ask notify_of_checkpoint n) _
      (when-Keeps ExitInv ask notify_of_checkpoint notify-ExitInv n i) (λ a k h. ground (arith, h))

leave-ExitInv : Keeps ExitInv leave_with_neighbor
unfolding leave_with_neighbor
leave-ExitInv n i = grind (arith, pdes_engine_destroy-ExitInv)

wait_loop-ExitInv : (fuel : ℕ) (waiting : Bool) → Keeps ExitInv (wait_loop fuel waiting)
unfolding wait_loop
wait_loop-ExitInv zero true n i = i
wait_loop-ExitInv zero false n i = i
wait_loop-ExitInv (suc fuel) false n i = i
wait_loop-ExitInv (suc fuel) true n i =
    after-Always ExitInv (pdes_engine_poll n) _ (poll-ExitInv n i) λ _ k h.
      if-Keeps ExitInv k.engine.pair_has_finished (leave_with_neighbor >> pure true) _
        (bind-Keeps ExitInv leave_with_neighbor _ leave-ExitInv (λ _ l j. j))
        (bind-Keeps ExitInv is_waiting_for_quanta _ waiting-ExitInv
          (λ waiting'. wait_loop-ExitInv fuel waiting'))
        k h

permit_at_boundary-ExitInv : Keeps ExitInv permit_at_boundary
unfolding permit_at_boundary
permit_at_boundary-ExitInv n i = ground (arith, permit-ExitInv n)

next_quantum-ExitInv : Keeps ExitInv next_quantum
unfolding next_quantum
next_quantum-ExitInv n i = grind (arith, play-ExitInv)

pass_barrier-ExitInv : Keeps ExitInv pass_barrier
unfolding pass_barrier
pass_barrier-ExitInv n i =
    let n' = record n {
      engine = record n.engine { skip_boundry_check_after_checkpoint = false };
    } in
    after-Always ExitInv (sync_checkpoint_check n') _
      (checkpoint_check-ExitInv n' (ground (arith, i)))
      λ again.
        if-Keeps ExitInv again skip _ (λ k h. h)
          (λ k h.
            let k' = record k { wwt = record k.wwt { sync_check_timer = no_timer } } in
            bind-Keeps ExitInv permit_at_boundary _ permit_at_boundary-ExitInv
              (λ _. next_quantum-ExitInv) k' (ground (arith, h)))

wwt_sync_check-ExitInv : Keeps ExitInv wwt_sync_check
unfolding wwt_sync_check
wwt_sync_check-ExitInv = bind-Keeps ExitInv is_waiting_for_quanta _ waiting-ExitInv λ waiting k h.
    bind-Keeps ExitInv (wait_loop (suc (length k.arriving)) waiting) _
      (wait_loop-ExitInv (suc (length k.arriving)) waiting)
      (λ left. if-Keeps ExitInv left skip pass_barrier (λ l j. j) pass_barrier-ExitInv) k h

quanta_sync-ExitInv : Keeps ExitInv quanta_sync
unfolding quanta_sync
quanta_sync-ExitInv n i =
    let n' = record n { wwt = record n.wwt { finished_quantum = true } } in
    bind-Keeps ExitInv (when n'.wwt.should_sync pdes_pause) _
      (when-Keeps ExitInv n'.wwt.should_sync pdes_pause pause-ExitInv)
      (λ _. bind-Keeps ExitInv pdes_engine_poll _ poll-ExitInv λ _ k h.
        let ask = k.engine.needs_to_checkpoint && not k.engine.notified_neighbors in
        bind-Keeps ExitInv (when ask notify_of_checkpoint) _
          (when-Keeps ExitInv ask notify_of_checkpoint notify-ExitInv)
          (λ _.
            bind-Keeps ExitInv (when n'.wwt.should_sync send_sync) _
              (when-Keeps ExitInv n'.wwt.should_sync send_sync send_sync-ExitInv)
              (λ _ l j. ground (arith, j)))
          k h)
      n' (ground (arith, i))

wwt_send-ExitInv : (bytes : List ℕ) → Keeps ExitInv (wwt_send bytes)
unfolding wwt_send get_universal_virtual_time create_message pdes_engine_send pdes_comm_send
wwt_send-ExitInv bytes n i = grind (arith, count_kind-snoc)

net_receive-ExitInv : (bytes : List ℕ) → Keeps ExitInv (pdes_net_receive bytes)
unfolding pdes_net_receive
net_receive-ExitInv bytes =
    bind-Keeps ExitInv (wwt_send bytes) _ (wwt_send-ExitInv bytes) (λ status k h. ground (arith, h))

setup-ExitInv : Keeps ExitInv setup_wwt
unfolding setup_wwt get_universal_virtual_time
setup-ExitInv n i = ground (arith, i)

message_timer-ExitInv :
    (ctx : MessageReceiveContext) → Keeps ExitInv (process_message_at_virtual_time ctx)
unfolding process_message_at_virtual_time read_at
message_timer-ExitInv ctx n i = ground (arith, i)

take_checkpoint-ExitInv : Keeps ExitInv take_checkpoint
unfolding take_checkpoint
take_checkpoint-ExitInv n i = ground (arith, i)

create_checkpoint-ExitInv : (b : Bool) → Keeps ExitInv (create_checkpoint_bh b)
unfolding create_checkpoint_bh
create_checkpoint-ExitInv b n i =
    when-Keeps ExitInv n.engine.needs_to_checkpoint _
      (bind-Keeps ExitInv take_checkpoint _ take_checkpoint-ExitInv (λ last.
        bind-Keeps ExitInv (when last pdes_engine_destroy) _
          (when-Keeps ExitInv last pdes_engine_destroy pdes_engine_destroy-ExitInv)
          (λ _. when-Keeps ExitInv b exit (λ k h. h))))
      n i

validate-ExitInv : (name : Option (List ℕ)) → Keeps ExitInv (validate_checkpoint name)
unfolding validate_checkpoint
validate-ExitInv name n i = ground (arith, i)

pub handle-ExitInv : (e : Event) → Keeps ExitInv (handle e)
unfolding handle pdes_pause_bh
handle-ExitInv (advance v h r) n i = ground (arith, i)
handle-ExitInv (arrive batches) n i = ground (arith, i)
handle-ExitInv setup_timer_fires n i = setup-ExitInv n i
handle-ExitInv quantum_timer_fires n i = quanta_sync-ExitInv n i
handle-ExitInv sync_check_timer_fires n i = wwt_sync_check-ExitInv n i
handle-ExitInv poll_timer_fires n i = poll-ExitInv n i
handle-ExitInv (message_timer_fires ctx) n i = message_timer-ExitInv ctx n i
handle-ExitInv pause_bh_runs n i = ground (arith, i)
handle-ExitInv (checkpoint_bh_runs b) n i = create_checkpoint-ExitInv b n i
handle-ExitInv (packet_sent bytes) n i =
    bind-Keeps ExitInv (pdes_net_receive bytes) _ (net_receive-ExitInv bytes) (λ _ k h. h) n i
handle-ExitInv flexus_asks_to_stop n i =
    bind-Keeps ExitInv can_stop _ can_stop-ExitInv (λ _ k h. h) n i
handle-ExitInv flexus_stops n i = pdes_engine_destroy-ExitInv n i
handle-ExitInv checkpoint_signal n i = finish_initiate_checkpoint-ExitInv n i
handle-ExitInv (snapshot_asked name) n i =
    bind-Keeps ExitInv (validate_checkpoint name) _ (validate-ExitInv name) (λ _ k h. h) n i

run-ExitInv : (es : List Event) → Keeps ExitInv (run es)
unfolding run
run-ExitInv [] n i = i
run-ExitInv (e ∷ es) n i =
    bind-Keeps ExitInv (handle e) _ (handle-ExitInv e) (λ _. run-ExitInv es) n i

create-ExitInv :
    (o : NetdevPdesOptions) (n : Node) → n.outbox ≡ [] → Always ExitInv (net_init_pdes o n)
unfolding net_init_pdes pdes_engine_wwt_create count_kind
create-ExitInv o n e = ground (arith, e)

-- From its creation on, whatever callbacks run and whatever the neighbour sends, a node sends at
-- most one END_OF_EMULATION, and none before it is permitted to exit; at most one intent, and none
-- if it is the master; at most one permission, and none unless it is the master and has set its
-- own `permitted_to_exit`.
pub run-ExitInv_of_create :
    (o : NetdevPdesOptions) (es : List Event) (n : Node)
    → n.outbox ≡ []
    → Always ExitInv ((net_init_pdes o >> run es) n)
run-ExitInv_of_create o es n e =
    after-Always ExitInv (net_init_pdes o n) _ (create-ExitInv o n e) (λ _. run-ExitInv es)
