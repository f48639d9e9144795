-- ===== src/Wwt/Sync.antt =====
-- The barrier of net/pdes-wwt.c: `quanta_sync` at the end of a quantum, and `wwt_sync_check` that
-- waits for the neighbour and starts the next.
use qemu_pdes.Base.{
  ℕ, zero, suc, ◌+◌, Bool, true, false, Option, none, some, ◌&&◌, ◌||◌, not, if◌then◌else◌, ◌==◌,
  ltb, length,
}
use qemu_pdes.Base.Word.{u64, add64, sub64, mul64, signed_le32, signed_lt32}
use qemu_pdes.Base.Bytes.{le_bytes}
use qemu_pdes.Comm.Message.{msg_type_sync}
use qemu_pdes.Node.{PdesWwt, Flexus, Timer, no_timer, stopped, armed, scheduled, flexus_stop}
use qemu_pdes.Node.Monad.{
  M, pure, skip, when, assert, fail, assertion, get, engine, wwt, set_engine, set_wwt, emit,
  message, timer_mod, spinning, ◌>>=◌, ◌>>◌,
}
use qemu_pdes.Utility.{get_universal_virtual_time, sync_count_get}
use qemu_pdes.Engine.Exit.{pdes_engine_send, pdes_engine_destroy, permit}
use qemu_pdes.Engine.Process.{pdes_engine_poll}
use qemu_pdes.Engine.Pause.{pdes_pause, pdes_play, is_null}
use qemu_pdes.Wwt.Drain.{notify_of_checkpoint}

unfoldable pub send_sync : M (Unit {0})
send_sync = do
  round ← wwt (λ w. w.current_quantum_round)
  ts ← get_universal_virtual_time
  msg ← message (le_bytes 8 round) msg_type_sync ts
  status ← pdes_engine_send msg
  skip

unfoldable finish_quantum : M (Unit {0})
finish_quantum = send_sync

-- The test of `is_waiting_for_quanta` after its poll.
abbrev pub is_waiting : PdesWwt → Bool
is_waiting w = signed_lt32 (sync_count_get w.sync_counts w.current_quantum_round) 1 && w.should_sync

unfoldable pub is_waiting_for_quanta : M Bool
is_waiting_for_quanta = do pdes_engine_poll; wwt is_waiting

abbrev pub has_flexus_stop : Option Flexus → Bool
has_flexus_stop none = false
has_flexus_stop (some f) = f.has_stop

-- `true` says that a new bottom half takes the checkpoint, and that the check is to run again.
unfoldable pub sync_checkpoint_check : M Bool
sync_checkpoint_check = do
  needs ← engine (λ e. e.needs_to_checkpoint)
  notified ← engine (λ e. e.notified_neighbors)
  when (needs && not notified) notify_of_checkpoint
  round ← wwt (λ w. w.current_quantum_round)
  should_sync ← wwt (λ w. w.should_sync)
  target ← engine (λ e. e.checkpoint_quantum_round)
  if not needs || (ltb round target && should_sync)
      then pure false
      else if (round == target) || not should_sync
      then (do
        bh ← engine (λ e. e.boundry_checkpoint_bh)
        when (is_null bh) (set_engine (λ e. record e { boundry_checkpoint_bh = scheduled false }))
        timer ← wwt (λ w. w.sync_check_timer)
        now ← get (λ n. n.realtime_ns)
        later ← timer_mod timer (add64 now 10000000)
        set_wwt (λ w. record w { sync_check_timer = later })
        pure true)
      else fail assertion

-- The neighbour has sent END_OF_EMULATION while this side waits for its sync.
unfoldable pub leave_with_neighbor : M (Unit {0})
leave_with_neighbor = do
  permitted ← engine (λ e. e.permitted_to_exit)
  assert permitted
  flexus ← get (λ n. n.flexus)
  when (has_flexus_stop flexus) (emit flexus_stop)
  pdes_engine_destroy

-- The loop `while(waiting)`, on fuel for the batches that are still to arrive. `true` says that the
-- loop returned from the function.
unfoldable pub wait_loop : ℕ → Bool → M Bool
wait_loop zero waiting = if waiting then spinning else pure false
wait_loop (suc fuel) waiting = elim waiting [
  | false ↦ pure false
  | true ↦ (do
    pdes_engine_poll
    finished ← engine (λ e. e.pair_has_finished)
    if finished
        then (do leave_with_neighbor; pure true)
        else (do waiting' ← is_waiting_for_quanta; wait_loop fuel waiting'))
]

-- The master gives its permission at the boundary, as both sides asked to stop.
unfoldable pub permit_at_boundary : M (Unit {0})
permit_at_boundary = do
  ask ← engine (λ e.
      e.master
      && signed_le32 1 e.ready_to_exit_neighbors
      && e.ready_to_exit
      && not e.permitted_to_exit)
  when ask permit

unfoldable pub next_quantum : M (Unit {0})
next_quantum = do
  set_wwt (λ w. record w {
    number_of_neighbors_finished = sub64 w.number_of_neighbors_finished w.number_of_neighbors;
    current_quantum_round = u64 (w.current_quantum_round + 1);
    finished_quantum = false;
  })
  time ← wwt (λ w. mul64 w.current_quantum_round w.quantum_ns)
  first ← engine (λ e. e.first_sync_virtual_time)
  timer ← wwt (λ w. w.quantum_timer)
  armed_timer ← timer_mod timer (add64 time first)
  set_wwt (λ w. record w { quantum_timer = armed_timer })
  should_sync ← wwt (λ w. w.should_sync)
  when should_sync pdes_play

-- From the end of the loop on. Its test `if (waiting)` never holds there.
unfoldable pub pass_barrier : M (Unit {0})
unfolding next_quantum permit_at_boundary
pass_barrier = do
  set_engine (λ e. record e { skip_boundry_check_after_checkpoint = false })
  again ← sync_checkpoint_check
  if again then skip else (do
    set_wwt (λ w. record w { sync_check_timer = no_timer })
    permit_at_boundary
    next_quantum)

unfoldable pub wwt_sync_check : M (Unit {0})
wwt_sync_check = do
  waiting ← is_waiting_for_quanta
  fuel ← get (λ n. suc (length n.arriving))
  left ← wait_loop fuel waiting
  if left then skip else pass_barrier

abbrev pub is_no_timer : Timer → Bool
is_no_timer no_timer = true
is_no_timer stopped = false
is_no_timer (armed t) = false

unfoldable pub quanta_sync : M (Unit {0})
quanta_sync = do
  set_wwt (λ w. record w { finished_quantum = true })
  should_sync ← wwt (λ w. w.should_sync)
  when should_sync pdes_pause
  pdes_engine_poll
  ask ← engine (λ e. e.needs_to_checkpoint && not e.notified_neighbors)
  when ask notify_of_checkpoint
  when should_sync send_sync
  timer ← wwt (λ w. w.sync_check_timer)
  assert (is_no_timer timer)
  now ← get (λ n. n.realtime_ns)
  set_wwt (λ w. record w { sync_check_timer = armed (add64 now 1) })
