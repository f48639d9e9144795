-- ===== src/Checkpoint/Protocol/Barrier.antt =====
-- The barrier and the end of the emulation as moves.
use qemu_pdes.Base.{ℕ, zero, suc, ◌+◌, ◌≡◌, refl, Bool, true, false, not, ◌&&◌, arith, length}
use qemu_pdes.Base.Word.{u64, add64, sub64, mul64}
use qemu_pdes.Node.{Node, no_timer, Timer, stopped, armed, flexus_stop, libqflex_stop}
use qemu_pdes.Node.Monad.{
  M, pure, when, skip, assert, fail, assertion, emit, get, exit, set_wwt, timer_mod, ◌>>=◌, ◌>>◌,
}
use qemu_pdes.Node.Always.{
  Always, Keeps, after-Gives, Always-Gives, then-Always, Gives-Always, Always-map, after-Always,
  bind-Keeps, when-Keeps, if-Keeps, if-Always,
}
use qemu_pdes.Engine.Exit.{
  pdes_engine_destroy, checkpoint_or_exit, notify_neighbours_of_end, destroy_strategy, is_some,
}
use qemu_pdes.Engine.Pause.{pdes_pause, pdes_play}
use qemu_pdes.Engine.Process.{pdes_engine_poll}
use qemu_pdes.Wwt.Drain.{notify_of_checkpoint}
use qemu_pdes.Wwt.Sync.{
  send_sync, is_waiting_for_quanta, sync_checkpoint_check, leave_with_neighbor, wait_loop,
  permit_at_boundary, next_quantum, pass_barrier, has_flexus_stop, is_no_timer, wwt_sync_check,
  quanta_sync,
}
use qemu_pdes.Checkpoint.Protocol.{
  View, view, Move, exchange, finish, wait, pass, leave, stop_waiting, Star, more, From,
}
use qemu_pdes.Checkpoint.Protocol.Frame.{Shows, view_of, saves-snoc}
use qemu_pdes.Checkpoint.Protocol.Quiet.{
  Quiet, notify_end-Quiet, pause-Quiet, play-Quiet, send_sync-Quiet, permit_at_boundary-Quiet,
}
use qemu_pdes.Checkpoint.Protocol.Turn.{poll-From}
use qemu_pdes.Checkpoint.Protocol.Order.{Quiet-Keeps}
use qemu_pdes.Checkpoint.Protocol.Tell.{notify-From}
use qemu_pdes.Checkpoint.Protocol.Stars.{Exchanges, finished_on, Exchanges-Keeps, Exchanges-Move}
use qemu_pdes.Checkpoint.Protocol.Stop.{Free, Decided, check-Decided}

stop-Quiet : Quiet (emit flexus_stop)
stop-Quiet v n i = grind (arith, saves-snoc)

-- `pdes_engine_destroy` without a checkpoint.
exits-Shows :
    (n : Node)
    → Always {A = Unit {0}} (Shows (record (view n) { waiting = false })) (
        (do
          destroy_strategy
          flexus ← get (λ k. k.flexus)
          when (is_some flexus) (emit libqflex_stop)
          exit)
          n)
unfolding destroy_strategy
exits-Shows n = grind (arith, saves-snoc)

timer_mod-Keeps : (P : Node → Type 0) (timer : Timer) (t : ℕ) → Keeps P (timer_mod timer t)
timer_mod-Keeps P no_timer t n p = tt
timer_mod-Keeps P stopped t n p = p
timer_mod-Keeps P (armed x) t n p = p

module _ (v : View) where
  abbrev pub Here : Node → Type 0
  Here = From Move v

  quiet : {A : Type 0} (m : M A) → Quiet m → Keeps Here m
  quiet m q = Quiet-Keeps (Star Move v) m q

  exit_or_checkpoint-Move : Keeps Here checkpoint_or_exit
  unfolding checkpoint_or_exit
  exit_or_checkpoint-Move n p =
      if-Always Here n.engine.needs_to_checkpoint _ _ n (λ e. more p (leave e refl))
        (λ e.
          Always-map (Shows (record (view n) { waiting = false })) Here _ (exits-Shows n)
            (λ k s. more p (stop_waiting (view_of s))))

  pub destroy-Move : Keeps Here pdes_engine_destroy
  unfolding pdes_engine_destroy
  destroy-Move =
      bind-Keeps Here notify_neighbours_of_end _ (quiet notify_neighbours_of_end notify_end-Quiet)
        (λ _. exit_or_checkpoint-Move)

  leave-Move : Keeps Here leave_with_neighbor
  unfolding leave_with_neighbor
  leave-Move n p =
      bind-Keeps Here (assert n.engine.permitted_to_exit) _
        (if-Keeps Here n.engine.permitted_to_exit skip (fail assertion) (λ k h. h) (λ k h. tt))
        (λ _ k h.
          bind-Keeps Here (when (has_flexus_stop k.flexus) (emit flexus_stop)) _
            (when-Keeps Here (has_flexus_stop k.flexus) (emit flexus_stop)
              (quiet (emit flexus_stop) stop-Quiet))
            (λ _. destroy-Move) k h)
        n p

  pub poll-Move : Keeps Here pdes_engine_poll
  poll-Move = Exchanges-Move pdes_engine_poll poll-From v

  waiting-Move : Keeps Here is_waiting_for_quanta
  unfolding is_waiting_for_quanta
  waiting-Move n p = after-Always Here (pdes_engine_poll n) _ (poll-Move n p) (λ a k h. h)

  wait_loop-Move : (fuel : ℕ) (waiting : Bool) → Keeps Here (wait_loop fuel waiting)
  unfolding wait_loop
  wait_loop-Move zero true n p = p
  wait_loop-Move zero false n p = p
  wait_loop-Move (suc fuel) false n p = p
  wait_loop-Move (suc fuel) true n p =
      after-Always Here (pdes_engine_poll n) _ (poll-Move n p) λ _ k h.
        if-Keeps Here k.engine.pair_has_finished (leave_with_neighbor >> pure true) _
          (bind-Keeps Here leave_with_neighbor _ leave-Move (λ _ l j. j))
          (bind-Keeps Here is_waiting_for_quanta _ waiting-Move
            (λ waiting'. wait_loop-Move fuel waiting'))
          k h

  -- At a barrier that may be passed.
  Passing : Node → Type 0
  Passing k = Here k × ((view k).waiting ≡ false) × Free (view k)

  next_quantum-Move : (n : Node) → Passing n → Always Here (next_quantum n)
  unfolding next_quantum Passing
  next_quantum-Move n p =
      let w' = record n.wwt {
        number_of_neighbors_finished =
            sub64 n.wwt.number_of_neighbors_finished n.wwt.number_of_neighbors;
        current_quantum_round = u64 (n.wwt.current_quantum_round + 1);
        finished_quantum = false;
      } in
      let time =
        add64 (mul64 w'.current_quantum_round n.wwt.quantum_ns) n.engine.first_sync_virtual_time in
      bind-Keeps Here (timer_mod n.wwt.quantum_timer time) _
        (timer_mod-Keeps Here n.wwt.quantum_timer time)
        (λ timer k h.
          when-Keeps Here k.wwt.should_sync pdes_play (quiet pdes_play play-Quiet)
            (record k { wwt = record k.wwt { quantum_timer = timer } }) h)
        (record n { wwt = w' }) (more p.0 (pass p.1 p.2 refl))

  pass-Move : Keeps Here pass_barrier
  unfolding pass_barrier Passing
  pass-Move n p =
      let n' = record n {
        engine = record n.engine { skip_boundry_check_after_checkpoint = false };
      } in
      Gives-Always Here (λ _. Here) (pass_barrier n) (λ _ _ h. h)
        (after-Gives (Decided v) Here (λ _. Here) (sync_checkpoint_check n') _
          (check-Decided v n' p)
          λ again k (q, free). Always-Gives Here _ (
            if-Always Here again skip _ k (λ e. q)
              (λ e.
                let k' = record k { wwt = record k.wwt { sync_check_timer = no_timer } } in
                then-Always Passing Here (permit_at_boundary k') _
                  (Quiet-Keeps (λ w. Star Move v w × (w.waiting ≡ false) × Free w)
                    permit_at_boundary permit_at_boundary-Quiet k'
                    (more q (stop_waiting refl), refl, free e))
                  (λ l h. h.0) (λ _ l h. next_quantum-Move l h))))

  pub wwt_sync_check-Move : Keeps Here wwt_sync_check
  unfolding wwt_sync_check
  wwt_sync_check-Move = bind-Keeps Here is_waiting_for_quanta _ waiting-Move λ waiting k h.
      bind-Keeps Here (wait_loop (suc (length k.arriving)) waiting) _
        (wait_loop-Move (suc (length k.arriving)) waiting)
        (λ left. if-Keeps Here left skip pass_barrier (λ l j. j) pass-Move) k h

  -- At the end of the quantum.
  Finished : Node → Type 0
  Finished k = Here k × (k.wwt.finished_quantum ≡ true)

  -- The steps between the end of the quantum and the wait at the barrier.
  exchange-Finished : (m : M (Unit {0})) → Exchanges m → Keeps Finished m
  unfolding Finished
  exchange-Finished m h =
      Exchanges-Keeps (λ w. Star Move v w × (w.finished ≡ true))
        (λ s u x q. (more q.0 (exchange x), finished_on s u x q.1)) m h

  Quiet-Finished : (m : M (Unit {0})) → Quiet m → Keeps Finished m
  unfolding Finished
  Quiet-Finished m q = Quiet-Keeps (λ w. Star Move v w × (w.finished ≡ true)) m q

  wait-Move :
      (c : Bool)
      → Keeps Finished (do
        assert c
        now ← get (λ n. n.realtime_ns)
        set_wwt (λ w. record w { sync_check_timer = armed (add64 now 1) }))
  unfolding Finished
  wait-Move true n p = (more p.0 (wait p.1 refl), p.1)
  wait-Move false n p = tt

  pub quanta_sync-Move : Keeps Here quanta_sync
  unfolding quanta_sync Finished
  quanta_sync-Move n p =
      let n' = record n { wwt = record n.wwt { finished_quantum = true } } in
      let sync = n.wwt.should_sync in
      Always-map Finished Here (quanta_sync n)
        (bind-Keeps Finished (when sync pdes_pause) _
          (when-Keeps Finished sync pdes_pause (Quiet-Finished pdes_pause pause-Quiet))
          (λ _.
            bind-Keeps Finished pdes_engine_poll _ (exchange-Finished pdes_engine_poll poll-From)
              λ _ k h.
                let ask = k.engine.needs_to_checkpoint && not k.engine.notified_neighbors in
                bind-Keeps Finished (when ask notify_of_checkpoint) _
                  (when-Keeps Finished ask notify_of_checkpoint
                    (exchange-Finished notify_of_checkpoint notify-From))
                  (λ _.
                    bind-Keeps Finished (when sync send_sync) _
                      (when-Keeps Finished sync send_sync
                        (Quiet-Finished send_sync send_sync-Quiet))
                      (λ _ l j. wait-Move (is_no_timer l.wwt.sync_check_timer) l j))
                  k h)
          n' (more p (finish refl), refl))
        (λ k h. h.0)
