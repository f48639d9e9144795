-- ===== src/Checkpoint/Cycle.antt =====
-- A checkpoint from the barrier that stops for it to the barrier that goes on.
use qemu_pdes.Base.{
  ◌≤◌, ◌≡◌, ◌≢◌, refl, Bool, true, false, [], ◌∷◌, ◌++◌, not, ◌&&◌, ◌||◌, arith, if◌then◌else◌,
  ◌==◌, ltb, length, bytes_eq,
}
use qemu_pdes.Base.Word.{add64, minus_one64}
use qemu_pdes.Base.Bytes.{c_str}
use qemu_pdes.Node.{Node, no_bh, scheduled, armed, save_snapshot}
use qemu_pdes.Node.Monad.{Outcome, ret, fault, assertion}
use qemu_pdes.Engine.Pause.{is_null}
use qemu_pdes.Engine.Process.{init_warmed}
use qemu_pdes.Wwt.Drain.{notify_of_checkpoint}
use qemu_pdes.Wwt.Drain.Notify.{CanNotify, notify_by_length, notified, drain_message}
use qemu_pdes.Wwt.Sync.{sync_checkpoint_check, is_no_timer}
use qemu_pdes.Checkpoint.Boundary.{create_checkpoint_bh}

-- A connected node that is set up, and at the barrier.
pub record AtBarrier (n : Node) : Type 0 where
  pub connected : n.engine.connected ≡ true
  pub first : n.engine.first_sync_virtual_time ≢ minus_one64
  pub timer : is_no_timer n.wwt.sync_check_timer ≡ false
  pub name : length (c_str n.engine.checkpoint_name) ≤ 989

-- The announcement, unless it has gone out.
abbrev pub told : Node → Node
told n = if n.engine.notified_neighbors then n else record (notified n) {
  outbox =
      n.outbox
      ++ (drain_message (notified n) (c_str n.engine.checkpoint_name) n.engine.checkpoint_format
          ∷ []);
}

-- The bottom half that takes the checkpoint, and the next look at the barrier.
abbrev pub stopped_for_checkpoint : Node → Node
stopped_for_checkpoint n = record n {
  engine = record n.engine {
    boundry_checkpoint_bh =
        if is_null n.engine.boundry_checkpoint_bh
        then scheduled false
        else n.engine.boundry_checkpoint_bh;
  };
  wwt = record n.wwt { sync_check_timer = armed (add64 n.realtime_ns 10000000) };
}

abbrev check_result : Node → Outcome Bool
check_result n =
    if not n.engine.needs_to_checkpoint
    then ret false n
    else if ltb n.wwt.current_quantum_round n.engine.checkpoint_quantum_round && n.wwt.should_sync
    then ret false (told n)
    else if (n.wwt.current_quantum_round == n.engine.checkpoint_quantum_round)
        || not n.wwt.should_sync
    then ret true (stopped_for_checkpoint (told n))
    else fault assertion

notify_lem :
    (n : Node)
    → AtBarrier n
    → n.engine.needs_to_checkpoint ≡ true
    → n.engine.notified_neighbors ≡ false
    → notify_of_checkpoint n ≡ ret tt (told n)
unfolding notify_of_checkpoint
notify_lem n a needs pending =
    let can : CanNotify n = record {
      connected = a.connected;
      first = a.first;
      needs = needs;
      pending = pending;
    } in
    rw (notify_by_length {n = n} n.engine.checkpoint_name n.engine.checkpoint_format can)
      (ground (arith, a))

-- The check for a checkpoint at the barrier of a connected node that is set up, with a name that
-- can be announced: without a checkpoint it does nothing. Otherwise the neighbour is told, unless it
-- was told before; before the round of the checkpoint the barrier is passed, in that round it
-- stops for the bottom half, and behind that round the assertion fails. A node that does not
-- synchronise stops in any round.
pub sync_checkpoint_check_lem : (n : Node) → AtBarrier n → sync_checkpoint_check n ≡ check_result n
unfolding sync_checkpoint_check
sync_checkpoint_check_lem n a = grind (arith, notify_lem n a, a)

-- A node whose checkpoint is taken: no flag of it is set.
abbrev pub checkpointed : Node → Node
checkpointed n = record n {
  engine = record n.engine {
    checkpoint_in_progress = false;
    needs_to_checkpoint = false;
    notified_neighbors = false;
    checkpoint_quantum_round = 0;
    boundry_checkpoint_bh = no_bh;
    skip_boundry_check_after_checkpoint = true;
  };
  trace =
      n.trace ++ (save_snapshot (c_str n.engine.checkpoint_name) n.engine.checkpoint_format ∷ []);
}

pub create_checkpoint_bh_lem :
    (n : Node)
    → n.engine.needs_to_checkpoint ≡ true
    → (bytes_eq (c_str n.engine.checkpoint_name) init_warmed && n.engine.master) ≡ false
    → create_checkpoint_bh false n ≡ ret tt (checkpointed n)
unfolding create_checkpoint_bh
create_checkpoint_bh_lem n e k = grind arith

free_lem : (n : Node) → n.engine.needs_to_checkpoint ≡ false → sync_checkpoint_check n ≡ ret false n
unfolding sync_checkpoint_check
free_lem n e = grind arith

-- A node at the barrier of the round of its checkpoint, with no bottom half yet: the neighbour is
-- told unless it was told before, and the barrier stops; the bottom half takes the one snapshot,
-- under the engine's name and in its format; and the next check at the barrier lets the node go
-- on. The name is not the one that ends the emulation at the master.
pub checkpoint_once :
    (n : Node)
    → AtBarrier n
    → n.engine.needs_to_checkpoint ≡ true
    → n.wwt.current_quantum_round ≡ n.engine.checkpoint_quantum_round
    → n.engine.boundry_checkpoint_bh ≡ no_bh
    → (bytes_eq (c_str n.engine.checkpoint_name) init_warmed && n.engine.master) ≡ false
    → (sync_checkpoint_check n ≡ ret true (stopped_for_checkpoint (told n)))
      × (create_checkpoint_bh false (stopped_for_checkpoint (told n))
          ≡ ret tt (checkpointed (stopped_for_checkpoint (told n))))
      × (sync_checkpoint_check (checkpointed (stopped_for_checkpoint (told n)))
          ≡ ret false (checkpointed (stopped_for_checkpoint (told n))))
checkpoint_once n a needs at none_yet k = (
  rw (sync_checkpoint_check_lem n a) (grind arith),
  create_checkpoint_bh_lem (stopped_for_checkpoint (told n)) (grind arith) (grind arith),
  free_lem (checkpointed (stopped_for_checkpoint (told n))) refl,
)
