-- ===== src/Checkpoint/Protocol/Last.antt =====
-- The checkpoint of the master under the name that ends the emulation.
use qemu_pdes.Base.{◌≡◌, refl, Bool, true, false, arith}
use qemu_pdes.Comm.Message.{create_message}
use qemu_pdes.Node.{Node}
use qemu_pdes.Node.Monad.{Outcome, ret, fault, exited, spinning, M, after, when}
use qemu_pdes.Node.Channel.{pdes_comm_send}
use qemu_pdes.Utility.{get_universal_virtual_time}
use qemu_pdes.Engine.Exit.{
  pdes_engine_destroy, notify_neighbours_of_end, send_end_if_handshake_complete, checkpoint_or_exit,
  destroy_strategy,
}
use qemu_pdes.Engine.Process.{init_warmed}
use qemu_pdes.Checkpoint.Boundary.{create_checkpoint_bh}
use qemu_pdes.Checkpoint.Boundary.Outcome.{ends_emulation, init_warmed-ends_emulation}
use qemu_pdes.Checkpoint.Cycle.{checkpointed}
use qemu_pdes.Checkpoint.Protocol.{View}
use qemu_pdes.Checkpoint.Protocol.Frame.{Shows, drains-snoc, saves-snoc}
use qemu_pdes.Checkpoint.Protocol.Refine.{saved_view}

-- A callback that does not return: it stops at a fault, or leaves in such a state.
abbrev pub Leaves : {A : Type 0} → (Node → Type 0) → Outcome A → Type 0
Leaves P (ret a n) = ⊥
Leaves P (fault e) = Unit
Leaves P (exited n) = P n
Leaves P (spinning n) = ⊥

destroy-Leaves :
    (v : View) (n : Node)
    → Shows v n
    → n.engine.needs_to_checkpoint ≡ false
    → Leaves (Shows (record v { waiting = false })) (pdes_engine_destroy n)
unfolding pdes_engine_destroy checkpoint_or_exit destroy_strategy notify_neighbours_of_end
    send_end_if_handshake_complete get_universal_virtual_time create_message pdes_comm_send
destroy-Leaves v n s e = grind (arith, drains-snoc, saves-snoc)

after-Leaves :
    {A B : Type 0} (P : Node → Type 0) (o : Outcome A) (f : A → M B)
    → Leaves P o
    → Leaves P (after o f)
after-Leaves P (ret a n) f h = absurd h
after-Leaves P (fault e) f h = tt
after-Leaves P (exited n) f h = h
after-Leaves P (spinning n) f h = absurd h

when-Leaves :
    (P : Node → Type 0) (b : Bool) (m : M (Unit {0})) (n : Node)
    → b ≡ true
    → Leaves P (m n)
    → Leaves P (when b m n)
when-Leaves P true m n e h = h
when-Leaves P false m n e h = cc

checkpointed-Shows : (n : Node) → Shows (saved_view n) (checkpointed n)
checkpointed-Shows n = grind (arith, saves-snoc)

abbrev pub gone_view : Node → View
gone_view n = record (saved_view n) { waiting = false }

-- The bottom half of the master's first checkpoint takes the one snapshot, and the master leaves.
pub last_snapshot :
    (exit_after : Bool) (n : Node)
    → n.engine.master ≡ true
    → n.engine.needs_to_checkpoint ≡ true
    → n.engine.checkpoint_name ≡ init_warmed
    → Leaves (Shows (gone_view n)) (create_checkpoint_bh exit_after n)
unfolding create_checkpoint_bh
last_snapshot exit_after n m needs name =
    let P = Shows (gone_view n) in
    let last = init_warmed-ends_emulation n name m in
    when-Leaves P n.engine.needs_to_checkpoint _ n needs (
      after-Leaves P (when (ends_emulation n) pdes_engine_destroy (checkpointed n)) _ (
        when-Leaves P (ends_emulation n) pdes_engine_destroy (checkpointed n) last
          (destroy-Leaves (saved_view n) (checkpointed n) (checkpointed-Shows n) refl)))
