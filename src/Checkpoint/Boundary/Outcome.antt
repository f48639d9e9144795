-- ===== src/Checkpoint/Boundary/Outcome.antt =====
-- `create_checkpoint_bh` on every branch.
use qemu_pdes.Base.{
  ◌≡◌, ◌≢◌, refl, Bool, true, false, not, [], ◌∷◌, ◌++◌, ◌&&◌, ◌||◌, if◌then◌else◌, arith, bytes_eq,
  bytes_eq_refl,
}
use qemu_pdes.Base.Word.{minus_one64}
use qemu_pdes.Base.Bytes.{c_str}
use qemu_pdes.Comm.Message.{Message, create_message, end_of_emulation}
use qemu_pdes.Node.{Node, no_timer, libqflex_stop}
use qemu_pdes.Node.Monad.{Outcome, ret, exited}
use qemu_pdes.Node.Channel.{pdes_comm_send}
use qemu_pdes.Utility.{get_universal_virtual_time}
use qemu_pdes.Utility.Time.{universal}
use qemu_pdes.Engine.Exit.{
  pdes_engine_destroy, checkpoint_or_exit, destroy_strategy, notify_neighbours_of_end,
  send_end_if_handshake_complete, is_some,
}
use qemu_pdes.Engine.Process.{init_warmed}
use qemu_pdes.Checkpoint.Boundary.{create_checkpoint_bh}
use qemu_pdes.Checkpoint.Cycle.{checkpointed}

-- Whether `pdes_engine_destroy` has END_OF_EMULATION to send.
abbrev pub sends_end : Node → Bool
sends_end n =
    n.engine.permitted_to_exit
    && not n.engine.notified_neighbors_for_exit
    && not n.engine.end_message_sent

abbrev pub end_message : Node → Message
end_message n = record { ts_ns = universal n; len = 0; payload = []; kind = end_of_emulation }

-- A node that `pdes_engine_destroy` has taken down.
abbrev pub destroyed : Node → Node
destroyed n = record n {
  engine = record n.engine {
    notified_neighbors_for_exit = true;
    end_message_sent = n.engine.end_message_sent || sends_end n;
  };
  wwt = record n.wwt { sync_check_timer = no_timer };
  outbox = if sends_end n then n.outbox ++ (end_message n ∷ []) else n.outbox;
  trace = if is_some n.flexus then n.trace ++ (libqflex_stop ∷ []) else n.trace;
}

destroy_lem :
    (n : Node)
    → n.engine.connected ≡ true
    → n.engine.first_sync_virtual_time ≢ minus_one64
    → n.engine.needs_to_checkpoint ≡ false
    → pdes_engine_destroy n ≡ exited (destroyed n)
unfolding pdes_engine_destroy checkpoint_or_exit destroy_strategy notify_neighbours_of_end
    send_end_if_handshake_complete get_universal_virtual_time create_message pdes_comm_send
destroy_lem n c f h = grind arith

abbrev pub ends_emulation : Node → Bool
ends_emulation n = bytes_eq (c_str n.engine.checkpoint_name) init_warmed && n.engine.master

pub c_str-init_warmed : c_str init_warmed ≡ init_warmed
unfolding c_str
c_str-init_warmed = refl

pub init_warmed-ends_emulation :
    (n : Node)
    → n.engine.checkpoint_name ≡ init_warmed
    → n.engine.master ≡ true
    → ends_emulation n ≡ true
init_warmed-ends_emulation n e m = rw (e, m, c_str-init_warmed, bytes_eq_refl init_warmed) refl

abbrev pub bottom_half_result : Bool → Node → Outcome (Unit {0})
bottom_half_result exit_after n =
    if not n.engine.needs_to_checkpoint
    then ret tt n
    else if ends_emulation n
    then exited (destroyed (checkpointed n))
    else if exit_after
    then exited (checkpointed n)
    else ret tt (checkpointed n)

-- The bottom half at a connected node that is set up: without a checkpoint to take it does
-- nothing. Otherwise it takes the snapshot and resets the flags. Then the master, if the name is
-- init_warmed, stops libqflex and leaves, and sends END_OF_EMULATION only if it is permitted to exit
-- and has not sent it or been through `notify_neighbours_of_end`; any other node leaves if it was asked
-- to, without a word to its neighbour, and goes on if not.
pub create_checkpoint_bh_outcomes :
    (exit_after : Bool) (n : Node)
    → n.engine.connected ≡ true
    → n.engine.first_sync_virtual_time ≢ minus_one64
    → create_checkpoint_bh exit_after n ≡ bottom_half_result exit_after n
unfolding create_checkpoint_bh
create_checkpoint_bh_outcomes exit_after n c f =
    grind (arith, destroy_lem (checkpointed n) c f refl)
