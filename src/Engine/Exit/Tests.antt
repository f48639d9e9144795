-- ===== src/Engine/Exit/Tests.antt =====
-- The handshake of two concrete nodes.
use qemu_pdes.Sample
use qemu_pdes.Base.{ℕ, ◌+◌, ◌*◌, ◌≡◌, refl, Bool, true, false, arith}
use qemu_pdes.Comm.Message.{intent_to_end_emulation, permission_to_end_emulation, end_of_emulation}
use qemu_pdes.Engine.Exit.{can_stop}
use qemu_pdes.Engine.Exit.Handshake.{
  Fresh, at, control_message, answered, follower1, master1, master2, follower2, follower3, master3,
  handshake_completes,
}
use qemu_pdes.Engine.Process.{process_message}
use qemu_pdes.Node.{Node}
use qemu_pdes.Node.Monad.{ret}
use qemu_pdes.Sample.{engine}

abbrev node : Bool → Node
node = Sample.node1

node-Fresh : (master : Bool) → Fresh (node master) master
node-Fresh master = record {
  connected = refl;
  first = omega arith;
  role = refl;
  no_intent = refl;
  no_neighbor = refl;
  no_permission = refl;
  no_end = refl;
  not_finished = refl;
}

-- Each callback ten nanoseconds after the one before.
abbrev clock : ℕ → ℕ
clock k = 400 + 10 * k

handshake_completes_example :
    (can_stop (at 400 (node false)) ≡ ret false (follower1 (node true) (node false) clock))
    × (process_message
          (control_message intent_to_end_emulation (at 400 (node false)))
          (at 410 (node true))
        ≡ ret tt (master1 (node true) (node false) clock))
    × (can_stop (at 420 (master1 (node true) (node false) clock))
        ≡ ret false (master2 (node true) (node false) clock))
    × (process_message
          (control_message permission_to_end_emulation
            (at 420 (master1 (node true) (node false) clock)))
          (at 430 (follower1 (node true) (node false) clock))
        ≡ ret tt (follower2 (node true) (node false) clock))
    × (process_message
          (control_message end_of_emulation (at 420 (master1 (node true) (node false) clock)))
          (at 440 (follower2 (node true) (node false) clock))
        ≡ ret tt (follower3 (node true) (node false) clock))
    × (process_message
          (control_message end_of_emulation (at 430 (follower1 (node true) (node false) clock)))
          (at 450 (master2 (node true) (node false) clock))
        ≡ ret tt (master3 (node true) (node false) clock))
    × (can_stop (at 460 (follower3 (node true) (node false) clock))
        ≡ ret true (answered (at 460 (follower3 (node true) (node false) clock))))
    × (can_stop (at 470 (master3 (node true) (node false) clock))
        ≡ ret true (answered (at 470 (master3 (node true) (node false) clock))))
handshake_completes_example =
    handshake_completes (node true) (node false) clock (node-Fresh true) (node-Fresh false)
