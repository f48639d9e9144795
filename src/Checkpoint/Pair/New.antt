-- ===== src/Checkpoint/Pair/New.antt =====
-- `net_init_pdes` makes the nodes that the pair starts from.
use qemu_pdes.Base.{◌≡◌, [], arith}
use qemu_pdes.Node.{Node}
use qemu_pdes.Node.Always.{Always}
use qemu_pdes.Wwt.Setup.{pdes_engine_wwt_create}
use qemu_pdes.Netdev.{NetdevPdesOptions, net_init_pdes}
use qemu_pdes.System.{stream}
use qemu_pdes.Checkpoint.Pair.{IsNew}

-- A node that is created when no message has been sent or read is new.
pub create-IsNew :
    (o : NetdevPdesOptions) (n : Node)
    → n.outbox ≡ []
    → n.received ≡ []
    → stream n ≡ []
    → Always (IsNew o.master) (net_init_pdes o n)
unfolding net_init_pdes pdes_engine_wwt_create
create-IsNew o n a b c = ground (arith, a, b, c)
