-- ===== src/Netdev.antt =====
-- net/pdes-netdev.c: the network backend over the engine. `Utility` has its `pdes_recv_callback`.
pub mod Delivery
use qemu_pdes.Base.{ℕ, ◌+◌, ◌-◌, ◌^◌, Bool, true, List, if◌then◌else◌, length}
use qemu_pdes.Base.Word.{signed_lt32}
use qemu_pdes.Node.Monad.{M, pure, skip, ◌>>=◌, ◌>>◌}
use qemu_pdes.Wwt.Setup.{wwt_send, pdes_engine_wwt_create}

-- The `int` result becomes a `ssize_t`, with its sign.
unfoldable pub pdes_net_receive : List ℕ → M ℕ
pdes_net_receive buf = do
  status ← wwt_send buf
  if signed_lt32 status 0 then pure (2 ^ 64 - 2 ^ 32 + status) else pure (length buf)

-- The options of the device, with whether the two rings could be opened.
pub record NetdevPdesOptions : Type 0 where
  pub connected : Bool
  pub sync : Bool
  pub latencyns : ℕ
  pub master : Bool

unfoldable pub net_init_pdes : NetdevPdesOptions → M (Unit {0})
net_init_pdes o = pdes_engine_wwt_create o.connected o.sync o.latencyns true o.master
