-- ===== src/Node/Channel.antt =====
-- `pdes_comm_send` and `pdes_comm_recv` of net/pdes-communicator.c at the level of a whole
-- callback, over the queues that `Comm.Ring.Refine` and `Comm.Ring.Spsc` show the rings to be.
-- A send that waits for space returns when it has put its message into the ring.
use qemu_pdes.Base.{ℕ, ◌-◌, ◌^◌, Option, none, some, List, [], ◌∷◌, ◌++◌, if◌then◌else◌}
use qemu_pdes.Base.Word.{u32}
use qemu_pdes.Comm.Message.{Message}
use qemu_pdes.Node.Monad.{M, pure, ◌>>=◌, ◌>>◌, engine, modify, get}

-- The `int` NO_MESSAGE, -1, and -EINVAL.
abbrev pub no_message : ℕ
no_message = 2 ^ 32 - 1

abbrev pub minus_einval : ℕ
minus_einval = 2 ^ 32 - 22

unfoldable pub pdes_comm_send : Message → M ℕ
pdes_comm_send msg = do
  connected ← engine (λ e. e.connected)
  if connected
      then (do modify (λ n. record n { outbox = n.outbox ++ (msg ∷ []) }); pure 0)
      else pure minus_einval

-- What `pdes_comm_recv` returns for a queue, with `*msg` if it was written.
unfoldable pub take_head : List Message → M (ℕ × Option Message)
take_head [] = pure (no_message, none)
take_head (msg ∷ rest) = do
  modify (λ n. record n { inbox = rest; received = n.received ++ (msg ∷ []) })
  pure (u32 msg.len, some msg)

unfoldable pub pdes_comm_recv : M (ℕ × Option Message)
unfolding take_head
pdes_comm_recv = do
  connected ← engine (λ e. e.connected)
  if connected then (do inbox ← get (λ n. n.inbox); take_head inbox) else pure (minus_einval, none)
