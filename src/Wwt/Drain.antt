-- ===== src/Wwt/Drain.antt =====
-- `notify_neighbors_for_drain` of net/pdes-wwt.c: the message that announces a checkpoint.
pub mod Notify
use Prim.Native.String.{String}
use qemu_pdes.Base.{
  ℕ, ◌+◌, Bool, true, false, List, [], ◌∷◌, ◌++◌, if◌then◌else◌, leb, ltb, codes, length,
}
use qemu_pdes.Base.Bytes.{le_bytes, c_str}
use qemu_pdes.Comm.Message.{drain_start}
use qemu_pdes.Node.{Node, PdesEngine, PdesWwt}
use qemu_pdes.Node.Monad.{
  M, pure, skip, when, assert, fail, overrun, get, engine, wwt, set_engine, message, ◌>>=◌, ◌>>◌,
}
use qemu_pdes.Node.Channel.{pdes_comm_send}
use qemu_pdes.Utility.{get_universal_virtual_time}

-- sizeof(snapshot_name_data)
abbrev pub name_buffer_size : ℕ
name_buffer_size = 1006

abbrev pub drain_prefix : List ℕ
drain_prefix = codes "QPDES"

-- The bytes of the message: the text "QPDES<name>" with no terminator, the format and the round.
unfoldable pub drain_payload : List ℕ → ℕ → ℕ → List ℕ
drain_payload name format round = drain_prefix ++ (name ++ (le_bytes 4 format ++ le_bytes 8 round))

-- What follows the test that the text itself fits: the two `memcpy` behind it are not tested
-- against the end of the buffer.
unfoldable pub send_drain_start : List ℕ → ℕ → M (Unit {0})
unfolding drain_payload
send_drain_start name format = do
  round ← wwt (λ w. w.current_quantum_round)
  let payload = drain_payload name format round
  when (ltb name_buffer_size (length payload)) (fail overrun)
  ts ← get_universal_virtual_time
  msg ← message payload drain_start ts
  status ← pdes_comm_send msg
  skip

-- No caller reads the result, -1 for a text that does not fit.
unfoldable pub notify_neighbors_for_drain : List ℕ → ℕ → M (Unit {0})
unfolding send_drain_start
notify_neighbors_for_drain snapshot_name format = do
  needs ← engine (λ e. e.needs_to_checkpoint)
  assert needs
  notified ← engine (λ e. e.notified_neighbors)
  if notified then skip else (do
    set_engine (λ e. record e { notified_neighbors = true })
    let name = c_str snapshot_name
    when (ltb (length drain_prefix + length name) name_buffer_size) (send_drain_start name format))

-- The call with the engine's own name and format.
unfoldable pub notify_of_checkpoint : M (Unit {0})
unfolding notify_neighbors_for_drain
notify_of_checkpoint = do
  name ← engine (λ e. e.checkpoint_name)
  format ← engine (λ e. e.checkpoint_format)
  notify_neighbors_for_drain name format
