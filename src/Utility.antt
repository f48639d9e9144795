-- ===== src/Utility.antt =====
-- net/pdes-utility.c: the time shared by both nodes, the counts of sync messages, and what the
-- timer of a waiting message does.
pub mod Counts
pub mod Time
use qemu_pdes.Base.{
  ℕ, ◌+◌, ◌%◌, ◌^◌, Bool, true, false, Option, none, some, List, [], ◌∷◌, ◌&&◌, not, if◌then◌else◌,
  ◌==◌, ltb,
}
use qemu_pdes.Base.Word.{u32, sub64, minus_one64}
use qemu_pdes.Comm.Message.{Message, msg_type_sync}
use qemu_pdes.Node.{Node, PdesEngine, MessageReceiveContext, deliver}
use qemu_pdes.Node.Monad.{M, pure, ◌>>=◌, ◌>>◌, engine, get, assert, emit, read, fail, assertion}

unfoldable pub get_universal_virtual_time : M ℕ
get_universal_virtual_time = do
  first ← engine (λ e. e.first_sync_virtual_time)
  assert (not (first == minus_one64))
  current_time ← get (λ n. n.virtual_ns)
  pure (sub64 current_time first)

-- The key of a round is `(guint)round`.
unfoldable pub sync_count_get : (ℕ → ℕ) → ℕ → ℕ
sync_count_get table round = table (u32 round)

unfoldable pub sync_count_increment : (ℕ → ℕ) → ℕ → ℕ → ℕ
sync_count_increment table round key =
    if key == u32 round then u32 (table (u32 round) + 1) else table key

-- The one final callback, of net/pdes-netdev.c. The result of `qemu_send_packet` is only printed.
abbrev pdes_recv_callback : List ℕ → M (Unit {0})
pdes_recv_callback bytes = emit (deliver bytes)

-- What the final callback gets is the first `len` bytes of the array. The context and its timer are
-- freed after it.
unfoldable pub process_message_at_virtual_time : MessageReceiveContext → M (Unit {0})
process_message_at_virtual_time ctx =
    let msg = ctx.msg in
    if ltb 0 msg.len && not (msg.kind == msg_type_sync) && ctx.has_recv_cb
    then (do bytes ← read msg 0 msg.len; pdes_recv_callback bytes)
    else fail assertion
