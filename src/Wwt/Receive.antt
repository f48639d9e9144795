-- ===== src/Wwt/Receive.antt =====
-- `wwt_recivied_callback` of net/pdes-wwt.c: what each message does to the synchronisation.
pub mod Frame
use qemu_pdes.Base.{
  ℕ, ◌+◌, Bool, true, false, List, [], ◌∷◌, ◌++◌, ◌&&◌, ◌||◌, not, if◌then◌else◌, ◌==◌, leb,
}
use qemu_pdes.Base.Word.{u64, add64, signed_lt64}
use qemu_pdes.Base.Bytes.{of_le_bytes}
use qemu_pdes.Comm.Message.{Message, msg_type_sync, msg_type_normal}
use qemu_pdes.Node.{Node, PdesEngine, PdesWwt, MessageReceiveContext, armed}
use qemu_pdes.Node.Monad.{
  M, pure, skip, when, assert, get, engine, wwt, modify, set_wwt, read, ◌>>=◌, ◌>>◌,
}
use qemu_pdes.Utility.{get_universal_virtual_time, sync_count_increment}

-- `memcpy(&msg_round, msg->data, 8)` of a message that is long enough.
unfoldable pub sync_round : Message → M ℕ
sync_round msg =
    if leb 8 msg.len then (do bytes ← read msg 0 8; pure (of_le_bytes bytes)) else pure 0

abbrev pub is_valid_round : PdesWwt → ℕ → Bool
is_valid_round w round =
    (round == w.current_quantum_round)
    || (w.finished_quantum && (round == u64 (w.current_quantum_round + 1)))

unfoldable pub receive_sync : Message → M (Unit {0})
unfolding sync_round
receive_sync msg = do
  round ← sync_round msg
  should_sync ← wwt (λ w. w.should_sync)
  valid ← wwt (λ w. is_valid_round w round)
  when should_sync (assert valid)
  set_wwt (λ w. record w { sync_counts = sync_count_increment w.sync_counts round })

-- The timer of a message is set to its time in the local clock.
unfoldable pub receive_normal : Message → ℕ → M (Unit {0})
receive_normal msg now = do
  should_sync ← wwt (λ w. w.should_sync)
  has_cb ← wwt (λ w. w.has_recv_cb)
  when should_sync (assert (not (signed_lt64 msg.ts_ns now)))
  first ← engine (λ e. e.first_sync_virtual_time)
  let soonest = add64 now 1
  let unsynced = if signed_lt64 soonest msg.ts_ns then msg.ts_ns else soonest
  let processing_time = if should_sync then msg.ts_ns else unsynced
  let raw = add64 processing_time first
  modify (λ n. record n {
    waiting_messages =
        n.waiting_messages
        ++ (record {
          has_recv_cb = has_cb;
          msg = msg;
          one_time_poll_timer = armed raw;
          timestamp_ns = raw;
        }
            ∷ []);
  })

unfoldable pub wwt_recivied_callback : Message → M (Unit {0})
wwt_recivied_callback msg = do
  now ← get_universal_virtual_time
  if msg.kind == msg_type_sync
      then receive_sync msg
      else when (msg.kind == msg_type_normal) (receive_normal msg now)
