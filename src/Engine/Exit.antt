-- ===== src/Engine/Exit.antt =====
-- The end of the emulation in net/pdes-engine.c: the follower's intent, the master's permission,
-- and the one END_OF_EMULATION that each side sends.
pub mod Invariant
pub mod Threads
pub mod Handshake
mod Tests
use qemu_pdes.Base.{
  ℕ, ◌+◌, Bool, true, false, Option, none, some, List, [], ◌&&◌, not, if◌then◌else◌, ◌==◌,
}
use qemu_pdes.Base.Word.{u32, signed_le32, minus_one64}
use qemu_pdes.Comm.Message.{
  Message, msg_type_sync, end_of_emulation, intent_to_end_emulation, permission_to_end_emulation,
}
use qemu_pdes.Node.{Node, PdesEngine, PdesWwt, Bh, no_bh, idle, scheduled, no_timer, libqflex_stop}
use qemu_pdes.Node.Monad.{
  M, pure, skip, when, exit, fail, assertion, get, engine, set_engine, set_wwt, emit, message,
  ◌>>=◌, ◌>>◌,
}
use qemu_pdes.Node.Channel.{pdes_comm_send}
use qemu_pdes.Utility.{get_universal_virtual_time}

-- `create_message(NULL, 0, type, universal time)` and its send, as each control message goes out.
abbrev pub send_control : ℕ → M (Unit {0})
send_control kind = do
  ts ← get_universal_virtual_time
  msg ← message [] kind ts
  status ← pdes_comm_send msg
  skip

unfoldable pub send_end_if_handshake_complete : M (Unit {0})
send_end_if_handshake_complete = do
  permitted ← engine (λ e. e.permitted_to_exit)
  when permitted (do
    already ← engine (λ e. e.end_message_sent)
    set_engine (λ e. record e { end_message_sent = true })
    when (not already) (send_control end_of_emulation))

unfoldable pub notify_neighbours_of_end : M (Unit {0})
notify_neighbours_of_end = do
  already ← engine (λ e. e.notified_neighbors_for_exit)
  set_engine (λ e. record e { notified_neighbors_for_exit = true })
  when (not already) send_end_if_handshake_complete

-- `timer_free` of a NULL pointer is not reached: the timer is gone either way.
unfoldable pub destroy_strategy : M (Unit {0})
destroy_strategy = set_wwt (λ w. record w { sync_check_timer = no_timer })

-- `qemu_bh_new` where the pointer is NULL, and `qemu_bh_schedule`.
abbrev pub scheduled_bh : {A : Type 0} → A → Bh A → Bh A
scheduled_bh a no_bh = scheduled a
scheduled_bh a (idle b) = scheduled b
scheduled_bh a (scheduled b) = scheduled b

abbrev pub is_some : {A : Type 0} → Option A → Bool
is_some none = false
is_some (some a) = true

-- The second half of `pdes_engine_destroy`: the pending checkpoint is scheduled, or the process
-- leaves.
unfoldable pub checkpoint_or_exit : M (Unit {0})
unfolding destroy_strategy
checkpoint_or_exit = do
  checkpoint ← engine (λ e. e.needs_to_checkpoint)
  if checkpoint
      then set_engine
          (λ e. record e { boundry_checkpoint_bh = scheduled_bh true e.boundry_checkpoint_bh })
      else (do
        destroy_strategy
        flexus ← get (λ n. n.flexus)
        when (is_some flexus) (emit libqflex_stop)
        exit)

unfoldable pub pdes_engine_destroy : M (Unit {0})
unfolding checkpoint_or_exit
pdes_engine_destroy = do notify_neighbours_of_end; checkpoint_or_exit

-- The master's permission, as `can_stop` and `wwt_sync_check` give it.
unfoldable pub permit : M (Unit {0})
permit = do
  set_engine (λ e. record e { permitted_to_exit = true })
  send_control permission_to_end_emulation
  send_end_if_handshake_complete

-- The first half of `can_stop`: the follower asks, the master answers.
unfoldable pub ask_to_stop : M (Unit {0})
unfolding permit
ask_to_stop = do
  master ← engine (λ e. e.master)
  intent_sent ← engine (λ e. e.intent_sent)
  neighbors ← engine (λ e. e.ready_to_exit_neighbors)
  permitted ← engine (λ e. e.permitted_to_exit)
  if not master
      then when (not intent_sent) (do
        send_control intent_to_end_emulation
        set_engine (λ e. record e { intent_sent = true }))
      else when (signed_le32 1 neighbors && not permitted) permit

unfoldable pub can_stop : M Bool
unfolding ask_to_stop
can_stop = do
  ask_to_stop
  set_engine (λ e. record e { ready_to_exit = true })
  engine (λ e. e.permitted_to_exit && e.pair_has_finished)

unfoldable pub pdes_engine_send : Message → M ℕ
pdes_engine_send msg = do
  first ← engine (λ e. e.first_sync_time)
  when (first == minus_one64) (
      if msg.kind == msg_type_sync
      then (do now ← get (λ n. n.virtual_ns); set_engine (λ e. record e { first_sync_time = now }))
      else fail assertion)
  pdes_comm_send msg
