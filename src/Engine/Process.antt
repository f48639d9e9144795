-- ===== src/Engine/Process.antt =====
-- `process_message` and `pdes_engine_poll` of net/pdes-engine.c, with the master's start of the
-- first checkpoint.
pub mod Invariant
pub mod Poll
pub mod Kinds
pub mod Fuel
pub mod Reads
pub mod PollEnds
pub mod Turns
use Prim.Native.String.{String}
use qemu_pdes.Base.{
  ℕ, zero, suc, ◌+◌, ◌^◌, Bool, true, false, Option, none, some, List, [], ◌∷◌, ◌++◌, ◌&&◌, not,
  if◌then◌else◌, ◌==◌, leb, codes, length,
}
use qemu_pdes.Base.Word.{u32, u64, add64, sub64, signed_lt32, signed_le32}
use qemu_pdes.Base.Bytes.{of_le_bytes}
use qemu_pdes.Comm.Message.{
  Message, drain_start, drain_end, checkpoint_init_step, end_of_emulation, intent_to_end_emulation,
  permission_to_end_emulation,
}
use qemu_pdes.Node.{Node, PdesEngine, PdesWwt}
use qemu_pdes.Node.Monad.{
  M, pure, skip, when, assert, get, engine, wwt, set_engine, read, modify, ◌>>=◌, ◌>>◌, fail,
  null_pointer, timer_mod,
}
use qemu_pdes.Node.Channel.{pdes_comm_recv, no_message}
use qemu_pdes.Engine.Exit.{send_end_if_handshake_complete, send_control}
use qemu_pdes.Wwt.Receive.{wwt_recivied_callback}

abbrev pub init_warmed : List ℕ
init_warmed = codes "init_warmed"

unfoldable pub set_checkpoint_values_for_master : M (Unit {0})
set_checkpoint_values_for_master = do
  base_format ← get (λ n. n.base_format)
  round ← wwt (λ w. w.current_quantum_round)
  set_engine (λ e. record e {
    notified_neighbors = false;
    needs_to_checkpoint = true;
    checkpoint_format = base_format;
    checkpoint_quantum_round = round;
    checkpoint_name = init_warmed;
  })

-- The arm INTENT_TO_END_EMULATION, and so on below.
unfoldable pub on_intent : M (Unit {0})
on_intent = set_engine (λ e. record e {
  ready_to_exit_neighbors =
      if e.master then u32 (e.ready_to_exit_neighbors + 1) else e.ready_to_exit_neighbors;
})

unfoldable pub on_permission : M (Unit {0})
on_permission = do
  set_engine (λ e. record e { permitted_to_exit = true })
  send_end_if_handshake_complete

unfoldable pub on_end : M (Unit {0})
on_end = do
  permitted ← engine (λ e. e.permitted_to_exit)
  assert permitted
  set_engine (λ e. record e { pair_has_finished = true })

-- `size_t name_len` wraps for a message of fewer than 12 bytes.
abbrev pub drain_name_len : Message → ℕ
drain_name_len msg = sub64 (sub64 msg.len 4) 8

unfoldable pub parse_drain_start : Message → M (Unit {0})
parse_drain_start msg = do
  let name_len = drain_name_len msg
  set_engine (λ e. record e { needs_to_checkpoint = true })
  name ← read msg 0 name_len
  set_engine (λ e. record e { checkpoint_name = name })
  format ← read msg name_len 4
  round ←
      if leb 12 msg.len
      then (do bytes ← read msg (name_len + 4) 8; pure (of_le_bytes bytes))
      else pure 0
  set_engine
      (λ e. record e { checkpoint_format = of_le_bytes format; checkpoint_quantum_round = round })

unfoldable pub on_drain_start : Message → M (Unit {0})
unfolding parse_drain_start
on_drain_start msg = do
  set_engine (λ e. record e { checkpoint_in_progress = true })
  master ← engine (λ e. e.master)
  if not master
      then parse_drain_start msg
      else set_engine (λ e. record e { neighbour_drained = u32 (e.neighbour_drained + 1) })

unfoldable pub on_drain_end : M (Unit {0})
on_drain_end = set_engine (λ e. record e {
  checkpoint_in_progress = if e.master then e.checkpoint_in_progress else false;
})

unfoldable pub on_checkpoint_init : M (Unit {0})
unfolding set_checkpoint_values_for_master
on_checkpoint_init = do
  set_engine (λ e. record e { init_flag = u32 (e.init_flag + 1) })
  master ← engine (λ e. e.master)
  first ← engine (λ e. (e.init_flag == 1) && e.master_init)
  when (master && first) set_checkpoint_values_for_master

unfoldable pub process_message : Message → M (Unit {0})
process_message msg = do
  wwt_recivied_callback msg
  when (msg.kind == intent_to_end_emulation) on_intent
  when (msg.kind == permission_to_end_emulation) on_permission
  when (msg.kind == end_of_emulation) on_end
  if msg.kind == drain_start
      then on_drain_start msg
      else if msg.kind == drain_end
      then on_drain_end
      else when (msg.kind == checkpoint_init_step) on_checkpoint_init

-- The loop of `pdes_engine_poll`, on fuel for the messages that lie in the ring: `Poll` shows that
-- it is enough. A `res` below 0 other than NO_MESSAGE ends the loop too.
unfoldable pub poll_loop : ℕ → M (Unit {0})
poll_loop zero = skip
poll_loop (suc fuel) = do
  (res, msg) ← pdes_comm_recv
  if res == no_message
      then skip
      else if signed_lt32 res 0
      then skip
      else elim msg [ none ↦ fail null_pointer | some m ↦ (do process_message m; poll_loop fuel) ]

-- What the neighbour puts into the ring before and during the poll comes first.
unfoldable pub accept_arrivals : M (Unit {0})
accept_arrivals = modify (λ n. elim n.arriving [
  | [] ↦ n
  | batch ∷ later ↦ record n { inbox = n.inbox ++ batch; arriving = later }
])

unfoldable pub pdes_engine_poll : M (Unit {0})
unfolding poll_loop accept_arrivals
pdes_engine_poll = do accept_arrivals; fuel ← get (λ n. suc (length n.inbox)); poll_loop fuel

-- The follower's side, and the master's, of the first checkpoint.
unfoldable pub send_initiate_checkpoint_message : M (Unit {0})
send_initiate_checkpoint_message = send_control checkpoint_init_step

unfoldable pub finish_initiate_checkpoint : M (Unit {0})
unfolding set_checkpoint_values_for_master send_initiate_checkpoint_message
finish_initiate_checkpoint = do
  master ← engine (λ e. e.master)
  if master
      then (do
        set_engine (λ e. record e { master_init = true })
        init_flag ← engine (λ e. e.init_flag)
        when (signed_le32 1 init_flag) set_checkpoint_values_for_master)
      else send_initiate_checkpoint_message

unfoldable schedule_poll : M (Unit {0})
schedule_poll = do
  host ← get (λ n. n.host_ns)
  timer ← engine (λ e. e.msg_rec_poll_timer)
  later ← timer_mod timer (add64 host 5000000)
  set_engine (λ e. record e { msg_rec_poll_timer = later })
